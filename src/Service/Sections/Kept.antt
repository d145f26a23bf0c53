-- ===== src/Service/Sections/Kept.antt =====
-- What a write that merges or appends leaves of the sections and of the rows.
use mathlib.Core.Path.{ap₂}
use memory_system.Prelude.{
  ℕ, ◌≤◌, ◌<◌, All, arith, ok_inj, ◌≡◌, refl, sym, ap, ◌∙◌, Text, text_eq, eq_refl, Bool, true,
  false, List, [], ◌∷◌, ◌++◌, map, Result, err, ok, >>=-ok, find, if◌then◌else◌, ◌||◌,
}
use memory_system.Models.Policy.{write_mode_replace, write_mode_append_only}
use memory_system.Service.Sections.{
  Section, SectionCall, SectionError, stored, insert_rows, insert_fails, merge_loop, final_sections,
  write_sections, next_ordinal,
}
use memory_system.Service.Sections.Ids.{
  ids, ids-append, nil-Keyed, ids-final_sections, insert_rows-appends, merge_loop-ids,
}
use memory_system.Service.Sections.Matched.{
  matches, unmatched, section_after, row_after, numbered, filed,
}
use memory_system.Service.Sections.Counted.{nil-Counts}
use memory_system.Service.Sections.Merged.{merge_loop-Replayed, final_sections-after}

module _ {V : Type 0} where
  -- The sections of the document and the rows of the table are as the replacements make them, each under its
  -- id, and behind them stand the incoming sections that replace none, numbered above the document's.
  abbrev pub Kept :
      Bool
      → List (Section V)
      → List (Section V)
      → Text
      → List (Section V)
      → List (Section V)
      → List (Section V)
      → Type 0
  Kept embed existing incoming doc table final table' =
      let ms = matches existing [] incoming in
      (new : List (Section V)) × (final ≡ map (section_after ms) existing ++ new)
      × (table' ≡ map (row_after embed ms) table ++ map (stored embed) new)
      × (new
          ≡ filed doc (ids new) (numbered (next_ordinal existing) (unmatched existing [] incoming)))
      × All (λ (e : Section V). e.ordinal < next_ordinal existing) existing
      × (ids (map (section_after ms) existing) ≡ ids existing)
      × (ids table' ≡ ids table ++ ids new)

  -- The ordinal after the last is above every ordinal of the document.
  next_ordinal-above :
      (n : ℕ) (existing : List (Section V))
      → next_ordinal existing ≤ n
      → All (λ (e : Section V). e.ordinal < n) existing
  unfolding next_ordinal
  next_ordinal-above n [] h = tt
  next_ordinal-above n (e ∷ existing) h =
      let bounds : (e.ordinal < n) × (next_ordinal existing ≤ n) = ground arith in
      (bounds.0, next_ordinal-above n existing bounds.1)

  insert_rows-filed :
      (new_id : List (Section V) → Text) (embed : Bool) (doc : Text) (secs table : List (Section V))
      → (insert_rows new_id embed doc secs table).0
        ≡ filed doc (ids (insert_rows new_id embed doc secs table).0) secs
  unfolding insert_rows filed
  insert_rows-filed new_id embed doc [] table = refl
  insert_rows-filed new_id embed doc (s ∷ secs) table =
      let row = record s { id = new_id table; document_id = doc } in
      ap (◌∷◌ row) (insert_rows-filed new_id embed doc secs (table ++ (stored embed row ∷ [])))

  ids-stored : (embed : Bool) (secs : List (Section V)) → ids (map (stored embed) secs) ≡ ids secs
  ids-stored embed [] = refl
  ids-stored embed (s ∷ secs) = ap (◌∷◌ s.id) (ids-stored embed secs)

unless_ok :
    {A : Type 0} (b : Bool) (e : SectionError) (x y : A)
    → ◌≡◌ {A = Result SectionError A} (if b then err e else ok x) (ok y)
    → x ≡ y
unless_ok true e x y h = cc
unless_ok false e x y h = ok_inj h

-- A write of a mode that does not replace, and that returns no error, makes exactly the replacements
-- that the order of the sections tells: the n-th incoming section of a heading gives its content and
-- its vector to the document's n-th section of that heading, in the answer and in the rows of that id,
-- where of several under one id the last counts, and a row gets no vector where the write does not
-- embed. Every other section and row stays as it was, all stay in order and under their ids, and
-- behind them stand, in order, the incoming sections for which there was none, numbered one after the
-- other above the document's ordinals and filed under the document.
pub write_sections-Kept :
    {V : Type 0} (fails : SectionCall → Bool) (new_id : List (Section V) → Text) (mode : Text)
    (embed : Bool) (existing incoming : List (Section V)) (doc : Text)
    (table final table' : List (Section V))
    → (text_eq mode write_mode_replace || text_eq mode []) ≡ false
    → write_sections fails new_id mode embed existing incoming doc table ≡ ok (final, table')
    → Kept embed existing incoming doc table final table'
unfolding write_sections find
write_sections-Kept fails new_id mode embed existing incoming doc table final table' m h =
    let k = rw (m, write_sections) at h in
    let only_append = text_eq mode write_mode_append_only in
    let (st, looped, rest) =
      >>=-ok (merge_loop fails only_append embed existing incoming _) _ (final, table') k in
    let (same, keyed, only) =
      merge_loop-ids fails only_append embed existing incoming _ st nil-Keyed looped in
    let (rows, updates, inserts) =
      merge_loop-Replayed fails only_append embed existing [] incoming _ st (nil-Counts existing)
        looped in
    let r = insert_rows new_id embed doc st.inserts st.table in
    let q = unless_ok (insert_fails fails st.inserts) _ _ _ rest in
    let ms = matches existing [] incoming in
    let after = final_sections-after ms st.updated existing updates in
    let grown = sym (ap (λ p. p.1) q) ∙ insert_rows-appends new_id embed doc st.inserts st.table in
    (
      r.0,
      sym (ap (λ p. p.0) q) ∙ ap (λ x. x ++ r.0) after,
      grown ∙ ap (λ x. x ++ map (stored embed) r.0) rows,
      insert_rows-filed new_id embed doc st.inserts st.table ∙ ap (filed doc (ids r.0)) inserts,
      next_ordinal-above (next_ordinal existing) existing (omega arith),
      ap ids (sym after) ∙ ids-final_sections st.updated existing keyed,
      ap ids grown
          ∙ ids-append st.table (map (stored embed) r.0)
          ∙ ap₂ ◌++◌ same (ids-stored embed r.0),
    )

module _ {V : Type 0} where
  final_sections-nil : (existing : List (Section V)) → final_sections [] existing ≡ existing
  unfolding final_sections find
  final_sections-nil [] = refl
  final_sections-nil (e ∷ es) = ap (◌∷◌ e) (final_sections-nil es)

append_mode :
    (text_eq write_mode_append_only write_mode_replace || text_eq write_mode_append_only []) ≡ false
unfolding text_eq
append_mode = refl

append_only_mode :
    {V : Type 0} (fails : SectionCall → Bool) (new_id : List (Section V) → Text) (mode : Text)
    (embed : Bool) (existing incoming : List (Section V)) (doc : Text)
    (table final table' : List (Section V))
    → (text_eq mode write_mode_replace || text_eq mode []) ≡ false
    → text_eq mode write_mode_append_only ≡ true
    → write_sections fails new_id mode embed existing incoming doc table ≡ ok (final, table')
    → (new : List (Section V)) × (final ≡ existing ++ new)
      × (table' ≡ table ++ map (stored embed) new)
unfolding write_sections
append_only_mode fails new_id mode embed existing incoming doc table final table' m a h =
    let k = rw (m, write_sections) at h in
    let only_append = text_eq mode write_mode_append_only in
    let (st, looped, rest) =
      >>=-ok (merge_loop fails only_append embed existing incoming _) _ (final, table') k in
    let (same, keyed, only) =
      merge_loop-ids fails only_append embed existing incoming _ st nil-Keyed looped in
    let (t, u) = only a in
    let r = insert_rows new_id embed doc st.inserts st.table in
    let q = unless_ok (insert_fails fails st.inserts) _ _ _ rest in
    (
      r.0,
      sym (ap (λ p. p.0) q)
          ∙ ap (λ m. final_sections m existing ++ r.0) u
          ∙ ap (λ x. x ++ r.0) (final_sections-nil existing),
      sym (ap (λ p. p.1) q)
          ∙ insert_rows-appends new_id embed doc st.inserts st.table
          ∙ ap (λ x. x ++ map (stored embed) r.0) t,
    )

-- An append-only write that returns no error changes no section: the answer is the document's sections
-- as they were and then the new ones, and the table the rows that it had and then those of the new ones.
pub write_sections-append :
    {V : Type 0} (fails : SectionCall → Bool) (new_id : List (Section V) → Text) (embed : Bool)
    (existing incoming : List (Section V)) (doc : Text) (table final table' : List (Section V))
    → write_sections fails new_id write_mode_append_only embed existing incoming doc table
      ≡ ok (final, table')
    → (new : List (Section V)) × (final ≡ existing ++ new)
      × (table' ≡ table ++ map (stored embed) new)
write_sections-append fails new_id embed existing incoming doc table final table' h =
    append_only_mode fails new_id write_mode_append_only embed existing incoming doc table final
      table' append_mode (eq_refl write_mode_append_only) h
