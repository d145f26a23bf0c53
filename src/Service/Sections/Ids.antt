-- ===== src/Service/Sections/Ids.antt =====
-- A merge or an append leaves the ids of the sections and of the rows as they are.
use mathlib.Core.List.{append_assoc, append-nil}
use mathlib.Core.Path.{ap₂}
use memory_system.Prelude.{
  some_inj, ok_inj, ◌≡◌, inl, inr, refl, sym, ap, ◌∙◌, subst, Text, text_eq, eq_iff, Bool, true,
  false, Option, none, some, List, [], ◌∷◌, ◌++◌, map, ok, find, set, find-set, find-set_other,
  Bool-cases, Option-cases,
}
use memory_system.Service.Sections.{
  Section, SectionCall, updating, Merge, heading_key, count_or_zero, group, at_index, stored,
  update_section_content, insert_rows, appended, replaced, merge_loop, updated_or, final_sections,
}

module _ {V : Type 0} where
  abbrev pub ids : List (Section V) → List Text
  ids secs = map (λ (s : Section V). s.id) secs

  pub ids-append : (a b : List (Section V)) → ids (a ++ b) ≡ ids a ++ ids b
  ids-append [] b = refl
  ids-append (x ∷ a) b = ap (◌∷◌ x.id) (ids-append a b)

  -- What is kept under an id has that id.
  abbrev pub Keyed : List (Text × Section V) → Type 0
  Keyed m = (k : Text) (u : Section V) → find k m ≡ some u → u.id ≡ k

  pub nil-Keyed : Keyed []
  nil-Keyed k u e = unfold find in cc

  set-Keyed : (u : Section V) (m : List (Text × Section V)) → Keyed m → Keyed (set u.id u m)
  set-Keyed u m h k w e = elim (Bool-cases (text_eq u.id k)) [
    | inl t ↦
        let same : u.id ≡ k = (eq_iff u.id k).0 t in
        let f : find k (set u.id u m) ≡ some u =
          subst (λ i. find i (set u.id u m) ≡ some u) same (find-set u.id u m) in
        ap (λ (s : Section V). s.id) (some_inj (sym e ∙ f)) ∙ same
    | inr t ↦ h k w (sym (find-set_other k u.id u m t) ∙ e)
  ]

  picked-id :
      (o : Option (Section V)) (e : Section V)
      → ((u : Section V) → o ≡ some u → u.id ≡ e.id)
      → (updated_or o e).id ≡ e.id
  picked-id none e h = refl
  picked-id (some u) e h = h u refl

  pub ids-final_sections :
      (m : List (Text × Section V)) (existing : List (Section V))
      → Keyed m
      → ids (final_sections m existing) ≡ ids existing
  unfolding final_sections
  ids-final_sections m [] h = refl
  ids-final_sections m (e ∷ es) h =
      ap₂ ◌∷◌ (picked-id (find e.id m) e (h e.id)) (ids-final_sections m es h)

  ids-update :
      (i : Text) (s : Section V) (embed : Bool) (table : List (Section V))
      → ids (update_section_content i s embed table) ≡ ids table
  unfolding update_section_content
  ids-update i s embed [] = refl
  ids-update i s embed (r ∷ t) = elim (Bool-cases (text_eq r.id i)) [
    | inl e ↦ rw e (ap (◌∷◌ r.id) (ids-update i s embed t))
    | inr e ↦ rw e (ap (◌∷◌ r.id) (ids-update i s embed t))
  ]

  -- The rows are put behind those of the table.
  pub insert_rows-appends :
      (new_id : List (Section V) → Text) (embed : Bool) (doc : Text) (secs table : List (Section V))
      → (insert_rows new_id embed doc secs table).1
        ≡ table ++ map (stored embed) (insert_rows new_id embed doc secs table).0
  unfolding insert_rows
  insert_rows-appends new_id embed doc [] table = sym (append-nil table)
  insert_rows-appends new_id embed doc (s ∷ secs) table =
      let row = record s { id = new_id table; document_id = doc } in
      insert_rows-appends new_id embed doc secs (table ++ (stored embed row ∷ []))
      ∙ append_assoc table (stored embed row ∷ []) _

  pub merge_loop-ids :
      (fails : SectionCall → Bool) (append_only embed : Bool) (existing incoming : List (Section V))
      (st st' : Merge V)
      → Keyed st.updated
      → merge_loop fails append_only embed existing incoming st ≡ ok st'
      → (ids st'.table ≡ ids st.table)
        × Keyed st'.updated
        × (append_only ≡ true → (st'.table ≡ st.table) × (st'.updated ≡ st.updated))
  unfolding merge_loop
  merge_loop-ids fails append_only embed existing [] st st' h e =
      let same : st ≡ st' = ok_inj e in
      subst
        (λ (x : Merge V).
          (ids x.table ≡ ids st.table)
          × Keyed x.updated
          × (append_only ≡ true → (x.table ≡ st.table) × (x.updated ≡ st.updated)))
        same (refl, h, λ a. (refl, refl))
  merge_loop-ids fails append_only embed existing (s ∷ incoming) st st' h e =
      elim (Option-cases (
        at_index (count_or_zero (find (heading_key s.heading) st.consumed))
          (group (heading_key s.heading) existing))) [
            | inl n ↦
                let k = rw (n, merge_loop) at e in
                merge_loop-ids fails append_only embed existing incoming (appended s st) st' h k
            | inr (o, n) ↦ elim (Bool-cases append_only) [
              | inl a ↦ let k = rw (n, a, merge_loop) at e in cc
              | inr a ↦ elim (Bool-cases (fails updating)) [
                | inl f ↦ let k = rw (n, a, f, merge_loop) at e in cc
                | inr f ↦
                    let k = rw (n, a, f, merge_loop) at e in
                    let u : Section V = record o { content = s.content; embedding = s.embedding } in
                    let (i, key, only) =
                      merge_loop-ids fails append_only embed existing incoming
                        (replaced embed s o st) st' (set-Keyed u st.updated h) k in
                    (
                      i ∙ ids-update o.id s embed st.table,
                      key,
                      λ t. absurd (let clash : true ≡ false = sym t ∙ a in cc),
                    )
              ]
            ]
          ]
