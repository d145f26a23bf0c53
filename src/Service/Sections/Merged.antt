-- ===== src/Service/Sections/Merged.antt =====
-- The loop of a merge makes the replacements that stand in the order of the incoming sections, and puts
-- the other sections, numbered, behind the inserts.
use mathlib.Core.Path.{ap₂}
use mathlib.Core.List.{append_assoc, append-nil}
use memory_system.Prelude.{
  ◌≡◌, inl, inr, text_eq-sym, refl, sym, ap, ◌∙◌, subst, Text, text_eq, eq_iff, Bool, true, false,
  Option, none, some, List, [], ◌∷◌, ◌++◌, map, find, set, find-set, find-set_other, Bool-cases,
  Option-cases, if◌then◌else◌, ok, ok_inj,
}
use memory_system.Service.Sections.{
  Section, SectionCall, updating, Merge, heading_key, count_or_zero, group, at_index, appended,
  replaced, update_section_content, merge_loop, updated_or, final_sections,
}
use memory_system.Service.Sections.Matched.{
  target, matches, unmatched, last_for, revised, section_after, row_after, numbered,
}
use memory_system.Service.Sections.Counted.{Counts, Counts-target, Counts-appended, Counts-replaced}

module _ {V : Type 0} where
  -- what is kept under an id after the replacements, where `before` was
  abbrev pub found : List (Section V × Section V) → Option (Section V) → Text → Option (Section V)
  found ms before i = elim (last_for i ms) [ none ↦ before | some m ↦ some (revised m) ]

  found-step :
      (o s : Section V) (ms : List (Section V × Section V)) (m : List (Text × Section V)) (i : Text)
      → found ms (find i (set o.id (revised (o, s)) m)) i ≡ found ((o, s) ∷ ms) (find i m) i
  unfolding last_for
  found-step o s ms m i = elim (Option-cases (last_for i ms)) [
    | inr (x, e) ↦ rw (e, found, last_for) refl
    | inl e ↦ elim (Bool-cases (text_eq i o.id)) [
      | inl t ↦
          let q : o.id ≡ i = sym ((eq_iff i o.id).0 t) in
          rw (e, t, found, last_for)
            (subst (λ j. find j (set o.id (revised (o, s)) m) ≡ some (revised (o, s))) q
              (find-set o.id (revised (o, s)) m))
      | inr t ↦
          rw (e, t, found, last_for)
            (find-set_other i o.id (revised (o, s)) m (text_eq-sym o.id i ∙ t))
    ]
  ]

  abbrev overwritten : Bool → Section V → Section V → Section V
  overwritten embed s r = record r {
    content = s.content;
    embedding = if embed then s.embedding else none;
  }

  row-hit :
      (embed : Bool) (o s : Section V) (ms : List (Section V × Section V)) (r : Section V)
      → text_eq r.id o.id ≡ true
      → row_after embed ms (overwritten embed s r) ≡ row_after embed ((o, s) ∷ ms) r
  unfolding last_for
  row-hit embed o s ms r t = elim (Option-cases (last_for r.id ms)) [
    | inr (x, e) ↦ rw (e, row_after, last_for) refl
    | inl e ↦ rw (e, t, row_after, last_for) refl
  ]

  row-miss :
      (embed : Bool) (o s : Section V) (ms : List (Section V × Section V)) (r : Section V)
      → text_eq r.id o.id ≡ false
      → row_after embed ms r ≡ row_after embed ((o, s) ∷ ms) r
  unfolding last_for
  row-miss embed o s ms r t = elim (Option-cases (last_for r.id ms)) [
    | inr (x, e) ↦ rw (e, row_after, last_for) refl
    | inl e ↦ rw (e, t, row_after, last_for) refl
  ]

  table-step :
      (embed : Bool) (o s : Section V) (ms : List (Section V × Section V))
      (table : List (Section V))
      → map (row_after embed ms) (update_section_content o.id s embed table)
        ≡ map (row_after embed ((o, s) ∷ ms)) table
  unfolding update_section_content
  table-step embed o s ms [] = refl
  table-step embed o s ms (r ∷ table) =
      ap₂ ◌∷◌
        (elim (Bool-cases (text_eq r.id o.id)) [
          | inl t ↦
              ap (λ b. row_after embed ms (if b then overwritten embed s r else r)) t
              ∙ row-hit embed o s ms r t
          | inr t ↦
              ap (λ b. row_after embed ms (if b then overwritten embed s r else r)) t
              ∙ row-miss embed o s ms r t
        ])
        (table-step embed o s ms table)

  pub table-nil : (embed : Bool) (table : List (Section V)) → map (row_after embed []) table ≡ table
  unfolding last_for
  table-nil embed [] = refl
  table-nil embed (r ∷ table) = ap (◌∷◌ r) (table-nil embed table)

  -- What the loop leaves: the rows and the sections replaced, and the rest among the inserts.
  abbrev pub Replayed :
      Bool → List (Section V) → List (Section V) → List (Section V) → Merge V → Merge V → Type 0
  Replayed embed existing seen incoming st st' =
      (st'.table ≡ map (row_after embed (matches existing seen incoming)) st.table)
      × ((i : Text)
          → find i st'.updated ≡ found (matches existing seen incoming) (find i st.updated) i)
      × (st'.inserts ≡ st.inserts ++ numbered st.next (unmatched existing seen incoming))

  pub final_sections-after :
      (ms : List (Section V × Section V)) (updated : List (Text × Section V))
      (existing : List (Section V))
      → ((i : Text) → find i updated ≡ found ms none i)
      → final_sections updated existing ≡ map (section_after ms) existing
  unfolding final_sections
  final_sections-after ms updated [] h = refl
  final_sections-after ms updated (e ∷ existing) h =
      ap₂ ◌∷◌
        (ap (λ o. updated_or o e) (h e.id) ∙ (elim (Option-cases (last_for e.id ms)) [
          | inl n ↦ rw (n, found, section_after, updated_or) refl
          | inr (x, n) ↦ rw (n, found, section_after, updated_or) refl
        ]))
        (final_sections-after ms updated existing h)

  matches-none :
      (existing seen : List (Section V)) (s : Section V) (incoming : List (Section V))
      → target existing seen s ≡ none
      → (matches existing seen (s ∷ incoming) ≡ matches existing (s ∷ seen) incoming)
        × (unmatched existing seen (s ∷ incoming) ≡ s ∷ unmatched existing (s ∷ seen) incoming)
  unfolding matches unmatched
  matches-none existing seen s incoming e = (rw (e, matches) refl, rw (e, unmatched) refl)

  matches-some :
      (existing seen : List (Section V)) (s : Section V) (incoming : List (Section V))
      (o : Section V)
      → target existing seen s ≡ some o
      → (matches existing seen (s ∷ incoming) ≡ (o, s) ∷ matches existing (s ∷ seen) incoming)
        × (unmatched existing seen (s ∷ incoming) ≡ unmatched existing (s ∷ seen) incoming)
  unfolding matches unmatched
  matches-some existing seen s incoming o e = (rw (e, matches) refl, rw (e, unmatched) refl)

  nil-Replayed :
      (embed : Bool) (existing seen : List (Section V)) (st : Merge V)
      → Replayed embed existing seen [] st st
  unfolding matches unmatched numbered last_for
  nil-Replayed embed existing seen st =
      (sym (table-nil embed st.table), λ i. refl, sym (append-nil st.inserts))

  appended-Replayed :
      (embed : Bool) (existing seen : List (Section V)) (s : Section V)
      (incoming : List (Section V)) (st st' : Merge V)
      → target existing seen s ≡ none
      → Replayed embed existing (s ∷ seen) incoming (appended s st) st'
      → Replayed embed existing seen (s ∷ incoming) st st'
  unfolding numbered
  appended-Replayed embed existing seen s incoming st st' e (t, u, i) =
      let (m, n) = matches-none existing seen s incoming e in
      (
        t ∙ ap (λ ms. map (row_after embed ms) st.table) (sym m),
        λ j. u j ∙ ap (λ ms. found ms (find j st.updated) j) (sym m),
        i
            ∙ append_assoc st.inserts (record s { ordinal = st.next } ∷ []) _
            ∙ ap (λ x. st.inserts ++ numbered st.next x) (sym n),
      )

  replaced-Replayed :
      (embed : Bool) (existing seen : List (Section V)) (s o : Section V)
      (incoming : List (Section V)) (st st' : Merge V)
      → target existing seen s ≡ some o
      → Replayed embed existing (s ∷ seen) incoming (replaced embed s o st) st'
      → Replayed embed existing seen (s ∷ incoming) st st'
  replaced-Replayed embed existing seen s o incoming st st' e (t, u, i) =
      let (m, n) = matches-some existing seen s incoming o e in
      let ms = matches existing (s ∷ seen) incoming in
      (
        t ∙ table-step embed o s ms st.table ∙ ap (λ ms. map (row_after embed ms) st.table) (sym m),
        λ j.
            u j
            ∙ found-step o s ms st.updated j
            ∙ ap (λ ms. found ms (find j st.updated) j) (sym m),
        i ∙ ap (λ x. st.inserts ++ numbered st.next x) (sym n),
      )

  pub merge_loop-Replayed :
      (fails : SectionCall → Bool) (append_only embed : Bool)
      (existing seen incoming : List (Section V)) (st st' : Merge V)
      → Counts existing st.consumed seen
      → merge_loop fails append_only embed existing incoming st ≡ ok st'
      → Replayed embed existing seen incoming st st'
  unfolding merge_loop
  merge_loop-Replayed fails append_only embed existing seen [] st st' h e =
      subst (Replayed embed existing seen [] st) (ok_inj e) (nil-Replayed embed existing seen st)
  merge_loop-Replayed fails append_only embed existing seen (s ∷ incoming) st st' h e =
      let met = Counts-target existing st.consumed seen s h in
      elim (Option-cases (
        at_index (count_or_zero (find (heading_key s.heading) st.consumed))
          (group (heading_key s.heading) existing))) [
            | inl n ↦
                let none_left = sym met ∙ n in
                appended-Replayed embed existing seen s incoming st st' none_left (
                  merge_loop-Replayed fails append_only embed existing (s ∷ seen) incoming
                    (appended s st) st' (Counts-appended existing st.consumed seen s h none_left)
                    (rw (n, merge_loop) at e))
            | inr (o, n) ↦ elim (Bool-cases append_only) [
              | inl a ↦ let k = rw (n, a, merge_loop) at e in cc
              | inr a ↦ elim (Bool-cases (fails updating)) [
                | inl f ↦ let k = rw (n, a, f, merge_loop) at e in cc
                | inr f ↦
                    let hit = sym met ∙ n in
                    replaced-Replayed embed existing seen s o incoming st st' hit (
                      merge_loop-Replayed fails append_only embed existing (s ∷ seen) incoming
                        (replaced embed s o st) st'
                        (Counts-replaced existing st.consumed seen s o h hit)
                        (rw (n, a, f, merge_loop) at e))
              ]
            ]
          ]
