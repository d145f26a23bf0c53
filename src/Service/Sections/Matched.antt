-- ===== src/Service/Sections/Matched.antt =====
-- Which section of the document an incoming one replaces in a merge, told by its place among the incoming
-- ones of its heading, and what the replacements make of the sections and of the rows.
use memory_system.Prelude.{
  ℕ, zero, suc, ◌≡◌, inl, inr, refl, Text, text_eq, Bool, Option, none, some, List, [], ◌∷◌,
  Bool-cases, if◌then◌else◌, count_where,
}
use memory_system.Service.Sections.{Section, heading_key, group, at_index}

module _ {V : Type 0} where
  abbrev pub has_heading : Text → Section V → Bool
  has_heading k e = text_eq (heading_key e.heading) k

  -- the n-th section under a heading, from 0
  unfoldable pub nth_under : Text → ℕ → List (Section V) → Option (Section V)
  unfolding text_eq
  nth_under k n [] = none
  nth_under k n (e ∷ es) =
      if has_heading k e
      then (elim n [ zero ↦ some e | suc m ↦ nth_under k m es ])
      else nth_under k n es

  -- Where `seen` came before it, the incoming section is the next of its heading: it belongs to the section
  -- of the document that is the next of that heading.
  unfoldable pub target : List (Section V) → List (Section V) → Section V → Option (Section V)
  unfolding count_where nth_under
  target existing seen s =
      nth_under (heading_key s.heading) (count_where (has_heading (heading_key s.heading)) seen)
        existing

  -- the sections of the document that are replaced, and by what
  unfoldable pub matches :
      List (Section V) → List (Section V) → List (Section V) → List (Section V × Section V)
  unfolding target
  matches existing seen [] = []
  matches existing seen (s ∷ incoming) =
      let rest = matches existing (s ∷ seen) incoming in
      elim (target existing seen s) [ none ↦ rest | some o ↦ (o, s) ∷ rest ]

  -- the incoming sections that replace none
  unfoldable pub unmatched :
      List (Section V) → List (Section V) → List (Section V) → List (Section V)
  unfolding target
  unmatched existing seen [] = []
  unmatched existing seen (s ∷ incoming) =
      let rest = unmatched existing (s ∷ seen) incoming in
      elim (target existing seen s) [ none ↦ s ∷ rest | some o ↦ rest ]

  -- the last replacement under an id
  unfoldable pub last_for : Text → List (Section V × Section V) → Option (Section V × Section V)
  unfolding text_eq
  last_for i [] = none
  last_for i (m ∷ ms) = elim (last_for i ms) [
    | some x ↦ some x
    | none ↦ if text_eq i m.0.id then some m else none
  ]

  abbrev pub revised : Section V × Section V → Section V
  revised m = record m.0 { content = m.1.content; embedding = m.1.embedding }

  -- a section of the document after the replacements
  abbrev pub section_after : List (Section V × Section V) → Section V → Section V
  section_after ms e = elim (last_for e.id ms) [ none ↦ e | some m ↦ revised m ]

  -- a row of the table after them
  abbrev pub row_after : Bool → List (Section V × Section V) → Section V → Section V
  row_after embed ms r = elim (last_for r.id ms) [
    | none ↦ r
    | some m ↦ record r { content = m.1.content; embedding = if embed then m.1.embedding else none }
  ]

  -- sections numbered from an ordinal on
  unfoldable pub numbered : ℕ → List (Section V) → List (Section V)
  numbered n [] = []
  numbered n (s ∷ ss) = record s { ordinal = n } ∷ numbered (suc n) ss

  -- sections under given ids and a document
  unfoldable pub filed : Text → List Text → List (Section V) → List (Section V)
  filed doc [] ss = []
  filed doc (i ∷ is) [] = []
  filed doc (i ∷ is) (s ∷ ss) = record s { id = i; document_id = doc } ∷ filed doc is ss

  pub at_index-group :
      (k : Text) (n : ℕ) (es : List (Section V)) → at_index n (group k es) ≡ nth_under k n es
  unfolding nth_under group at_index
  at_index-group k n [] = refl
  at_index-group k zero (e ∷ es) = elim (Bool-cases (has_heading k e)) [
    | inr h ↦ rw h (at_index-group k zero es)
    | inl h ↦ rw h refl
  ]
  at_index-group k (suc m) (e ∷ es) = elim (Bool-cases (has_heading k e)) [
    | inr h ↦ rw h (at_index-group k (suc m) es)
    | inl h ↦ rw h (at_index-group k m es)
  ]

  -- Behind the last section of a heading there is none.
  pub nth_under-later :
      (k : Text) (n : ℕ) (es : List (Section V))
      → nth_under k n es ≡ none
      → nth_under k (suc n) es ≡ none
  unfolding nth_under
  nth_under-later k n [] e = refl
  nth_under-later k zero (x ∷ es) e = elim (Bool-cases (has_heading k x)) [
    | inr h ↦ rw h (nth_under-later k zero es (rw (h, nth_under) at e))
    | inl h ↦ absurd (let clash = rw (h, nth_under) at e in cc)
  ]
  nth_under-later k (suc m) (x ∷ es) e = elim (Bool-cases (has_heading k x)) [
    | inr h ↦ rw h (nth_under-later k (suc m) es (rw (h, nth_under) at e))
    | inl h ↦ rw h (nth_under-later k m es (rw (h, nth_under) at e))
  ]
