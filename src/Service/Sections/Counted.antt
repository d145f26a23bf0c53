-- ===== src/Service/Sections/Counted.antt =====
-- What the counters of a merge, one for each heading, stand for.
use memory_system.Prelude.{
  ℕ, suc, ◌≡◌, ◌⊎◌, inl, inr, refl, sym, ap, ◌∙◌, subst, Text, eq_iff, true, false, none, some,
  List, [], ◌∷◌, find, set, find-set, find-set_other, Bool-cases, count_where,
}
use memory_system.Service.Sections.{Section, heading_key, count_or_zero, group, at_index}
use memory_system.Service.Sections.Matched.{
  has_heading, nth_under, target, at_index-group, nth_under-later,
}

module _ {V : Type 0} where
  -- The counter of a heading is the number of sections seen of it, or both are past the document's.
  abbrev pub Counts : List (Section V) → List (Text × ℕ) → List (Section V) → Type 0
  Counts existing consumed seen =
      (k : Text)
      → (count_or_zero (find k consumed) ≡ count_where (has_heading k) seen)
        ⊎ ((nth_under k (count_or_zero (find k consumed)) existing ≡ none)
            × (nth_under k (count_where (has_heading k) seen) existing ≡ none))

  pub nil-Counts : (existing : List (Section V)) → Counts existing [] []
  unfolding find count_where
  nil-Counts existing k = inl refl

  count-hit :
      (k : Text) (s : Section V) (seen : List (Section V))
      → has_heading k s ≡ true
      → count_where (has_heading k) (s ∷ seen) ≡ suc (count_where (has_heading k) seen)
  unfolding count_where
  count-hit k s seen h = rw h refl

  count-miss :
      (k : Text) (s : Section V) (seen : List (Section V))
      → has_heading k s ≡ false
      → count_where (has_heading k) (s ∷ seen) ≡ count_where (has_heading k) seen
  unfolding count_where
  count-miss k s seen h = rw h refl

  module _ (existing : List (Section V)) where
    pub Counts-target :
        (consumed : List (Text × ℕ)) (seen : List (Section V)) (s : Section V)
        → Counts existing consumed seen
        → at_index
            (count_or_zero (find (heading_key s.heading) consumed))
            (group (heading_key s.heading) existing)
          ≡ target existing seen s
    unfolding target
    Counts-target consumed seen s h =
        let k = heading_key s.heading in
        at_index-group k (count_or_zero (find k consumed)) existing
        ∙ (elim (h k) [ inl e ↦ ap (λ n. nth_under k n existing) e | inr (a, b) ↦ a ∙ sym b ])

    pub Counts-appended :
        (consumed : List (Text × ℕ)) (seen : List (Section V)) (s : Section V)
        → Counts existing consumed seen
        → target existing seen s ≡ none
        → Counts existing consumed (s ∷ seen)
    unfolding target
    Counts-appended consumed seen s h e k = elim (Bool-cases (has_heading k s)) [
      | inr n ↦
          subst
            (λ c.
              (count_or_zero (find k consumed) ≡ c)
              ⊎ ((nth_under k (count_or_zero (find k consumed)) existing ≡ none)
                  × (nth_under k c existing ≡ none)))
            (sym (count-miss k s seen n)) (h k)
      | inl t ↦
          let q : heading_key s.heading ≡ k = (eq_iff (heading_key s.heading) k).0 t in
          let here : nth_under k (count_where (has_heading k) seen) existing ≡ none =
            subst (λ j. nth_under j (count_where (has_heading j) seen) existing ≡ none) q e in
          let behind : nth_under k (count_where (has_heading k) (s ∷ seen)) existing ≡ none =
            ap (λ n. nth_under k n existing) (count-hit k s seen t)
            ∙ nth_under-later k (count_where (has_heading k) seen) existing here in
          inr (
            elim (h k) [ inl c ↦ ap (λ n. nth_under k n existing) c ∙ here | inr (a, b) ↦ a ],
            behind,
          )
    ]

    pub Counts-replaced :
        (consumed : List (Text × ℕ)) (seen : List (Section V)) (s o : Section V)
        → Counts existing consumed seen
        → target existing seen s ≡ some o
        → Counts existing
            (set
              (heading_key s.heading)
              (suc (count_or_zero (find (heading_key s.heading) consumed)))
              consumed)
            (s ∷ seen)
    unfolding target
    Counts-replaced consumed seen s o h e k = elim (Bool-cases (has_heading k s)) [
      | inr n ↦
          subst
            (λ f.
              (count_or_zero f ≡ count_where (has_heading k) (s ∷ seen))
              ⊎ ((nth_under k (count_or_zero f) existing ≡ none)
                  × (nth_under k (count_where (has_heading k) (s ∷ seen)) existing ≡ none)))
            (sym (find-set_other k (heading_key s.heading) _ consumed n))
            (subst
              (λ c.
                (count_or_zero (find k consumed) ≡ c)
                ⊎ ((nth_under k (count_or_zero (find k consumed)) existing ≡ none)
                    × (nth_under k c existing ≡ none)))
              (sym (count-miss k s seen n)) (h k))
      | inl t ↦
          let q : heading_key s.heading ≡ k = (eq_iff (heading_key s.heading) k).0 t in
          let here : nth_under k (count_where (has_heading k) seen) existing ≡ some o =
            subst (λ j. nth_under j (count_where (has_heading j) seen) existing ≡ some o) q e in
          let next : Text → ℕ = λ j. suc (count_or_zero (find j consumed)) in
          let stored : find k (set (heading_key s.heading) (next (heading_key s.heading)) consumed)
              ≡ some (next k) =
            subst
              (λ j.
                find j (set (heading_key s.heading) (next (heading_key s.heading)) consumed)
                ≡ some (next j))
              q (find-set (heading_key s.heading) (next (heading_key s.heading)) consumed) in
          elim (h k) [
            | inl c ↦ inl (ap count_or_zero stored ∙ ap suc c ∙ sym (count-hit k s seen t))
            | inr (a, b) ↦ absurd (let clash : none ≡ some o = sym b ∙ here in cc)
          ]
    ]
