-- ===== src/Prelude/Rows.antt =====
-- A table is the list of its rows; a statement's condition is a Boolean test of a row.
use Prim.Native.Nat.{ℕ, suc, ◌≤◌, ◌<◌}
use mathlib.Core.Path.{◌≡◌, refl, sym, ap, ◌∙◌, subst}
use mathlib.Core.Logic.{inl, inr}
use mathlib.Core.Bool.{Bool, true, false, not}
use mathlib.Core.Option.{Option, none, some}
use mathlib.Core.List.{List, [], ◌∷◌}
use native.Mathlib.Omega.{arith}
use memory_system.Prelude.Tests.{if◌then◌else◌, Bool-cases, some_inj}
use memory_system.Prelude.Lists.{All}

module _ {R : Type 0} where
  -- Find
  unfoldable pub rows_where : (R → Bool) → List R → List R
  rows_where p [] = []
  rows_where p (r ∷ rows) = let rest = rows_where p rows in if p r then r ∷ rest else rest

  -- Count, or the rows that a statement affects
  unfoldable pub count_where : (R → Bool) → List R → ℕ
  count_where p [] = 0
  count_where p (r ∷ rows) = let rest = count_where p rows in if p r then suc rest else rest

  -- First
  unfoldable pub first_where : (R → Bool) → List R → Option R
  first_where p [] = none
  first_where p (r ∷ rows) = if p r then some r else first_where p rows

  unfoldable pub delete_where : (R → Bool) → List R → List R
  delete_where p [] = []
  delete_where p (r ∷ rows) = let rest = delete_where p rows in if p r then rest else r ∷ rest

  unfoldable pub update_where : (R → Bool) → (R → R) → List R → List R
  update_where p f [] = []
  update_where p f (r ∷ rows) =
      let rest = update_where p f rows in if p r then f r ∷ rest else r ∷ rest

  pub count-delete : (p : R → Bool) (rows : List R) → count_where p (delete_where p rows) ≡ 0
  unfolding count_where delete_where
  count-delete p [] = refl
  count-delete p (r ∷ rows) = elim (Bool-cases (p r)) [
    | inl e ↦ rw e (count-delete p rows)
    | inr e ↦ rw (e, e) (count-delete p rows)
  ]

  -- A deletion takes away no more than what it affects.
  pub count-delete_le :
      (q p : R → Bool) (rows : List R) → count_where q (delete_where p rows) ≤ count_where q rows
  unfolding count_where delete_where
  count-delete_le q p [] = omega arith
  count-delete_le q p (r ∷ rows) = elim (Bool-cases (p r)) [
    | inl e ↦ elim (Bool-cases (q r)) [
      | inl f ↦ rw (e, f) (omega (arith, count-delete_le q p rows))
      | inr f ↦ rw (e, f) (count-delete_le q p rows)
    ]
    | inr e ↦ elim (Bool-cases (q r)) [
      | inl f ↦ rw (e, f) (omega (arith, count-delete_le q p rows))
      | inr f ↦ rw (e, f) (count-delete_le q p rows)
    ]
  ]

  pub delete-none :
      (p : R → Bool) (rows : List R) → count_where p rows ≡ 0 → delete_where p rows ≡ rows
  unfolding count_where delete_where
  delete-none p [] h = refl
  delete-none p (r ∷ rows) h = elim (Bool-cases (p r)) [
    | inl e ↦ let k = rw e at h in absurd (omega arith)
    | inr e ↦ let k = rw e at h in rw e (ap (◌∷◌ r) (delete-none p rows k))
  ]

  pub first-where :
      (p : R → Bool) (rows : List R) (r : R) → first_where p rows ≡ some r → p r ≡ true
  unfolding first_where
  first-where p [] r h = cc
  first-where p (x ∷ rows) r h = elim (Bool-cases (p x)) [
    | inl e ↦ let k = rw e at h in let same : x ≡ r = cc in rw (sym same) e
    | inr e ↦ let k = rw e at h in first-where p rows r k
  ]

  pub first-count :
      (p : R → Bool) (rows : List R) (r : R) → first_where p rows ≡ some r → 0 < count_where p rows
  unfolding first_where count_where
  first-count p [] r h = cc
  first-count p (x ∷ rows) r h = elim (Bool-cases (p x)) [
    | inl e ↦ rw e (omega arith)
    | inr e ↦ let k = rw e at h in rw e (first-count p rows r k)
  ]

  pub count-le :
      (p q : R → Bool) (rows : List R)
      → ((r : R) → q r ≡ true → p r ≡ true)
      → count_where q rows ≤ count_where p rows
  unfolding count_where
  count-le p q [] h = omega arith
  count-le p q (r ∷ rows) h = elim (Bool-cases (q r)) [
    | inl e ↦ rw (e, h r e) (omega (arith, count-le p q rows h))
    | inr e ↦ elim (Bool-cases (p r)) [
      | inl f ↦ rw (e, f) (omega (arith, count-le p q rows h))
      | inr f ↦ rw (e, f) (count-le p q rows h)
    ]
  ]

  -- What a deletion does not affect, it leaves.
  pub count-delete_other :
      (q p : R → Bool) (rows : List R)
      → ((r : R) → q r ≡ true → p r ≡ false)
      → count_where q (delete_where p rows) ≡ count_where q rows
  unfolding count_where delete_where
  count-delete_other q p [] h = refl
  count-delete_other q p (r ∷ rows) h = elim (Bool-cases (p r)) [
    | inl e ↦ elim (Bool-cases (q r)) [
      | inl f ↦ absurd (let clash : true ≡ false = sym e ∙ h r f in cc)
      | inr f ↦ rw (e, f) (count-delete_other q p rows h)
    ]
    | inr e ↦ elim (Bool-cases (q r)) [
      | inl f ↦ rw (e, f) (ap suc (count-delete_other q p rows h))
      | inr f ↦ rw (e, f) (count-delete_other q p rows h)
    ]
  ]

  pub count-update_none :
      (p : R → Bool) (f : R → R) (rows : List R)
      → ((r : R) → p (f r) ≡ false)
      → count_where p (update_where p f rows) ≡ 0
  unfolding count_where update_where
  count-update_none p f [] h = refl
  count-update_none p f (r ∷ rows) h = elim (Bool-cases (p r)) [
    | inl e ↦ rw (e, h r) (count-update_none p f rows h)
    | inr e ↦ rw (e, e) (count-update_none p f rows h)
  ]

  pub count-update_le :
      (q p : R → Bool) (f : R → R) (rows : List R)
      → ((r : R) → p r ≡ true → q (f r) ≡ true → q r ≡ true)
      → count_where q (update_where p f rows) ≤ count_where q rows
  unfolding count_where update_where
  count-update_le q p f [] h = omega arith
  count-update_le q p f (r ∷ rows) h =
      let rest = count-update_le q p f rows h in
      elim (Bool-cases (p r)) [
        | inl e ↦ elim (Bool-cases (q (f r))) [
          | inl g ↦ rw (e, g, h r e g) (omega (arith, rest))
          | inr g ↦ elim (Bool-cases (q r)) [
            | inl k ↦ rw (e, g, k) (omega (arith, rest))
            | inr k ↦ rw (e, g, k) rest
          ]
        ]
        | inr e ↦ elim (Bool-cases (q r)) [
          | inl k ↦ rw (e, k) (omega (arith, rest))
          | inr k ↦ rw (e, k) rest
        ]
      ]

  pub rows-none : (p : R → Bool) (rows : List R) → count_where p rows ≡ 0 → rows_where p rows ≡ []
  unfolding count_where rows_where
  rows-none p [] h = refl
  rows-none p (r ∷ rows) h = elim (Bool-cases (p r)) [
    | inl e ↦ let k = rw e at h in absurd (omega arith)
    | inr e ↦ let k = rw e at h in rw e (rows-none p rows k)
  ]

  -- What an update makes fail the test, a query no longer finds.
  pub rows-update :
      (p q : R → Bool) (f : R → R) (rows : List R)
      → ((r : R) → q r ≡ true → p (f r) ≡ false)
      → rows_where p (update_where q f rows) ≡ rows_where (λ r. not (q r)) (rows_where p rows)
  unfolding rows_where update_where
  rows-update p q f [] h = refl
  rows-update p q f (r ∷ rows) h = elim (Bool-cases (q r)) [
    | inl e ↦ elim (Bool-cases (p r)) [
      | inl g ↦ rw (e, g, h r e, e) (rows-update p q f rows h)
      | inr g ↦ rw (e, g, h r e) (rows-update p q f rows h)
    ]
    | inr e ↦ elim (Bool-cases (p r)) [
      | inl g ↦ rw (e, g, e) (ap (◌∷◌ r) (rows-update p q f rows h))
      | inr g ↦ rw (e, g) (rows-update p q f rows h)
    ]
  ]

  pub rows-cons :
      (p : R → Bool) (r : R) (rows : List R)
      → p r ≡ true
      → rows_where p (r ∷ rows) ≡ r ∷ rows_where p rows
  unfolding rows_where
  rows-cons p r rows e = rw e refl

  pub first-All {κ} :
      (P : R → Type κ) (p : R → Bool) (rows : List R) (r : R)
      → All P rows
      → first_where p rows ≡ some r
      → P r
  unfolding first_where
  first-All P p [] r h e = cc
  first-All P p (x ∷ rows) r h e = elim (Bool-cases (p x)) [
    | inl t ↦ let k = rw t at e in subst P (some_inj k) h.0
    | inr t ↦ let k = rw t at e in first-All P p rows r h.1 k
  ]

  pub All-delete {κ} :
      (P : R → Type κ) (p : R → Bool) (rows : List R) → All P rows → All P (delete_where p rows)
  unfolding delete_where
  All-delete P p [] h = h
  All-delete P p (r ∷ rows) h = elim (Bool-cases (p r)) [
    | inl e ↦ rw e (All-delete P p rows h.1)
    | inr e ↦ rw e (h.0, All-delete P p rows h.1)
  ]

  pub All-update {κ} :
      (P : R → Type κ) (p : R → Bool) (f : R → R) (rows : List R)
      → ((r : R) → P r → P (f r))
      → All P rows
      → All P (update_where p f rows)
  unfolding update_where
  All-update P p f [] k h = h
  All-update P p f (r ∷ rows) k h = elim (Bool-cases (p r)) [
    | inl e ↦ rw e (k r h.0, All-update P p f rows k h.1)
    | inr e ↦ rw e (h.0, All-update P p f rows k h.1)
  ]

  pub All-map {κ ι} :
      (P : R → Type κ) (Q : R → Type ι) (rows : List R)
      → ((r : R) → P r → Q r)
      → All P rows
      → All Q rows
  All-map P Q [] k h = tt
  All-map P Q (r ∷ rows) k h = (k r h.0, All-map P Q rows k h.1)
