-- ===== src/Models/Slug/Kebab.antt =====
-- The kebab format, told by the pieces between the dashes.
use memory_system.Prelude.{
  ℕ, ◌≤◌, ◌≡◌, ◌≢◌, ◌↔◌, ◌⊎◌, refl, ◌∙◌, inl, inr, sym, subst, Text, Bool, true, false, List, [],
  ◌∷◌, All, arith, ◌==◌, split, Bool-cases, split-ne, List-cases,
}
use memory_system.Models.Slug.{is_kebab_byte, kebab_from, kebab_slug}

abbrev pub KebabByte : ℕ → Type 0
KebabByte b = ((b'a' ≤ b) × (b ≤ b'z')) ⊎ ((b'0' ≤ b) × (b ≤ b'9'))

-- A piece: one lower-case letter or digit at least, and nothing else.
abbrev pub Piece : Text → Type 0
Piece t = (t ≢ []) × All KebabByte t

is_kebab_byte_iff : (b : ℕ) → (is_kebab_byte b ≡ true) ↔ KebabByte b
unfolding is_kebab_byte
is_kebab_byte_iff b = ground arith

-- The pieces of what is left, where the first may be empty if its group has begun.
abbrev Rest : Bool → List Text → Type 0
Rest true [] = ⊥
Rest true (x ∷ xs) = All KebabByte x × All Piece xs
Rest false xs = All Piece xs

step-Rest :
    (begun : Bool) (b : ℕ) (t x : Text) (xs : List Text)
    → (b == b'-') ≡ false
    → ((kebab_from true t ≡ true) ↔ Rest true (x ∷ xs))
    → (kebab_from begun (b ∷ t) ≡ true) ↔ Rest begun ((b ∷ x) ∷ xs)
unfolding kebab_from
step-Rest true b t x xs e h = ground (arith, is_kebab_byte_iff b)
step-Rest false b t x xs e h = ground (arith, is_kebab_byte_iff b)

dash-Rest :
    (begun : Bool) (b : ℕ) (t : Text) (xs : List Text)
    → (b == b'-') ≡ true
    → ((kebab_from false t ≡ true) ↔ All Piece xs)
    → (kebab_from begun (b ∷ t) ≡ true) ↔ Rest begun ([] ∷ xs)
unfolding kebab_from
dash-Rest true b t xs e h = ground (arith, is_kebab_byte_iff b)
dash-Rest false b t xs e h =
    let no : is_kebab_byte b ≡ false = ground (arith, is_kebab_byte_iff b) in
    let stop : kebab_from false (b ∷ t) ≡ false = rw (no, e) refl in
    (λ k. absurd (let clash : true ≡ false = sym k ∙ stop in cc), λ k. absurd (k.0.0 refl))

split-dash : (b : ℕ) (t : Text) → (b == b'-') ≡ true → split b'-' (b ∷ t) ≡ [] ∷ split b'-' t
unfolding split
split-dash b t e = rw e refl

split-byte :
    (b : ℕ) (t x : Text) (xs : List Text)
    → (b == b'-') ≡ false
    → split b'-' t ≡ x ∷ xs
    → split b'-' (b ∷ t) ≡ (b ∷ x) ∷ xs
unfolding split
split-byte b t x xs e n = rw (e, n) refl

Rest-iff : (begun : Bool) (t : Text) → (kebab_from begun t ≡ true) ↔ Rest begun (split b'-' t)
unfolding split
Rest-iff true [] = (λ e. (tt, tt), λ h. unfold kebab_from in refl)
Rest-iff false [] = (λ e. unfold kebab_from in cc, λ h. absurd (h.0.0 refl))
Rest-iff begun (b ∷ t) = elim (Bool-cases (b == b'-')) [
  | inl e ↦
      subst (λ p. (kebab_from begun (b ∷ t) ≡ true) ↔ Rest begun p) (sym (split-dash b t e))
        (dash-Rest begun b t (split b'-' t) e (Rest-iff false t))
  | inr e ↦ elim (List-cases (split b'-' t)) [
    | inl n ↦ absurd (split-ne b'-' t n)
    | inr (x, xs, n) ↦
        subst (λ p. (kebab_from begun (b ∷ t) ≡ true) ↔ Rest begun p)
          (sym (split-byte b t x xs e n))
          (step-Rest begun b t x xs e
            (subst (λ p. (kebab_from true t ≡ true) ↔ Rest true p) n (Rest-iff true t)))
  ]
]

-- A slug passes the kebab format exactly when every piece between its dashes has a byte and all its
-- bytes are lower-case letters and digits.
pub kebab_slug_iff : (t : Text) → (kebab_slug t ≡ true) ↔ All Piece (split b'-' t)
unfolding kebab_slug
kebab_slug_iff t = Rest-iff false t
