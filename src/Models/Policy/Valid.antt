-- ===== src/Models/Policy/Valid.antt =====
-- What the validation of an effective policy accepts.
use memory_system.Prelude.{
  ℕ, ℤ, pos, negsuc, ◌≡◌, ◌↔◌, inl, inr, refl, sym, Text, text_eq, eq_iff, Bool, true, false,
  Option, none, some, List, [], ◌∷◌, Memᴰ, mem-cons, Bool-cases, arith, not, ◌&&◌, if◌then◌else◌,
}
use memory_system.Models.Policy.{
  EffectivePolicy, PolicyError, validate_effective, is_negative, one_of_texts, valid_write_modes,
  valid_slug_formats, valid_subcategory_rules, write_mode_replace,
}

abbrev NonNegative : ℤ → Type 0
NonNegative x = (n : ℕ) × (x ≡ pos n)

-- The policy names a mode, a format and a rule that exist, expires after no negative number of days,
-- is searched by default only if it is embedded, and guards against duplicates only if a store replaces.
abbrev pub ValidPolicy : EffectivePolicy → Type 0
ValidPolicy eff =
    Memᴰ eff.write_mode valid_write_modes
    × Memᴰ eff.slug_format valid_slug_formats
    × Memᴰ eff.subcategory valid_subcategory_rules
    × NonNegative eff.expiration_age_days
    × (eff.default_search ≡ true → eff.embed ≡ true)
    × (eff.duplicate_guard ≡ true → eff.write_mode ≡ write_mode_replace)

one_of_texts_iff : (xs : List Text) (t : Text) → (one_of_texts xs t ≡ true) ↔ Memᴰ t xs
unfolding one_of_texts
one_of_texts_iff [] t = (λ e. cc, λ i. elim i [ ])
one_of_texts_iff (x ∷ xs) t = (
  λ e. elim (Bool-cases (text_eq x t)) [
    | inl k ↦ Memᴰ.head (sym ((eq_iff x t).0 k))
    | inr k ↦ Memᴰ.tail ((one_of_texts_iff xs t).0 (ground arith))
  ],
  λ i. elim (mem-cons i) [
    | inl p ↦ let k = (eq_iff x t).1 (sym p) in ground (arith, k)
    | inr p ↦ let k = (one_of_texts_iff xs t).1 p in ground (arith, k)
  ],
)

is_negative_iff : (x : ℤ) → (is_negative x ≡ false) ↔ NonNegative x
unfolding is_negative
is_negative_iff (pos n) = (λ e. (n, refl), λ h. refl)
is_negative_iff (negsuc n) = (λ e. cc, λ h. cc)

-- one guard of a ladder of early returns
guard_iff :
    (b : Bool) (e : PolicyError) (rest : Option PolicyError)
    → ((if b then some e else rest) ≡ none) ↔ ((b ≡ false) × (rest ≡ none))
guard_iff true e rest = (λ h. cc, λ h. cc)
guard_iff false e rest = (λ h. (refl, h), λ h. h.1)

not-one_of : (xs : List Text) (t : Text) → (not (one_of_texts xs t) ≡ false) ↔ Memᴰ t xs
not-one_of xs t = ground (arith, one_of_texts_iff xs t)

and-not : (a b : Bool) → ((a && not b) ≡ false) ↔ (a ≡ true → b ≡ true)
and-not true true = (λ h k. refl, λ h. refl)
and-not true false = (λ h k. cc, λ h. sym (h refl))
and-not false b = (λ h k. cc, λ h. refl)

and-not-eq : (a : Bool) (x y : Text) → ((a && not (text_eq x y)) ≡ false) ↔ (a ≡ true → x ≡ y)
and-not-eq a x y = (
  λ h k. (eq_iff x y).0 ((and-not a (text_eq x y)).0 h k),
  λ h. (and-not a (text_eq x y)).1 (λ k. (eq_iff x y).1 (h k)),
)

-- An effective policy passes the validation exactly when it is valid.
pub validate_effective_iff :
    (t : Text) (eff : EffectivePolicy) → (validate_effective t eff ≡ none) ↔ ValidPolicy eff
unfolding validate_effective
validate_effective_iff t eff = (
  λ h.
      let h1 = (guard_iff (not (one_of_texts valid_write_modes eff.write_mode)) _ _).0 h in
      let h2 = (guard_iff (not (one_of_texts valid_slug_formats eff.slug_format)) _ _).0 h1.1 in
      let h3 =
        (guard_iff (not (one_of_texts valid_subcategory_rules eff.subcategory)) _ _).0 h2.1 in
      let h4 = (guard_iff (is_negative eff.expiration_age_days) _ _).0 h3.1 in
      let h5 = (guard_iff (eff.default_search && not eff.embed) _ _).0 h4.1 in
      let h6 =
        (guard_iff (eff.duplicate_guard && not (text_eq eff.write_mode write_mode_replace)) _ _).0
          h5.1 in
      (
        (not-one_of valid_write_modes eff.write_mode).0 h1.0,
        (not-one_of valid_slug_formats eff.slug_format).0 h2.0,
        (not-one_of valid_subcategory_rules eff.subcategory).0 h3.0,
        (is_negative_iff eff.expiration_age_days).0 h4.0,
        (and-not eff.default_search eff.embed).0 h5.0,
        (and-not-eq eff.duplicate_guard eff.write_mode write_mode_replace).0 h6.0,
      ),
  λ v.
      rw
        (
          (not-one_of valid_write_modes eff.write_mode).1 v.0,
          (not-one_of valid_slug_formats eff.slug_format).1 v.1,
          (not-one_of valid_subcategory_rules eff.subcategory).1 v.2,
          (is_negative_iff eff.expiration_age_days).1 v.3,
          (and-not eff.default_search eff.embed).1 v.4,
          (and-not-eq eff.duplicate_guard eff.write_mode write_mode_replace).1 v.5,
        )
        refl,
)
