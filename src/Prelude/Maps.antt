-- ===== src/Prelude/Maps.antt =====
-- Go maps with text keys, as association lists: the first entry of a key is the one that counts.
use mathlib.Core.Path.{◌≡◌, refl, subst}
use mathlib.Core.Logic.{inl, inr}
use mathlib.Core.Bool.{false}
use mathlib.Core.Option.{Option, none, some}
use mathlib.Core.List.{List, [], ◌∷◌}
use native.Mathlib.Omega.{arith}
use memory_system.Prelude.Tests.{if◌then◌else◌, Bool-cases}
use memory_system.Prelude.Lists.{All}
use memory_system.Prelude.Texts.{Text, text_eq, eq_iff, eq_refl}

unfoldable pub find {ℓ} : {V : Type ℓ} → Text → List (Text × V) → Option V
find k [] = none
find k ((j, v) ∷ m) = if text_eq j k then some v else find k m

-- m[k] = v
unfoldable pub set {ℓ} : {V : Type ℓ} → Text → V → List (Text × V) → List (Text × V)
set k v [] = (k, v) ∷ []
set k v ((j, w) ∷ m) = let rest = set k v m in if text_eq j k then (j, v) ∷ m else (j, w) ∷ rest

pub find-set {ℓ} :
    {V : Type ℓ} (k : Text) (v : V) (m : List (Text × V)) → find k (set k v m) ≡ some v
unfolding find set
find-set k v [] = rw (eq_refl k) refl
find-set k v ((j, w) ∷ m) = elim (Bool-cases (text_eq j k)) [
  | inl e ↦ rw (e, e) refl
  | inr e ↦ rw (e, e) (find-set k v m)
]

pub find-set_other {ℓ} :
    {V : Type ℓ} (i k : Text) (v : V) (m : List (Text × V))
    → text_eq k i ≡ false
    → find i (set k v m) ≡ find i m
unfolding find set
find-set_other i k v [] n = rw n refl
find-set_other i k v ((j, w) ∷ m) n = elim (Bool-cases (text_eq j k)) [
  | inl e ↦ let same : j ≡ k = (eq_iff j k).0 e in rw (same, eq_refl k, n) refl
  | inr e ↦ rw e (elim (Bool-cases (text_eq j i)) [
    | inl f ↦ rw f refl
    | inr f ↦ rw f (find-set_other i k v m n)
  ])
]

-- What holds of every entry holds of every entry after a set of a value of which it holds.
pub All-set {ℓ κ} :
    {V : Type ℓ} (P : V → Type κ) (k : Text) (v : V) (m : List (Text × V))
    → P v
    → All (λ e. P e.1) m
    → All (λ e. P e.1) (set k v m)
unfolding set
All-set P k v [] p h = (p, tt)
All-set P k v ((j, w) ∷ m) p h = elim (Bool-cases (text_eq j k)) [
  | inl e ↦ rw e (p, h.1)
  | inr e ↦ rw e (h.0, All-set P k v m p h.1)
]

pub All-find {ℓ κ} :
    {V : Type ℓ} (P : V → Type κ) (k : Text) (m : List (Text × V)) (v : V)
    → All (λ e. P e.1) m
    → find k m ≡ some v
    → P v
unfolding find
All-find P k [] v h e = cc
All-find P k ((j, w) ∷ m) v h e = elim (Bool-cases (text_eq j k)) [
  | inl t ↦ let q : w ≡ v = ground arith in subst P q h.0
  | inr t ↦ All-find P k m v h.1 (ground arith)
]
