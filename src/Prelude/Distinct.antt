-- ===== src/Prelude/Distinct.antt =====
-- Sets of texts kept as lists: membership, and lists without a repetition.
use mathlib.Core.Path.{◌≡◌, refl, sym, ◌∙◌}
use mathlib.Core.Logic.{inl, inr}
use mathlib.Core.Bool.{Bool, false, ◌||◌}
use mathlib.Core.List.{List, [], ◌∷◌, ◌++◌}
use native.Mathlib.Omega.{arith}
use memory_system.Prelude.Tests.{Bool-cases}
use memory_system.Prelude.Lists.{All}
use memory_system.Prelude.Texts.{Text, text_eq, eq_iff}

unfoldable pub is_seen : Text → List Text → Bool
unfolding text_eq
is_seen id [] = false
is_seen id (x ∷ out) = text_eq x id || is_seen id out

abbrev pub NoRepeat : List Text → Type 0
NoRepeat [] = Unit
NoRepeat (x ∷ xs) = (is_seen x xs ≡ false) × NoRepeat xs

pub text_eq-sym : (a b : Text) → text_eq a b ≡ text_eq b a
text_eq-sym a b = elim (Bool-cases (text_eq a b)) [
  | inl e ↦ e ∙ sym ((eq_iff b a).1 (sym ((eq_iff a b).0 e)))
  | inr e ↦ elim (Bool-cases (text_eq b a)) [
    | inl f ↦ absurd (cc ((eq_iff a b).1 (sym ((eq_iff b a).0 f))))
    | inr f ↦ e ∙ sym f
  ]
]

pub is_seen-append :
    (x id : Text) (out : List Text) → is_seen x (out ++ (id ∷ [])) ≡ (is_seen x out || text_eq id x)
unfolding is_seen
is_seen-append x id [] = ground arith
is_seen-append x id (y ∷ out) = ground (arith, is_seen-append x id out)

pub append-NoRepeat :
    (id : Text) (out : List Text)
    → is_seen id out ≡ false
    → NoRepeat out
    → NoRepeat (out ++ (id ∷ []))
unfolding is_seen
append-NoRepeat id [] e h = (refl, tt)
append-NoRepeat id (x ∷ out) e h =
    let swap = text_eq-sym x id in
    let unseen : (text_eq x id ≡ false) × (is_seen id out ≡ false) = ground arith in
    (is_seen-append x id out ∙ (rw (h.0, sym swap) unseen.0), append-NoRepeat id out unseen.1 h.1)

pub append-All :
    (P : Text → Type 0) (id : Text) (out : List Text) → P id → All P out → All P (out ++ (id ∷ []))
append-All P id [] p h = (p, tt)
append-All P id (x ∷ out) p h = (h.0, append-All P id out p h.1)
