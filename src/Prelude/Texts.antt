-- ===== src/Prelude/Texts.antt =====
-- Go strings: a text is the list of its bytes. `text` reads a literal, which is ASCII here.
use Prim.Native.Nat.{ℕ}
use Prim.Native.Char.{code}
use Prim.Native.String.{String}
use mathlib.Core.Path.{◌≡◌, refl}
use mathlib.Core.Logic.{◌↔◌, ◌≢◌}
use mathlib.Core.Bool.{Bool, true, false, ◌&&◌}
use mathlib.Core.List.{List, [], ◌∷◌}
use native.Mathlib.Omega.{arith}
use memory_system.Prelude.Tests.{◌==◌}

abbrev pub Text : Type 0
Text = List ℕ

abbrev pub text : String → Text
text String.[] = []
text (String.◌∷◌ c s) = code c ∷ text s

-- a == b
unfoldable pub text_eq : Text → Text → Bool
text_eq [] [] = true
text_eq [] (d ∷ b) = false
text_eq (c ∷ a) [] = false
text_eq (c ∷ a) (d ∷ b) = c == d && text_eq a b

pub eq_iff : (a b : Text) → (text_eq a b ≡ true) ↔ (a ≡ b)
unfolding text_eq
eq_iff [] [] = ground arith
eq_iff [] (d ∷ b) = ground arith
eq_iff (c ∷ a) [] = ground arith
eq_iff (c ∷ a) (d ∷ b) = ground (arith, eq_iff a b)

pub eq_refl : (a : Text) → text_eq a a ≡ true
eq_refl a = (eq_iff a a).1 refl

pub ne_of_text_eq : (a b : Text) → text_eq a b ≡ false → a ≢ b
ne_of_text_eq a b h e = cc (h, (eq_iff a b).1 e)
