-- ===== src/Prelude/Split.antt =====
-- strings.Split and strings.Join at a one-byte separator, and strings.Trim of one byte.
use Prim.Native.Nat.{ℕ}
use mathlib.Core.Path.{◌≡◌, refl, ap, ap₂, sym, ◌∙◌}
use mathlib.Core.Logic.{◌≢◌, inl, inr}
use mathlib.Core.List.{List, [], ◌∷◌, ◌++◌}
use native.Mathlib.Omega.{arith}
use memory_system.Prelude.Tests.{◌==◌, if◌then◌else◌, ==_iff, Bool-cases}
use memory_system.Prelude.Lists.{All}
use memory_system.Prelude.Texts.{Text}

-- The byte does not occur in the text.
abbrev pub Lacks : ℕ → Text → Type 0
Lacks c t = All (λ b. b ≢ c) t

abbrev pub push_head : ℕ → List Text → List Text
push_head b [] = (b ∷ []) ∷ []
push_head b (x ∷ xs) = (b ∷ x) ∷ xs

unfoldable pub split : ℕ → Text → List Text
split c [] = [] ∷ []
split c (b ∷ t) = let rest = split c t in if b == c then [] ∷ rest else push_head b rest

unfoldable pub join : ℕ → List Text → Text
join c [] = []
join c (x ∷ []) = x
join c (x ∷ y ∷ ys) = x ++ (c ∷ join c (y ∷ ys))

-- what stands before the first separator, and what follows it
pub split_first : (c : ℕ) (x t : Text) → Lacks c x → split c (x ++ (c ∷ t)) ≡ x ∷ split c t
unfolding split
split_first c [] t h = rw ((==_iff c c).1 refl)
split_first c (b ∷ x) t h = ground (arith, split_first c x t h.1)

pub split_whole : (c : ℕ) (x : Text) → Lacks c x → split c x ≡ x ∷ []
unfolding split
split_whole c [] h = refl
split_whole c (b ∷ x) h = ground (arith, split_whole c x h.1)

-- Splitting undoes joining, for pieces without the separator.
pub split-join :
    (c : ℕ) (x : Text) (xs : List Text)
    → Lacks c x
    → All (Lacks c) xs
    → split c (join c (x ∷ xs)) ≡ x ∷ xs
unfolding join
split-join c x [] hx h = split_whole c x hx
split-join c x (y ∷ ys) hx h =
    split_first c x (join c (y ∷ ys)) hx ∙ ap (◌∷◌ x) (split-join c y ys h.0 h.1)

push_head-ne : (b : ℕ) (c : ℕ) (xs : List Text) → xs ≢ [] → join c (push_head b xs) ≡ b ∷ join c xs
unfolding join
push_head-ne b c [] h = absurd (h refl)
push_head-ne b c (x ∷ []) h = refl
push_head-ne b c (x ∷ y ∷ ys) h = refl

pub split-ne : (c : ℕ) (t : Text) → split c t ≢ []
unfolding split
split-ne c [] e = cc
split-ne c (b ∷ t) e = ground (arith, split-ne c t)

join_cons-ne :
    (c : ℕ) (x : Text) (xs : List Text) → xs ≢ [] → join c (x ∷ xs) ≡ x ++ (c ∷ join c xs)
unfolding join
join_cons-ne c x [] h = absurd (h refl)
join_cons-ne c x (y ∷ ys) h = refl

-- Joining undoes splitting.
pub join-split : (c : ℕ) (t : Text) → join c (split c t) ≡ t
unfolding split join
join-split c [] = refl
join-split c (b ∷ t) = elim (Bool-cases (b == c)) [
  | inl e ↦ rw e (
      join_cons-ne c [] (split c t) (split-ne c t)
      ∙ ap₂ ◌∷◌ (sym ((==_iff b c).0 e)) (join-split c t))
  | inr e ↦ rw e (push_head-ne b c (split c t) (split-ne c t) ∙ ap (◌∷◌ b) (join-split c t))
]

unfoldable pub trim_left : ℕ → Text → Text
trim_left c [] = []
trim_left c (b ∷ t) = let rest = trim_left c t in if b == c then rest else b ∷ t

abbrev drop_last : ℕ → ℕ → Text → Text
drop_last c b [] = if b == c then [] else b ∷ []
drop_last c b (d ∷ t) = b ∷ d ∷ t

unfoldable pub trim_right : ℕ → Text → Text
trim_right c [] = []
trim_right c (b ∷ t) = drop_last c b (trim_right c t)

unfoldable pub trim : ℕ → Text → Text
unfolding trim_left trim_right
trim c t = trim_right c (trim_left c t)

trim_right_whole : (c : ℕ) (x : Text) → Lacks c x → trim_right c x ≡ x
unfolding trim_right
trim_right_whole c [] h = refl
trim_right_whole c (b ∷ []) h = ground arith
trim_right_whole c (b ∷ d ∷ x) h = rw (trim_right_whole c (d ∷ x) h.1)

trim_right_append :
    (c : ℕ) (a : Text) (b : ℕ) (x : Text)
    → Lacks c (b ∷ x)
    → trim_right c (a ++ (b ∷ x)) ≡ a ++ (b ∷ x)
unfolding trim_right
trim_right_append c [] b x h = trim_right_whole c (b ∷ x) h
trim_right_append c (d ∷ []) b x h = rw (trim_right_whole c (b ∷ x) h)
trim_right_append c (d ∷ e ∷ a) b x h = rw (trim_right_append c (e ∷ a) b x h)

-- A text that neither begins nor ends with the byte is left alone.
pub trim_inner :
    (c b : ℕ) (a : Text) (d : ℕ) (x : Text)
    → b ≢ c
    → Lacks c (d ∷ x)
    → trim c (b ∷ (a ++ (d ∷ x))) ≡ b ∷ (a ++ (d ∷ x))
unfolding trim trim_left
trim_inner c b a d x hb hx = elim (Bool-cases (b == c)) [
  | inl e ↦ absurd (hb ((==_iff b c).0 e))
  | inr e ↦ rw (e, trim_left) (trim_right_append c (b ∷ a) d x hx)
]
