-- ===== src/Models/Slug/Fold.antt =====
-- The search of containsFold, told without loops.
use mathlib.Core.Path.{ap₂}
use memory_system.Prelude.{
  ℕ, ◌+◌, ◌≤◌, ◌<◌, ◌-◌, ◌&&◌, leb, Bool-cases, ◌≡◌, ◌↔◌, refl, sym, ap, ◌∙◌, Text, true, [], ◌∷◌,
  ◌++◌, map, length, arith, ◌==◌, ==_iff, inl, inr, ◌⊎◌, length-append,
}
use memory_system.Models.Slug.{to_lower, prefix_fold, scan_fold, contains_fold}

-- The same byte, or a capital of the ASCII letters and the small letter at its place in the alphabet.
abbrev pub SameLetter : ℕ → ℕ → Type 0
SameLetter b c =
    (b ≡ c)
    ⊎ ((k : ℕ) × (k < 26) × (((b ≡ b'A' + k) × (c ≡ b'a' + k)) ⊎ ((b ≡ b'a' + k) × (c ≡ b'A' + k))))

-- Two texts of one length, letter by letter the same up to case.
pub data SameFold : Text → Text → Type 0 where
  nil_same : SameFold [] []
  cons_same : {b c : ℕ} {t u : Text} → SameLetter b c → SameFold t u → SameFold (b ∷ t) (c ∷ u)

-- Somewhere in the text stands a piece that is the other text up to case.
abbrev pub ContainsFold : Text → Text → Type 0
ContainsFold s sub =
    (pre : Text) × (mid : Text) × (post : Text) × (s ≡ pre ++ (mid ++ post)) × SameFold mid sub

-- The code folds two letters to one exactly when they are the same up to case.
to_lower-SameLetter : (b c : ℕ) → to_lower b ≡ to_lower c → SameLetter b c
unfolding to_lower
to_lower-SameLetter b c e = elim (Bool-cases (leb b'A' b && leb b b'Z')) [
  | inl x ↦ elim (Bool-cases (leb b'A' c && leb c b'Z')) [
    | inl y ↦ inl (ground arith)
    | inr y ↦ inr (b - b'A', ground arith, inl (ground arith, ground arith))
  ]
  | inr x ↦ elim (Bool-cases (leb b'A' c && leb c b'Z')) [
    | inl y ↦ inr (c - b'A', ground arith, inr (ground arith, ground arith))
    | inr y ↦ inl (ground arith)
  ]
]

SameLetter-to_lower : (b c : ℕ) → SameLetter b c → to_lower b ≡ to_lower c
unfolding to_lower
SameLetter-to_lower b c (inl e) = ap to_lower e
SameLetter-to_lower b c (inr (k, l, inl (e, f))) = ground arith
SameLetter-to_lower b c (inr (k, l, inr (e, f))) = ground arith

lowered-SameFold : (t u : Text) → map to_lower t ≡ map to_lower u → SameFold t u
lowered-SameFold [] [] e = nil_same
lowered-SameFold [] (c ∷ u) e = cc
lowered-SameFold (b ∷ t) [] e = cc
lowered-SameFold (b ∷ t) (c ∷ u) e =
    cons_same (to_lower-SameLetter b c cc) (lowered-SameFold t u cc)

SameFold-lowered : (t u : Text) → SameFold t u → map to_lower t ≡ map to_lower u
SameFold-lowered _ _ nil_same = refl
SameFold-lowered _ _ (cons_same {b} {c} {t} {u} l r) =
    ap₂ ◌∷◌ (SameLetter-to_lower b c l) (SameFold-lowered t u r)

-- The text begins with a piece that folds to what the other text folds to.
abbrev PrefixLowered : Text → Text → Type 0
PrefixLowered t sub =
    (mid : Text) × (post : Text) × (t ≡ mid ++ post) × (map to_lower mid ≡ map to_lower sub)

-- Such a piece stands somewhere in the text.
abbrev ContainsLowered : Text → Text → Type 0
ContainsLowered s sub =
    (pre : Text) × (mid : Text) × (post : Text) × (s ≡ pre ++ (mid ++ post))
    × (map to_lower mid ≡ map to_lower sub)

PrefixLowered-step :
    (b c : ℕ) (t sub : Text)
    → PrefixLowered (b ∷ t) (c ∷ sub)
    → (to_lower b ≡ to_lower c) × PrefixLowered t sub
PrefixLowered-step b c t sub ([], post, e, h) = cc
PrefixLowered-step b c t sub (d ∷ mid, post, e, h) = (cc, (mid, post, cc, cc))

PrefixLowered-none : (c : ℕ) (sub : Text) → ¬ PrefixLowered [] (c ∷ sub)
PrefixLowered-none c sub ([], post, e, h) = cc
PrefixLowered-none c sub (b ∷ mid, post, e, h) = cc

prefix_fold_iff : (t sub : Text) → (prefix_fold t sub ≡ true) ↔ PrefixLowered t sub
unfolding prefix_fold
prefix_fold_iff t [] = (λ e. ([], t, refl, refl), λ h. refl)
prefix_fold_iff [] (c ∷ sub) = (λ e. cc, λ h. absurd (PrefixLowered-none c sub h))
prefix_fold_iff (b ∷ t) (c ∷ sub) = (
  λ e.
      let h : (to_lower b ≡ to_lower c) × (prefix_fold t sub ≡ true) = ground arith in
      let (mid, post, e1, e2) = (prefix_fold_iff t sub).0 h.1 in
      (b ∷ mid, post, ap (◌∷◌ b) e1, ap₂ ◌∷◌ h.0 e2),
  λ h.
      let step = PrefixLowered-step b c t sub h in
      let rest = (prefix_fold_iff t sub).1 step.1 in
      let first : (to_lower b == to_lower c) ≡ true = (==_iff (to_lower b) (to_lower c)).1 step.0 in
      rw (first, rest) refl,
)

length-map : (t : Text) → length (map to_lower t) ≡ length t
length-map [] = refl
length-map (b ∷ t) = rw (length-map t)

fits_length : (s sub : Text) → ContainsLowered s sub → length sub ≤ length s
fits_length s sub (pre, mid, post, e, h) =
    let l1 : length s ≡ length pre + (length mid + length post) =
      ap length e
      ∙ length-append pre (mid ++ post)
      ∙ ap (◌+◌ (length pre)) (length-append mid post) in
    let l2 : length mid ≡ length sub = sym (length-map mid) ∙ ap length h ∙ length-map sub in
    omega arith

ContainsLowered-step :
    (b : ℕ) (t sub : Text)
    → ContainsLowered (b ∷ t) sub
    → PrefixLowered (b ∷ t) sub ⊎ ContainsLowered t sub
ContainsLowered-step b t sub ([], mid, post, e, h) = inl (mid, post, e, h)
ContainsLowered-step b t sub (d ∷ pre, mid, post, e, h) = inr (pre, mid, post, cc, h)

ContainsLowered-nil : (sub : Text) → ContainsLowered [] sub → PrefixLowered [] sub
ContainsLowered-nil sub ([], mid, post, e, h) = (mid, post, e, h)
ContainsLowered-nil sub (d ∷ pre, mid, post, e, h) = cc

ContainsLowered-shift : (b : ℕ) (t sub : Text) → ContainsLowered t sub → ContainsLowered (b ∷ t) sub
ContainsLowered-shift b t sub (pre, mid, post, e, h) = (b ∷ pre, mid, post, ap (◌∷◌ b) e, h)

at_start : (t sub : Text) → PrefixLowered t sub → ContainsLowered t sub
at_start t sub (mid, post, e, h) = ([], mid, post, e, h)

scan_fold_iff : (s sub : Text) → (scan_fold s sub ≡ true) ↔ ContainsLowered s sub
unfolding scan_fold
scan_fold_iff [] sub = (
  λ e. at_start [] sub ((prefix_fold_iff [] sub).0 (ground arith)),
  λ h.
      let small = fits_length [] sub h in
      let first = (prefix_fold_iff [] sub).1 (ContainsLowered-nil sub h) in
      ground (arith, small, first),
)
scan_fold_iff (b ∷ t) sub = (
  λ e.
      let found : (prefix_fold (b ∷ t) sub ≡ true) ⊎ (scan_fold t sub ≡ true) = ground arith in
      elim found [
        | inl p ↦ at_start (b ∷ t) sub ((prefix_fold_iff (b ∷ t) sub).0 p)
        | inr p ↦ ContainsLowered-shift b t sub ((scan_fold_iff t sub).0 p)
      ],
  λ h.
      let small = fits_length (b ∷ t) sub h in
      elim (ContainsLowered-step b t sub h) [
        | inl p ↦ let k = (prefix_fold_iff (b ∷ t) sub).1 p in ground (arith, small, k)
        | inr p ↦ let k = (scan_fold_iff t sub).1 p in ground (arith, small, k)
      ],
)

-- The search finds exactly the texts that have, somewhere, a piece that is the wanted one up to the case
-- of ASCII letters: of the same length, and each byte the same or the same letter in the other case.
pub contains_fold_iff : (s sub : Text) → (contains_fold s sub ≡ true) ↔ ContainsFold s sub
unfolding contains_fold
contains_fold_iff s sub = (
  λ e.
      let (pre, mid, post, at, same) : ContainsLowered s sub =
        (scan_fold_iff s sub).0 (ground arith) in
      (pre, mid, post, at, lowered-SameFold mid sub same),
  λ (pre, mid, post, at, same).
      let lowered : ContainsLowered s sub = (pre, mid, post, at, SameFold-lowered mid sub same) in
      let small = fits_length s sub lowered in
      let k = (scan_fold_iff s sub).1 lowered in ground (arith, small, k),
)
