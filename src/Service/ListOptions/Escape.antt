-- ===== src/Service/ListOptions/Escape.antt =====
-- What an escaped prefix means as a LIKE pattern, whose escape character is the backslash.
use memory_system.Prelude.{
  ℕ, ◌≡◌, inl, inr, refl, sym, ap, ◌∙◌, subst, Text, Bool, true, false, List, [], ◌∷◌, ◌++◌, map,
  ◌==◌, ==_iff, Bool-cases, if◌then◌else◌,
}
use memory_system.Service.ListOptions.{escape_byte, escape_like_prefix}

-- The parts of a pattern: a byte for itself, _ for any one, % for any number. A backslash at the end
-- of a pattern, which the database rejects, is `broken`.
pub data LikePart : Type 0 where
  literal : ℕ → LikePart
  any_one any_many broken : LikePart

abbrev bare : ℕ → LikePart
bare b = if b == b'_' then any_one else if b == b'%' then any_many else literal b

-- the parts, `quoted` telling whether a backslash stands just before
unfoldable pub like_parts : Bool → Text → List LikePart
like_parts true [] = broken ∷ []
like_parts false [] = []
like_parts true (b ∷ t) = literal b ∷ like_parts false t
like_parts false (b ∷ t) =
    let after = like_parts true t in
    let plain = like_parts false t in if b == b'\\' then after else bare b ∷ plain

-- The escape of a text byte by byte, and each byte's own.
abbrev Stands : ℕ → Type 0
Stands b =
    (s rest : Text)
    → like_parts false (escape_like_prefix (b ∷ s) ++ rest)
      ≡ literal b ∷ like_parts false (escape_like_prefix s ++ rest)

backslash-Stands : Stands b'\\'
unfolding like_parts escape_like_prefix escape_byte
backslash-Stands s rest = refl

percent-Stands : Stands b'%'
unfolding like_parts escape_like_prefix escape_byte
percent-Stands s rest = refl

underscore-Stands : Stands b'_'
unfolding like_parts escape_like_prefix escape_byte
underscore-Stands s rest = refl

other-Stands : (b : ℕ) → (b == b'\\') ≡ false → (b == b'%') ≡ false → (b == b'_') ≡ false → Stands b
unfolding like_parts escape_like_prefix escape_byte
other-Stands b n1 n2 n3 s rest = rw (n1, n2, n3, n1, n2, n3) refl

every-Stands : (b : ℕ) → Stands b
every-Stands b = elim (Bool-cases (b == b'\\')) [
  | inl e ↦ subst Stands (sym ((==_iff b b'\\').0 e)) backslash-Stands
  | inr n1 ↦ elim (Bool-cases (b == b'%')) [
    | inl e ↦ subst Stands (sym ((==_iff b b'%').0 e)) percent-Stands
    | inr n2 ↦ elim (Bool-cases (b == b'_')) [
      | inl e ↦ subst Stands (sym ((==_iff b b'_').0 e)) underscore-Stands
      | inr n3 ↦ other-Stands b n1 n2 n3
    ]
  ]
]

-- An escaped prefix means itself, byte for byte, in a LIKE pattern, whatever follows it.
pub escape_like_prefix-literal :
    (s rest : Text)
    → like_parts false (escape_like_prefix s ++ rest) ≡ map literal s ++ like_parts false rest
escape_like_prefix-literal [] rest = unfold escape_like_prefix in (unfold escape_byte in refl)
escape_like_prefix-literal (b ∷ s) rest =
    every-Stands b s rest ∙ ap (◌∷◌ (literal b)) (escape_like_prefix-literal s rest)
