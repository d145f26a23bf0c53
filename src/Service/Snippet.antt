-- ===== src/Service/Snippet.antt =====
-- The window of internal/service/snippet.go. A text is the list of its runes here, where the source moves
-- between bytes and runes; the sentinels are single runes, of internal/repository/section.go.
pub mod Window
use memory_system.Prelude.{
  ℕ, ℤ, pos, negsuc, zero, suc, ◌+◌, ◌-◌, ◌/◌, Bool, true, false, Option, none, some, List, [], ◌∷◌,
  length, ltb, ◌==◌, ◌||◌, if◌then◌else◌, take, drop, map,
}

abbrev pub Runes : Type 0
Runes = List ℕ

-- \ue000 and \ue001
abbrev pub snippet_start_sel : ℕ
snippet_start_sel = 57344

abbrev pub snippet_stop_sel : ℕ
snippet_stop_sel = 57345

-- strings.ReplaceAll of both by the empty text
unfoldable pub strip_sentinels : Runes → Runes
strip_sentinels [] = []
strip_sentinels (r ∷ s) =
    let rest = strip_sentinels s in
    if r == snippet_start_sel || r == snippet_stop_sel then rest else r ∷ rest

unfoldable pub trim_to_runes : Runes → ℕ → Runes
unfolding take
trim_to_runes s n = take n s

abbrev one_more : Option ℕ → Option ℕ
one_more none = none
one_more (some i) = some (suc i)

-- the number of runes before the first start sentinel
unfoldable pub match_index : Runes → Option ℕ
match_index [] = none
match_index (r ∷ s) =
    let rest = match_index s in if r == snippet_start_sel then some 0 else one_more rest

-- lo and hi, where the source's lo < 0 is the subtraction that stops at 0
unfoldable pub window : ℕ → ℕ → ℕ → ℕ × ℕ
window total at chars =
    let lo = at - chars / 2 in
    let hi = lo + chars in if ltb total hi then (total - chars, total) else (lo, hi)

unfoldable pub snippet_window : Runes → ℤ → Runes
unfolding strip_sentinels trim_to_runes match_index window take drop
snippet_window raw (negsuc n) = []
snippet_window raw (pos zero) = []
snippet_window raw (pos (suc n)) = elim (match_index raw) [
  | none ↦ trim_to_runes (strip_sentinels raw) (suc n)
  | some at ↦
      let w = window (length raw) at (suc n) in
      trim_to_runes (strip_sentinels (take (w.1 - w.0) (drop w.0 raw))) (suc n)
]
