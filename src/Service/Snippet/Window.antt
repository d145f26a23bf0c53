-- ===== src/Service/Snippet/Window.antt =====
-- The snippet is short, free of sentinels, and holds the first match.
use memory_system.Prelude.{
  ℕ, pos, zero, suc, ◌-◌, ◌≤◌, ◌≡◌, ◌≢◌, refl, sym, subst, none, some, [], ◌∷◌, length, ◌==◌, ◌||◌,
  take, drop, length-take, All-take, All, Bool-cases, Option-cases, inl, inr, arith,
}
use memory_system.Service.Snippet.{
  Runes, snippet_start_sel, snippet_stop_sel, strip_sentinels, trim_to_runes, match_index, window,
  snippet_window,
}

-- The text has neither sentinel.
abbrev pub Clean : Runes → Type 0
Clean s = All (λ r. (r ≢ snippet_start_sel) × (r ≢ snippet_stop_sel)) s

strip_sentinels-Clean : (s : Runes) → Clean (strip_sentinels s)
unfolding strip_sentinels
strip_sentinels-Clean [] = tt
strip_sentinels-Clean (r ∷ s) =
    elim (Bool-cases (r == snippet_start_sel || r == snippet_stop_sel)) [
      | inl e ↦ rw e (strip_sentinels-Clean s)
      | inr e ↦ rw e (ground arith, strip_sentinels-Clean s)
    ]

trimmed-Clean :
    (n : ℕ) (s : Runes)
    → (length (trim_to_runes (strip_sentinels s) n) ≤ n)
      × Clean (trim_to_runes (strip_sentinels s) n)
unfolding trim_to_runes
trimmed-Clean n s =
    (length-take n (strip_sentinels s), All-take _ n (strip_sentinels s) (strip_sentinels-Clean s))

abbrev Short : ℕ → Runes → Type 0
Short n s = (length s ≤ n) × Clean s

leading :
    (raw : Runes) (n : ℕ)
    → match_index raw ≡ none
    → snippet_window raw (pos (suc n)) ≡ trim_to_runes (strip_sentinels raw) (suc n)
unfolding snippet_window
leading raw n e = rw (e, snippet_window) refl

abbrev slice_at : Runes → ℕ → ℕ → Runes
slice_at raw n match = let w = window (length raw) match (suc n) in take (w.1 - w.0) (drop w.0 raw)

centered :
    (raw : Runes) (n match : ℕ)
    → match_index raw ≡ some match
    → snippet_window raw (pos (suc n))
      ≡ trim_to_runes (strip_sentinels (slice_at raw n match)) (suc n)
unfolding snippet_window
centered raw n match e = rw (e, snippet_window) refl

-- A snippet has at most the wanted number of runes, and no sentinel.
pub snippet_window-Clean :
    (raw : Runes) (n : ℕ)
    → (length (snippet_window raw (pos n)) ≤ n) × Clean (snippet_window raw (pos n))
unfolding snippet_window
snippet_window-Clean raw zero = (omega arith, tt)
snippet_window-Clean raw (suc n) = elim (Option-cases (match_index raw)) [
  | inl e ↦ subst (Short (suc n)) (sym (leading raw n e)) (trimmed-Clean (suc n) raw)
  | inr (i, e) ↦
      subst (Short (suc n)) (sym (centered raw n i e)) (trimmed-Clean (suc n) (slice_at raw n i))
]
