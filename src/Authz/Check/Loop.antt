-- ===== src/Authz/Check/Loop.antt =====
-- The cache and the loops of a check, as far as its denials are concerned.
use memory_system.Prelude.{
  ◌≡◌, ◌⊎◌, inl, inr, refl, sym, subst, Text, text_eq, eq_iff, Bool, true, false, none, some, List,
  [], ◌∷◌, map, Memᴰ, arith, Bool-cases, Option-cases, mem-cons,
}
use mathlib.Core.List.Memᴰ
use memory_system.Authz.Namespace.{find}
use memory_system.Authz.Check.{Answer, Memo, CheckError, contains, sweep}

abbrev pub keys : Memo → List Text
keys = map (λ entry. entry.0)

abbrev pub Grows : Memo → Memo → Type 0
Grows m m' = (k : Text) → Memᴰ k (keys m) → Memᴰ k (keys m')

-- The key is cached, or on the path.
abbrev pub Seen : List Text → Memo → Text → Type 0
Seen visited m k = Memᴰ k (keys m) ⊎ Memᴰ k visited

pub Seen-Grows :
    (visited : List Text) (m m' : Memo) (k : Text)
    → Grows m m'
    → Seen visited m k
    → Seen visited m' k
Seen-Grows visited m m' k g (inl i) = inl (g k i)
Seen-Grows visited m m' k g (inr i) = inr i

pub find-mem : (k : Text) (m : Memo) (g : Bool) → find k m ≡ some g → Memᴰ k (keys m)
unfolding find
find-mem k [] g e = cc
find-mem k ((j, v) ∷ m) g e = elim (Bool-cases (text_eq j k)) [
  | inl t ↦ Memᴰ.head (sym ((eq_iff j k).0 t))
  | inr t ↦ Memᴰ.tail (find-mem k m g (ground arith))
]

pub mem-contains : (k : Text) (l : List Text) → Memᴰ k l → contains k l ≡ true
unfolding contains
mem-contains k [] i = elim i [ ]
mem-contains k (j ∷ l) (Memᴰ.head e) = ground (arith, eq_iff j k)
mem-contains k (j ∷ l) (Memᴰ.tail i) = ground (arith, mem-contains k l i)

-- The remembered error survives the loop.
pub sweep_error :
    {A : Type 0} (visit : A → Memo → Answer) (d : CheckError) (xs : List A) (m : Memo)
    → (sweep visit (some d) xs m).granted ≡ false
    → (sweep visit (some d) xs m).error ≡ some d
unfolding sweep
sweep_error visit d [] m h = refl
sweep_error visit d (x ∷ xs) m h = elim (Bool-cases (visit x m).granted) [
  | inl e ↦ cc
  | inr e ↦ rw e (sweep_error visit d xs (visit x m).memo (rw e at h))
]

-- A loop that denies with no error has denied at each item, with no error.
module _ {A : Type 0} (I : Memo → Type 0) (C : A → Memo → Type 0) (visit : A → Memo → Answer)
    (keep : (x : A) (m m' : Memo) → Grows m m' → C x m → C x m') where
  abbrev pub Clean : List A → Answer → Memo → Type 0
  Clean xs a m =
      a.granted ≡ false
      → a.error ≡ none
      → Grows m a.memo × I a.memo × ((x : A) → Memᴰ x xs → C x a.memo)

  abbrev pub Step : A → Type 0
  Step x =
      (m : Memo)
      → I m
      → (visit x m).granted ≡ false
      → (visit x m).error ≡ none
      → Grows m (visit x m).memo × I (visit x m).memo × C x (visit x m).memo

  pub sweep-Clean :
      (xs : List A) (m : Memo)
      → ((x : A) → Memᴰ x xs → Step x)
      → I m
      → Clean xs (sweep visit none xs m) m
  unfolding sweep
  sweep-Clean [] m step i h e = (λ k p. p, i, λ x p. absurd (Memᴰ.not-nil p))
  sweep-Clean (x ∷ xs) m step i h e = elim (Bool-cases (visit x m).granted) [
    | inl g ↦ cc (rw g at h)
    | inr g ↦ elim (Option-cases (visit x m).error) [
      | inr (d, o) ↦ cc (sweep_error visit d xs (visit x m).memo (rw (g, o) at h), rw (g, o) at e)
      | inl o ↦
          let (up, i', c) = step x (Memᴰ.head refl) m i g o in
          let (up', i'', cs) =
            sweep-Clean xs (visit x m).memo (λ y p. step y (Memᴰ.tail p)) i' (rw (g, o) at h)
              (rw (g, o) at e) in
          rw (g, o)
            (
              λ k p. up' k (up k p),
              i'',
              λ y p. elim (mem-cons p) [
                | inl q ↦
                    subst (λ z. C z (sweep visit none xs (visit x m).memo).memo) (sym q)
                      (keep x (visit x m).memo (sweep visit none xs (visit x m).memo).memo up' c)
                | inr q ↦ cs y q
              ],
            )
    ]
  ]
