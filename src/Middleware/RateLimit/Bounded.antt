-- ===== src/Middleware/RateLimit/Bounded.antt =====
-- The visitors stay bounded, and each key keeps its limiter while it is kept.
use memory_system.Prelude.{
  some_inj, ℕ, suc, ◌≤◌, ◌<◌, ◌≡◌, inl, inr, refl, sym, ap, ◌∙◌, subst, Text, text_eq, true, none,
  some, List, [], ◌∷◌, length, leb, if◌then◌else◌, find, set, find-set, Bool-cases, Option-cases,
  arith,
}
use memory_system.Middleware.RateLimit.{
  Visitor, max_visitors, is_idle, keep_active, any_idle, evict_locked, limiter_for,
}

length-set :
    {V : Type 0} (k : Text) (v : V) (m : List (Text × V)) → length (set k v m) ≤ suc (length m)
unfolding set
length-set k v [] = omega arith
length-set k v ((j, w) ∷ m) = ground (arith, length-set k v m)

length-set_found :
    {V : Type 0} (k : Text) (v w : V) (m : List (Text × V))
    → find k m ≡ some w
    → length (set k v m) ≡ length m
unfolding set find
length-set_found k v w [] h = cc
length-set_found k v w ((j, x) ∷ m) h = elim (Bool-cases (text_eq j k)) [
  | inl e ↦ rw e refl
  | inr e ↦ rw e (ap suc (length-set_found k v w m (ground arith)))
]

module _ {L : Type 0} where
  length-keep_active :
      (now : ℕ) (m : List (Text × Visitor L)) → length (keep_active now m) ≤ length m
  unfolding keep_active
  length-keep_active now [] = omega arith
  length-keep_active now ((k, v) ∷ m) = ground (arith, length-keep_active now m)

  length-keep_active_less :
      (now : ℕ) (m : List (Text × Visitor L))
      → any_idle now m ≡ true
      → length (keep_active now m) < length m
  unfolding keep_active any_idle
  length-keep_active_less now [] h = cc
  length-keep_active_less now ((k, v) ∷ m) h = elim (Bool-cases (is_idle now v)) [
    | inl e ↦ rw e (omega (arith, length-keep_active now m))
    | inr e ↦
        let later : any_idle now m ≡ true = ground arith in
        rw e (omega (arith, length-keep_active_less now m later))
  ]

  length-evict_locked :
      (now : ℕ) (m : List (Text × Visitor L))
      → 0 < length m
      → length (evict_locked now m) < length m
  unfolding evict_locked
  length-evict_locked now m h = elim (Bool-cases (any_idle now m)) [
    | inl e ↦ rw e (length-keep_active_less now m e)
    | inr e ↦ rw e h
  ]

  abbrev pub After : (m : List (Text × Visitor L)) → Text → L × List (Text × Visitor L) → Type 0
  After m key r =
      (length r.1 ≤ max_visitors)
      × ((v : Visitor L) × (find key r.1 ≡ some v) × (v.limiter ≡ r.0))
      × ((v : Visitor L) → find key m ≡ some v → r.0 ≡ v.limiter)

  -- what is left before a new visitor is put in
  abbrev room_for : ℕ → List (Text × Visitor L) → List (Text × Visitor L)
  room_for evicting m = if leb max_visitors (length m) then evict_locked evicting m else m

  length-room_for :
      (evicting : ℕ) (m : List (Text × Visitor L))
      → length m ≤ max_visitors
      → length (room_for evicting m) < max_visitors
  length-room_for evicting m h = elim (Bool-cases (leb max_visitors (length m))) [
    | inl e ↦ let less = length-evict_locked evicting m (ground arith) in rw e (omega arith)
    | inr e ↦ rw e (ground arith)
  ]

  known :
      (new_limiter : Unit {0} → L) (now evicting : ℕ) (key : Text) (m : List (Text × Visitor L))
      (v : Visitor L)
      → find key m ≡ some v
      → limiter_for new_limiter now evicting key m
        ≡ (v.limiter, set key record { limiter = v.limiter; last_seen = now } m)
  unfolding limiter_for
  known new_limiter now evicting key m v e = rw (e, limiter_for) refl

  unknown :
      (new_limiter : Unit {0} → L) (now evicting : ℕ) (key : Text) (m : List (Text × Visitor L))
      → find key m ≡ none
      → limiter_for new_limiter now evicting key m ≡ (
        new_limiter tt,
        set key record { limiter = new_limiter tt; last_seen = now } (room_for evicting m),
      )
  unfolding limiter_for
  unknown new_limiter now evicting key m e = rw (e, limiter_for) refl

-- Where there are at most 8192 visitors, a request leaves at most as many: its key then has the limiter
-- that the request got, which is the one that the key had, if it had one.
pub limiter_for-After :
    {L : Type 0} (new_limiter : Unit {0} → L) (now evicting : ℕ) (key : Text)
    (m : List (Text × Visitor L))
    → length m ≤ max_visitors
    → After m key (limiter_for new_limiter now evicting key m)
limiter_for-After {L} new_limiter now evicting key m h = elim (Option-cases (find key m)) [
  | inr (v, e) ↦
      let fresh : Visitor L = record { limiter = v.limiter; last_seen = now } in
      subst (After m key) (sym (known new_limiter now evicting key m v e)) (
        omega (arith, length-set_found key fresh v m e, h),
        (fresh, find-set key fresh m, refl),
        λ w k. ap (λ (x : Visitor L). x.limiter) (some_inj (sym e ∙ k)),
      )
  | inl e ↦
      let fresh : Visitor L = record { limiter = new_limiter tt; last_seen = now } in
      let rest = room_for evicting m in
      subst (After m key) (sym (unknown new_limiter now evicting key m e)) (
        omega (arith, length-set key fresh rest, length-room_for evicting m h),
        (fresh, find-set key fresh rest, refl),
        λ w k. absurd (let clash : none ≡ some w = sym e ∙ k in cc),
      )
]
