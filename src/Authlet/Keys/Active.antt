-- ===== src/Authlet/Keys/Active.antt =====
-- One key at most is active, and it is the one that signs.
use memory_system.Prelude.{
  ℕ, suc, ◌≤◌, ◌==◌, ◌≡◌, ◌⊎◌, inl, inr, refl, sym, ap, subst, Text, text, text_eq, Bool, true,
  false, Option, none, List, [], ◌∷◌, Result, err, ok, Result-cases, Bool-cases, Option-cases,
  if◌then◌else◌, arith,
}
use memory_system.Authlet.Errors.{
  Fault, Database, creating, updating, StoreError, settle, settle-ok, settle-err, not-both,
}
use memory_system.Prelude.{count_where, update_where, count-update_none, count-update_le}
use memory_system.Authlet.Keys.{
  AuthletSigningKey, SigningKey, key_row, active, has_id, deactivated, retired, create_key,
  activate, insert, retire,
}

abbrev active_count : List AuthletSigningKey → ℕ
active_count keys = count_where active keys

-- The tables that insertions and retirements lead to, whichever statements fail.
pub data Run : List AuthletSigningKey → Type 0 where
  start : Run []
  inserting :
      {keys : List AuthletSigningKey} (db : Database) (name : Text) (lock : Option Fault)
      (k : SigningKey)
      → Run keys
      → Run (insert db name lock k keys).1
  retiring :
      {keys : List AuthletSigningKey} (db : Database) (id : Text) (at : ℕ)
      → Run keys
      → Run (retire db id at keys).1

create_key-ok :
    (db : Database) (k : SigningKey) (keys after : List AuthletSigningKey)
    → create_key db k keys ≡ (ok tt, after)
    → after ≡ key_row k ∷ keys
unfolding create_key
create_key-ok db k keys after h = elim (Option-cases (db.failing creating)) [
  | inl n ↦ elim (Bool-cases (count_where (has_id k.id) keys == 0)) [
    | inl z ↦ let q = rw (n, z, create_key) at h in sym (ap (λ p. p.1) q)
    | inr z ↦ let q = rw (n, z, create_key) at h in not-both q
  ]
  | inr (e, n) ↦ let q = rw (n, create_key) at h in not-both q
]

activate-ok :
    (db : Database) (name : Text) (lock : Option Fault) (k : SigningKey)
    (keys after : List AuthletSigningKey)
    → activate db name lock k keys ≡ (ok tt, after)
    → after ≡ key_row k ∷ update_where active deactivated keys
unfolding activate
activate-ok db name lock k keys after h =
    elim (Option-cases (if text_eq name (text "postgres") then lock else none)) [
      | inl b ↦ elim (Option-cases (db.failing updating)) [
        | inl n ↦
            let q = rw (b, n, activate) at h in
            create_key-ok db k (update_where active deactivated keys) after q
        | inr (e, n) ↦ let q = rw (b, n, activate) at h in not-both q
      ]
      | inr (e, b) ↦ let q = rw (b, activate) at h in not-both q
    ]

pub none_active :
    (keys : List AuthletSigningKey) → active_count (update_where active deactivated keys) ≡ 0
none_active keys = count-update_none active deactivated keys (λ r. refl)

settle-if :
    {A S : Type 0} (b : Bool) (s after : S) (p q : Result StoreError A × S) (a : A)
    → settle s (if b then p else q) ≡ (ok a, after)
    → ((b ≡ true) × (p ≡ (ok a, after))) ⊎ ((b ≡ false) × (q ≡ (ok a, after)))
settle-if true s after p q a h = inl (refl, settle-ok s after p a h)
settle-if false s after p q a h = inr (refl, settle-ok s after q a h)

-- what an insertion that returns no error leaves
pub insert-ok :
    (db : Database) (name : Text) (lock : Option Fault) (k : SigningKey)
    (keys after : List AuthletSigningKey)
    → insert db name lock k keys ≡ (ok tt, after)
    → ((k.is_active ≡ true) × (after ≡ key_row k ∷ update_where active deactivated keys))
      ⊎ ((k.is_active ≡ false) × (after ≡ key_row k ∷ keys))
unfolding insert
insert-ok db name lock k keys after h =
    elim (settle-if k.is_active keys after (activate db name lock k keys) (create_key db k keys) tt
      h) [
        | inl (a, q) ↦ inl (a, activate-ok db name lock k keys after q)
        | inr (a, q) ↦ inr (a, create_key-ok db k keys after q)
      ]

insert-err :
    (db : Database) (name : Text) (lock : Option Fault) (k : SigningKey)
    (keys after : List AuthletSigningKey) (e : StoreError)
    → insert db name lock k keys ≡ (err e, after)
    → after ≡ keys
unfolding insert
insert-err db name lock k keys after e h =
    settle-err keys after
      (if k.is_active then activate db name lock k keys else create_key db k keys) e h

pub insert-cases :
    (db : Database) (name : Text) (lock : Option Fault) (k : SigningKey)
    (keys : List AuthletSigningKey)
    → ((insert db name lock k keys).1 ≡ keys)
      ⊎ (((k.is_active ≡ true)
            × ((insert db name lock k keys).1 ≡ key_row k ∷ update_where active deactivated keys))
          ⊎ ((k.is_active ≡ false) × ((insert db name lock k keys).1 ≡ key_row k ∷ keys)))
insert-cases db name lock k keys =
    let after = (insert db name lock k keys).1 in
    elim (Result-cases (insert db name lock k keys).0) [
      | inl (e, q) ↦ inl (insert-err db name lock k keys after e (ap (λ r. (r, after)) q))
      | inr (u, q) ↦ inr (insert-ok db name lock k keys after (ap (λ r. (r, after)) q))
    ]

pub retire-cases :
    (db : Database) (id : Text) (at : ℕ) (keys : List AuthletSigningKey)
    → ((retire db id at keys).1 ≡ keys)
      ⊎ ((retire db id at keys).1 ≡ update_where (has_id id) (retired at) keys)
unfolding retire
retire-cases db id at keys = elim (Option-cases (db.failing updating)) [
  | inl n ↦ elim (Bool-cases (count_where (has_id id) keys == 0)) [
    | inl z ↦ inr (rw (n, z, retire) refl)
    | inr z ↦ inr (rw (n, z, retire) refl)
  ]
  | inr (e, n) ↦ inl (rw (n, retire) refl)
]

count-key :
    (k : SigningKey) (keys : List AuthletSigningKey) (n : ℕ)
    → active_count keys ≤ n
    → active_count (key_row k ∷ keys) ≤ suc n
unfolding count_where
count-key k keys n h = elim (Bool-cases k.is_active) [
  | inl e ↦ rw e (omega arith)
  | inr e ↦ rw e (omega arith)
]

count-idle_key :
    (k : SigningKey) (keys : List AuthletSigningKey)
    → k.is_active ≡ false
    → active_count (key_row k ∷ keys) ≡ active_count keys
unfolding count_where
count-idle_key k keys e = rw e refl

-- At most one key is active, whatever was inserted and retired, and whichever statements failed.
pub Run-active : {keys : List AuthletSigningKey} → Run keys → count_where active keys ≤ 1
unfolding count_where
Run-active start = omega arith
Run-active (inserting {keys = keys} db name lock k r) = elim (insert-cases db name lock k keys) [
  | inl e ↦ rw e (Run-active r)
  | inr (inl (a, e)) ↦
      let rest = update_where active deactivated keys in
      let none_left : active_count rest ≤ 0 = let z = none_active keys in omega arith in
      subst (λ x. active_count x ≤ 1) (sym e) (count-key k rest 0 none_left)
  | inr (inr (a, e)) ↦
      subst (λ x. active_count x ≤ 1) (sym e)
        (let same = count-idle_key k keys a in omega (arith, Run-active r))
]
Run-active (retiring {keys = keys} db id at r) = elim (retire-cases db id at keys) [
  | inl e ↦ rw e (Run-active r)
  | inr e ↦
      let fewer = count-update_le active (has_id id) (retired at) keys (λ x p q. cc) in
      subst (λ x. active_count x ≤ 1) (sym e) (omega (arith, Run-active r))
]
