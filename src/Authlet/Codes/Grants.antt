-- ===== src/Authlet/Codes/Grants.antt =====
-- What the codes are for: one grant each, whatever redemptions run at once.
use memory_system.Prelude.{
  ℕ, ◌+◌, ◌≤◌, ◌==◌, ltb, ◌≡◌, inl, inr, sym, ap, subst, Text, text_eq, eq_refl, eq_iff, ◌<◌, List,
  [], ◌∷◌, Memᴰ, err, ok, Bool-cases, Option-cases, arith,
}
use memory_system.Authlet.Errors.{
  Database, creating, deleting, StoreError, transaction, settle-ok, not-both, settle-err,
}
use memory_system.Prelude.{count_where, delete_where, count-delete, count-delete_le}
use memory_system.Authlet.Codes.{
  OAuthCode, AuthCode, code_row, has_hash, expires_before, save, read_code, redeem, delete_expired,
}

-- The table, the rows that redemptions under way have read, the hashes that were saved, and those for
-- which a redemption returned a code.
pub record World : Type 0 where
  pub codes : List OAuthCode
  pub under_way : List (Text × OAuthCode)
  pub saved : List Text
  pub granted : List Text

-- Between the read of a redemption and its deletion, which waits for the row's lock, others may run.
pub data Step : World → World → Type 0 where
  saving :
      {w : World} {after : List OAuthCode} (db : Database) (c : AuthCode)
      → save db c w.codes ≡ (ok tt, after)
      → Step w record w { codes = after; saved = c.code_hash ∷ w.saved }
  not_saving :
      {w : World} {after : List OAuthCode} {e : StoreError} (db : Database) (c : AuthCode)
      → save db c w.codes ≡ (err e, after)
      → Step w record w { codes = after }
  reading_row :
      {w : World} {row : OAuthCode} (db : Database) (hash : Text)
      → read_code db hash w.codes ≡ ok row
      → Step w record w { under_way = (hash, row) ∷ w.under_way }
  granting :
      {w : World} {after : List OAuthCode} {c : AuthCode} (db : Database) (now : ℕ) (hash : Text)
      (row : OAuthCode)
      → Memᴰ (hash, row) w.under_way
      → transaction (redeem db now hash row) w.codes ≡ (ok c, after)
      → Step w record w { codes = after; granted = hash ∷ w.granted }
  refusing :
      {w : World} {after : List OAuthCode} {e : StoreError} (db : Database) (now : ℕ) (hash : Text)
      (row : OAuthCode)
      → Memᴰ (hash, row) w.under_way
      → transaction (redeem db now hash row) w.codes ≡ (err e, after)
      → Step w record w { codes = after }
  sweeping :
      {w : World} (db : Database) (before : ℕ)
      → Step w record w { codes = (delete_expired db before w.codes).1 }

abbrev pub new_world : World
new_world = record { codes = []; under_way = []; saved = []; granted = [] }

pub data Run : World → Type 0 where
  start : Run new_world
  step : {w v : World} → Run w → Step w v → Run v

abbrev pub times : Text → List Text → ℕ
times h ts = count_where (λ t. text_eq t h) ts

abbrev Bounded : World → Type 0
Bounded w = (h : Text) → times h w.granted + count_where (has_hash h) w.codes ≤ times h w.saved

save-ok :
    (db : Database) (c : AuthCode) (codes after : List OAuthCode)
    → save db c codes ≡ (ok tt, after)
    → after ≡ code_row c ∷ codes
unfolding save
save-ok db c codes after h = elim (Option-cases (db.failing creating)) [
  | inl n ↦ elim (Bool-cases (count_where (has_hash c.code_hash) codes == 0)) [
    | inl z ↦ let k = rw (n, z, save) at h in sym (ap (λ p. p.1) k)
    | inr z ↦ let k = rw (n, z, save) at h in not-both k
  ]
  | inr (e, n) ↦ let k = rw (n, save) at h in not-both k
]

save-err :
    (db : Database) (c : AuthCode) (codes after : List OAuthCode) (e : StoreError)
    → save db c codes ≡ (err e, after)
    → after ≡ codes
unfolding save
save-err db c codes after e h = elim (Option-cases (db.failing creating)) [
  | inl n ↦ elim (Bool-cases (count_where (has_hash c.code_hash) codes == 0)) [
    | inl z ↦ let k = rw (n, z, save) at h in not-both (sym k)
    | inr z ↦ let k = rw (n, z, save) at h in sym (ap (λ p. p.1) k)
  ]
  | inr (f, n) ↦ let k = rw (n, save) at h in sym (ap (λ p. p.1) k)
]

redeem-ok :
    (db : Database) (now : ℕ) (hash : Text) (row : OAuthCode) (codes after : List OAuthCode)
    (c : AuthCode)
    → redeem db now hash row codes ≡ (ok c, after)
    → (after ≡ delete_where (has_hash hash) codes) × (0 < count_where (has_hash hash) codes)
unfolding redeem
redeem-ok db now hash row codes after c h = elim (Option-cases (db.failing deleting)) [
  | inl n ↦ elim (Bool-cases (count_where (has_hash hash) codes == 0)) [
    | inl z ↦ let k = rw (n, z, redeem) at h in not-both k
    | inr z ↦ elim (Bool-cases (ltb row.expires_at now)) [
      | inl x ↦ let k = rw (n, z, x, redeem) at h in not-both k
      | inr x ↦ let k = rw (n, z, x, redeem) at h in (sym (ap (λ p. p.1) k), ground arith)
    ]
  ]
  | inr (e, n) ↦ let k = rw (n, redeem) at h in not-both k
]

-- The deletion of a redemption takes at least the one row that its grant stands for.
count-redeemed :
    (h hash : Text) (codes : List OAuthCode)
    → 0 < count_where (has_hash hash) codes
    → times h (hash ∷ []) + count_where (has_hash h) (delete_where (has_hash hash) codes)
      ≤ count_where (has_hash h) codes
unfolding count_where
count-redeemed h hash codes p = elim (Bool-cases (text_eq hash h)) [
  | inl e ↦
      let q : hash ≡ h = (eq_iff hash h).0 e in
      let none_left = count-delete (has_hash hash) codes in
      subst
        (λ i.
          times i (hash ∷ []) + count_where (has_hash i) (delete_where (has_hash hash) codes)
          ≤ count_where (has_hash i) codes)
        q (rw (eq_refl hash, count_where, none_left) (omega arith))
  | inr e ↦ rw (e, count_where) (omega (arith, count-delete_le (has_hash h) (has_hash hash) codes))
]

times-cons : (h k : Text) (ts : List Text) → times h (k ∷ ts) ≡ times h (k ∷ []) + times h ts
unfolding count_where
times-cons h k ts = elim (Bool-cases (text_eq k h)) [
  | inl e ↦ rw e (omega arith)
  | inr e ↦ rw e (omega arith)
]

count-row :
    (h : Text) (c : AuthCode) (codes : List OAuthCode)
    → count_where (has_hash h) (code_row c ∷ codes)
      ≡ times h (c.code_hash ∷ []) + count_where (has_hash h) codes
unfolding count_where
count-row h c codes = elim (Bool-cases (text_eq c.code_hash h)) [
  | inl e ↦ rw e (omega arith)
  | inr e ↦ rw e (omega arith)
]

swept :
    (db : Database) (before : ℕ) (codes : List OAuthCode) (h : Text)
    → count_where (has_hash h) (delete_expired db before codes).1 ≤ count_where (has_hash h) codes
unfolding delete_expired
swept db before codes h = elim (Option-cases (db.failing deleting)) [
  | inl n ↦ rw (n, delete_expired) (count-delete_le (has_hash h) (expires_before before) codes)
  | inr (e, n) ↦ rw (n, delete_expired) (omega arith)
]

Step-Bounded : {w v : World} → Step w v → Bounded w → Bounded v
Step-Bounded {w} (saving {after = after} db c e) b h =
    rw (save-ok db c w.codes after e)
      (omega (arith, b h, times-cons h c.code_hash w.saved, count-row h c w.codes))
Step-Bounded {w} (not_saving {after = after} {e = x} db c e) b h =
    rw (save-err db c w.codes after x e) (b h)
Step-Bounded (reading_row db hash e) b h = b h
Step-Bounded {w} (granting {after = after} {c = c} db now hash row m e) b h =
    let (gone, some_row) =
      redeem-ok db now hash row w.codes after c
        (settle-ok w.codes after (redeem db now hash row w.codes) c e) in
    rw gone
      (omega (arith, b h, times-cons h hash w.granted, count-redeemed h hash w.codes some_row))
Step-Bounded {w} (refusing {after = after} {e = x} db now hash row m e) b h =
    rw (settle-err w.codes after (redeem db now hash row w.codes) x e) (b h)
Step-Bounded {w} (sweeping db before) b h = omega (arith, b h, swept db before w.codes h)

Run-within : {w : World} → Run w → Bounded w
unfolding count_where
Run-within start h = omega arith
Run-within (step r s) h = Step-Bounded s (Run-within r) h

-- However saves, sweeps and the two halves of redemptions interleave, and whichever statements fail: the
-- redemptions that returned a code of a hash, and its rows, are together at most the saves of the hash.
pub Run-Bounded :
    {w : World}
    → Run w
    → (h : Text) → times h w.granted + count_where (has_hash h) w.codes ≤ times h w.saved
Run-Bounded r h = Run-within r h
