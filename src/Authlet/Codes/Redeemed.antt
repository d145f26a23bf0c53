-- ===== src/Authlet/Codes/Redeemed.antt =====
-- What a redemption by itself returns and leaves.
use memory_system.Prelude.{
  ℕ, ◌≤◌, ◌<◌, ◌==◌, ltb, ◌≡◌, refl, ap, ◌∙◌, Text, eq_refl, true, false, none, some, List, ◌∷◌,
  Result, err, ok, inl, inr, Option-cases, Bool-cases, if◌then◌else◌, arith,
}
use memory_system.Authlet.Errors.{
  Statement, StoreError, Database, creating, reading, deleting, not_found, already_consumed,
  map_get_err,
}
use memory_system.Prelude.{count_where, first_where, delete_where, delete-none, first-count}
use memory_system.Authlet.Codes.{
  OAuthCode, AuthCode, code_row, stored_code, has_hash, save, read_code, redeem, consume_once,
}

-- No statement of the database fails.
abbrev pub Works : Database → Type 0
Works db = (q : Statement) → db.failing q ≡ none

abbrev one_with : AuthCode → List OAuthCode → List OAuthCode
one_with c codes = code_row c ∷ codes

save-fresh :
    (db : Database) (c : AuthCode) (codes : List OAuthCode)
    → Works db
    → count_where (has_hash c.code_hash) codes ≡ 0
    → save db c codes ≡ (ok tt, one_with c codes)
unfolding save
save-fresh db c codes works fresh = rw (works creating, fresh, save) refl

read_code-found :
    (db : Database) (hash : Text) (codes : List OAuthCode) (row : OAuthCode)
    → Works db
    → first_where (has_hash hash) codes ≡ some row
    → read_code db hash codes ≡ ok row
unfolding read_code
read_code-found db hash codes row works e = rw (works reading, e, read_code) refl

read_code-none :
    (db : Database) (hash : Text) (codes : List OAuthCode)
    → Works db
    → first_where (has_hash hash) codes ≡ none
    → read_code db hash codes ≡ err not_found
unfolding read_code map_get_err
read_code-none db hash codes works e = rw (works reading, e, read_code) refl

some_counted : (n : ℕ) → 0 < n → (n == 0) ≡ false
some_counted n h = ground arith

redeem-valid :
    (db : Database) (now : ℕ) (hash : Text) (row : OAuthCode) (codes : List OAuthCode)
    → Works db
    → 0 < count_where (has_hash hash) codes
    → ltb row.expires_at now ≡ false
    → redeem db now hash row codes ≡ (ok (stored_code row), delete_where (has_hash hash) codes)
unfolding redeem
redeem-valid db now hash row codes works p x =
    rw (works deleting, some_counted (count_where (has_hash hash) codes) p, x, redeem) refl

redeem-expired :
    (db : Database) (now : ℕ) (hash : Text) (row : OAuthCode) (codes : List OAuthCode)
    → Works db
    → 0 < count_where (has_hash hash) codes
    → ltb row.expires_at now ≡ true
    → redeem db now hash row codes ≡ (err already_consumed, delete_where (has_hash hash) codes)
unfolding redeem
redeem-expired db now hash row codes works p x =
    rw (works deleting, some_counted (count_where (has_hash hash) codes) p, x, redeem) refl

first-saved :
    (c : AuthCode) (codes : List OAuthCode)
    → first_where (has_hash c.code_hash) (one_with c codes) ≡ some (code_row c)
unfolding first_where
first-saved c codes = rw (eq_refl c.code_hash) refl

delete-saved :
    (c : AuthCode) (codes : List OAuthCode)
    → count_where (has_hash c.code_hash) codes ≡ 0
    → delete_where (has_hash c.code_hash) (one_with c codes) ≡ codes
unfolding delete_where
delete-saved c codes fresh =
    rw (eq_refl c.code_hash) (delete-none (has_hash c.code_hash) codes fresh)

consume_once-valid :
    (db : Database) (now : ℕ) (hash : Text) (row : OAuthCode) (codes : List OAuthCode)
    → Works db
    → first_where (has_hash hash) codes ≡ some row
    → now ≤ row.expires_at
    → consume_once db now hash codes ≡ (ok (stored_code row), delete_where (has_hash hash) codes)
unfolding consume_once
consume_once-valid db now hash row codes works first valid =
    let counted = first-count (has_hash hash) codes row first in
    let in_time : ltb row.expires_at now ≡ false = ground arith in
    rw
      (
        read_code-found db hash codes row works first,
        redeem-valid db now hash row codes works counted in_time,
      )
      refl

-- Where no statement fails and no row has its hash, a code that is saved can be redeemed until it expires:
-- the redemption returns it, field by field, and leaves the table that there was before the save.
pub consume_once-save :
    (db : Database) (c : AuthCode) (codes : List OAuthCode) (now : ℕ)
    → Works db
    → count_where (has_hash c.code_hash) codes ≡ 0
    → now ≤ c.expires_at
    → consume_once db now c.code_hash (save db c codes).1 ≡ (ok c, codes)
consume_once-save db c codes now works fresh valid =
    let table = one_with c codes in
    ap (λ p. consume_once db now c.code_hash p.1) (save-fresh db c codes works fresh)
    ∙ consume_once-valid db now c.code_hash (code_row c) table works (first-saved c codes) valid
    ∙ ap (λ rest. (ok c, rest)) (delete-saved c codes fresh)

-- what a redemption does, told in one go
unfoldable pub redeemed : ℕ → Text → List OAuthCode → Result StoreError AuthCode × List OAuthCode
unfolding first_where delete_where
redeemed now hash codes = elim (first_where (has_hash hash) codes) [
  | none ↦ (err not_found, codes)
  | some row ↦
      if ltb row.expires_at now
      then (err already_consumed, codes)
      else (ok (stored_code row), delete_where (has_hash hash) codes)
]

consume_once-expired :
    (db : Database) (now : ℕ) (hash : Text) (row : OAuthCode) (codes : List OAuthCode)
    → Works db
    → first_where (has_hash hash) codes ≡ some row
    → ltb row.expires_at now ≡ true
    → consume_once db now hash codes ≡ (err already_consumed, codes)
unfolding consume_once
consume_once-expired db now hash row codes works first late =
    rw
      (
        read_code-found db hash codes row works first,
        redeem-expired db now hash row codes works (first-count (has_hash hash) codes row first)
            late,
      )
      refl

-- Where no statement fails, a redemption returns the code of the first row of the hash and deletes the rows
-- of the hash; without such a row it finds nothing, and with one that has expired it says that the code is
-- consumed: either way the table, the expired row included, stays as it was.
pub consume_once-redeemed :
    (db : Database) (now : ℕ) (hash : Text) (codes : List OAuthCode)
    → Works db
    → consume_once db now hash codes ≡ redeemed now hash codes
unfolding consume_once redeemed
consume_once-redeemed db now hash codes works =
    elim (Option-cases (first_where (has_hash hash) codes)) [
      | inl n ↦ rw (read_code-none db hash codes works n, n, redeemed) refl
      | inr (row, e) ↦ elim (Bool-cases (ltb row.expires_at now)) [
        | inl x ↦ consume_once-expired db now hash row codes works e x ∙ (rw (e, x, redeemed) refl)
        | inr x ↦
            consume_once-valid db now hash row codes works e (ground arith)
            ∙ (rw (e, x, redeemed) refl)
      ]
    ]
