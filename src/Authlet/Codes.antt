-- ===== src/Authlet/Codes.antt =====
-- internal/authletstore/codes.go: the authorization codes. A time is a number.
use memory_system.Prelude.{
  ℕ, ◌==◌, ltb, Text, text_eq, Bool, Option, none, some, List, ◌∷◌, Result, err, ok, if◌then◌else◌,
}
use memory_system.Authlet.Errors.{
  Fault, record_not_found, Database, creating, reading, deleting, StoreError, not_found,
  already_consumed, database_error, map_get_err, map_create_err, transaction,
}
use memory_system.Prelude.{count_where, first_where, delete_where}
pub mod Grants
pub mod Redeemed

-- A row of the table.
pub record OAuthCode : Type 0 where
  pub code_hash : Text
  pub client_id : Text
  pub user_id : Text
  pub resource : Text
  pub scope : Text
  pub pkce_challenge : Text
  pub pkce_method : Text
  pub redirect_uri : Text
  pub nonce : Text
  pub expires_at : ℕ

-- authlet's own record of a code, with the fields that the source copies.
pub record AuthCode : Type 0 where
  pub code_hash : Text
  pub client_id : Text
  pub user_id : Text
  pub resource : Text
  pub scope : Text
  pub pkce_challenge : Text
  pub pkce_method : Text
  pub redirect_uri : Text
  pub nonce : Text
  pub expires_at : ℕ

abbrev pub code_row : AuthCode → OAuthCode
code_row c = record {
  code_hash = c.code_hash;
  client_id = c.client_id;
  user_id = c.user_id;
  resource = c.resource;
  scope = c.scope;
  pkce_challenge = c.pkce_challenge;
  pkce_method = c.pkce_method;
  redirect_uri = c.redirect_uri;
  nonce = c.nonce;
  expires_at = c.expires_at;
}

abbrev pub stored_code : OAuthCode → AuthCode
stored_code row = record {
  code_hash = row.code_hash;
  client_id = row.client_id;
  user_id = row.user_id;
  resource = row.resource;
  scope = row.scope;
  pkce_challenge = row.pkce_challenge;
  pkce_method = row.pkce_method;
  redirect_uri = row.redirect_uri;
  nonce = row.nonce;
  expires_at = row.expires_at;
}

-- code_hash = ?
abbrev pub has_hash : Text → OAuthCode → Bool
has_hash hash row = text_eq row.code_hash hash

-- expires_at < ?
abbrev pub expires_before : ℕ → OAuthCode → Bool
expires_before before row = ltb row.expires_at before

-- The primary key is the hash.
unfoldable pub save :
    Database → AuthCode → List OAuthCode → Result StoreError (Unit {0}) × List OAuthCode
unfolding count_where map_create_err
save db c codes = elim (db.failing creating) [
  | some e ↦ (err (map_create_err e), codes)
  | none ↦
      if count_where (has_hash c.code_hash) codes == 0
      then (ok tt, code_row c ∷ codes)
      else (err (map_create_err db.duplicate), codes)
]

-- the row that a redemption reads
unfoldable pub read_code : Database → Text → List OAuthCode → Result StoreError OAuthCode
unfolding first_where map_get_err
read_code db hash codes = elim (db.failing reading) [
  | some e ↦ err (map_get_err e)
  | none ↦ elim (first_where (has_hash hash) codes) [
    | none ↦ err (map_get_err record_not_found)
    | some row ↦ ok row
  ]
]

-- what follows the read: the deletion, which is the guard, and the expiry
unfoldable pub redeem :
    Database → ℕ → Text → OAuthCode → List OAuthCode → Result StoreError AuthCode × List OAuthCode
unfolding count_where delete_where
redeem db now hash row codes = elim (db.failing deleting) [
  | some e ↦ (err (database_error e), codes)
  | none ↦
      let rest = delete_where (has_hash hash) codes in
      if count_where (has_hash hash) codes == 0
      then (err not_found, rest)
      else if ltb row.expires_at now
      then (err already_consumed, rest)
      else (ok (stored_code row), rest)
]

unfoldable pub consume_once :
    Database → ℕ → Text → List OAuthCode → Result StoreError AuthCode × List OAuthCode
unfolding read_code redeem
consume_once db now hash = transaction (λ codes. elim (read_code db hash codes) [
  | err e ↦ (err e, codes)
  | ok row ↦ redeem db now hash row codes
])

-- the number deleted, the error if there is one, and the table after
unfoldable pub delete_expired : Database → ℕ → List OAuthCode → (ℕ × Option Fault) × List OAuthCode
unfolding count_where delete_where
delete_expired db before codes = elim (db.failing deleting) [
  | some e ↦ ((0, some e), codes)
  | none ↦ (
    (count_where (expires_before before) codes, none),
    delete_where (expires_before before) codes,
  )
]
