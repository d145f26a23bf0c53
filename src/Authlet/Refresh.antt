-- ===== src/Authlet/Refresh.antt =====
-- internal/authletstore/refresh.go: the refresh tokens and the revocations of their families. A time is
-- a number of nanoseconds; each call of time.Now is an argument.
use memory_system.Prelude.{
  ℕ, ◌-◌, ◌==◌, ltb, Text, text_eq, Bool, true, false, ◌&&◌, not, Option, none, some, List, [], ◌∷◌,
  Result, err, ok, if◌then◌else◌,
}
use memory_system.Authlet.Errors.{
  Fault, record_not_found, Database, creating, reading, counting, updating, deleting, StoreError,
  not_found, already_consumed, family_revoked, database_error, is_unique_violation, map_get_err,
  map_create_err, transaction,
}
use memory_system.Prelude.{count_where, first_where, delete_where, update_where}
pub mod Runs
pub mod Reuse
pub mod Revoked

-- A row of the table; `revoked_at` is its soft deletion, of which a query takes only the rows without.
pub record OAuthRefreshToken : Type 0 where
  pub token_hash : Text
  pub family_id : Text
  pub client_id : Text
  pub user_id : Text
  pub resource : Text
  pub scope : Text
  pub replaced_by : Text
  pub revoked_at : Option ℕ
  pub expires_at : ℕ

pub record FamilyRevocation : Type 0 where
  pub family_id : Text
  pub revoked_at : ℕ

-- authlet's own record of a token, with the fields that the source copies.
pub record RefreshToken : Type 0 where
  pub token_hash : Text
  pub family_id : Text
  pub client_id : Text
  pub user_id : Text
  pub resource : Text
  pub scope : Text
  pub replaced_by : Text
  pub expires_at : ℕ

pub record RefreshStore : Type 0 where
  pub tokens : List OAuthRefreshToken
  pub families : List FamilyRevocation

abbrev pub token_row : RefreshToken → OAuthRefreshToken
token_row rt = record {
  token_hash = rt.token_hash;
  family_id = rt.family_id;
  client_id = rt.client_id;
  user_id = rt.user_id;
  resource = rt.resource;
  scope = rt.scope;
  replaced_by = rt.replaced_by;
  revoked_at = none;
  expires_at = rt.expires_at;
}

abbrev pub stored_token : OAuthRefreshToken → RefreshToken
stored_token row = record {
  token_hash = row.token_hash;
  family_id = row.family_id;
  client_id = row.client_id;
  user_id = row.user_id;
  resource = row.resource;
  scope = row.scope;
  replaced_by = row.replaced_by;
  expires_at = row.expires_at;
}

-- revoked_at IS NULL
abbrev pub is_live : OAuthRefreshToken → Bool
is_live row = elim row.revoked_at [ none ↦ true | some _ ↦ false ]

-- the primary key
abbrev pub has_token_hash : Text → OAuthRefreshToken → Bool
has_token_hash hash row = text_eq row.token_hash hash

-- token_hash = ?, among the live
abbrev pub is_token : Text → OAuthRefreshToken → Bool
is_token hash row = text_eq row.token_hash hash && is_live row

-- token_hash = ? AND replaced_by = "", among the live
abbrev pub is_unused : Text → OAuthRefreshToken → Bool
is_unused hash row = is_token hash row && text_eq row.replaced_by []

abbrev pub marked : Text → OAuthRefreshToken → OAuthRefreshToken
marked replaced_by row = record row { replaced_by = replaced_by }

abbrev pub is_family : Text → FamilyRevocation → Bool
is_family family_id f = text_eq f.family_id family_id

unfoldable pub save :
    Database → RefreshToken → RefreshStore → Result StoreError (Unit {0}) × RefreshStore
unfolding count_where map_create_err
save db rt s = elim (db.failing creating) [
  | some e ↦ (err (map_create_err e), s)
  | none ↦
      if count_where (has_token_hash rt.token_hash) s.tokens == 0
      then (ok tt, record s { tokens = token_row rt ∷ s.tokens })
      else (err (map_create_err db.duplicate), s)
]

unfoldable pub is_family_revoked : Database → Text → RefreshStore → Result StoreError Bool
unfolding count_where
is_family_revoked db family_id s = elim (db.failing counting) [
  | some e ↦ err (database_error e)
  | none ↦ ok (ltb 0 (count_where (is_family family_id) s.families))
]

unfoldable pub get_of_row :
    Database → OAuthRefreshToken → RefreshStore → Result StoreError RefreshToken
unfolding is_family_revoked
get_of_row db row s = elim (is_family_revoked db row.family_id s) [
  | err e ↦ err e
  | ok revoked ↦ if revoked then err family_revoked else ok (stored_token row)
]

unfoldable pub get : Database → Text → RefreshStore → Result StoreError RefreshToken
unfolding first_where map_get_err get_of_row
get db hash s = elim (db.failing reading) [
  | some e ↦ err (map_get_err e)
  | none ↦ elim (first_where (is_token hash) s.tokens) [
    | none ↦ err (map_get_err record_not_found)
    | some row ↦ get_of_row db row s
  ]
]

-- the answer when no row was updated
unfoldable pub unknown_or_used : Database → Text → RefreshStore → StoreError
unfolding first_where map_get_err
unknown_or_used db hash s = elim (db.failing reading) [
  | some e ↦ map_get_err e
  | none ↦ elim (first_where (is_token hash) s.tokens) [
    | none ↦ map_get_err record_not_found
    | some row ↦ already_consumed
  ]
]

unfoldable pub mark :
    Database → Text → Text → RefreshStore → Result StoreError (Unit {0}) × RefreshStore
unfolding count_where update_where unknown_or_used
mark db hash replaced_by s = elim (db.failing updating) [
  | some e ↦ (err (database_error e), s)
  | none ↦
      let after = record s {
        tokens = update_where (is_unused hash) (marked replaced_by) s.tokens;
      } in
      if count_where (is_unused hash) s.tokens == 0
      then (err (unknown_or_used db hash after), after)
      else (ok tt, after)
]

unfoldable pub mark_used :
    Database → Text → Text → RefreshStore → Result StoreError (Unit {0}) × RefreshStore
unfolding mark
mark_used db hash replaced_by = transaction (mark db hash replaced_by)

-- what revoke_family makes of the error of its insertion
unfoldable pub revoke_error : Fault → Result StoreError (Unit {0})
unfolding is_unique_violation
revoke_error e = if is_unique_violation e then ok tt else err (database_error e)

unfoldable pub revoke_family :
    Database → ℕ → Text → RefreshStore → Result StoreError (Unit {0}) × RefreshStore
unfolding count_where revoke_error
revoke_family db now family_id s = elim (db.failing creating) [
  | some e ↦ (revoke_error e, s)
  | none ↦
      if count_where (is_family family_id) s.families == 0
      then (
        ok tt,
        record s { families = record { family_id = family_id; revoked_at = now } ∷ s.families },
      )
      else (revoke_error db.duplicate, s)
]

-- 90 days
abbrev pub family_tombstone_retention : ℕ
family_tombstone_retention = 7776000000000000

abbrev pub token_expires_before : ℕ → OAuthRefreshToken → Bool
token_expires_before before row = ltb row.expires_at before

abbrev pub revoked_before : ℕ → FamilyRevocation → Bool
revoked_before before f = ltb f.revoked_at before

-- the number of tokens deleted, the error if there is one, and the tokens after
unfoldable pub purge :
    Database → ℕ → List OAuthRefreshToken → (ℕ × Option Fault) × List OAuthRefreshToken
unfolding count_where delete_where
purge db before tokens = elim (db.failing deleting) [
  | some e ↦ ((0, some e), tokens)
  | none ↦ (
    (count_where (token_expires_before before) tokens, none),
    delete_where (token_expires_before before) tokens,
  )
]

-- its error is dropped
unfoldable pub prune : Database → ℕ → List FamilyRevocation → List FamilyRevocation
unfolding delete_where
prune db before families = elim (db.failing deleting) [
  | some e ↦ families
  | none ↦ delete_where (revoked_before (before - family_tombstone_retention)) families
]

-- The two deletions may fail apart from each other.
unfoldable pub delete_expired :
    (purging pruning : Database) → ℕ → RefreshStore → (ℕ × Option Fault) × RefreshStore
unfolding purge prune
delete_expired purging pruning before s =
    let (reported, tokens) = purge purging before s.tokens in
    (reported, record { tokens = tokens; families = prune pruning before s.families })
