-- ===== src/Authlet/Keys.antt =====
-- internal/authletstore/signing_keys.go: the keys that sign tokens. A time is a number; each call of
-- time.Now is an argument. The advisory lock lets one activation run after another, so an insertion is
-- one step here.
use memory_system.Prelude.{
  ℕ, ◌==◌, ltb, Text, text, text_eq, Bool, true, false, ◌&&◌, ◌||◌, Option, none, some, List, [],
  ◌∷◌, map, Result, err, ok, if◌then◌else◌,
}
use memory_system.Authlet.Errors.{
  Fault, record_not_found, Database, creating, reading, updating, StoreError, not_found,
  database_error, map_get_err, transaction,
}
use memory_system.Prelude.{rows_where, count_where, update_where}
pub mod Active
pub mod Signer

-- A row of the table.
pub record AuthletSigningKey : Type 0 where
  pub id : Text
  pub algorithm : Text
  pub public_pem : Text
  pub private_pem_encrypted : Text
  pub is_active : Bool
  pub created_at : ℕ
  pub retires_at : Option ℕ

-- authlet's own record of a key, with the fields that the source copies.
pub record SigningKey : Type 0 where
  pub id : Text
  pub algorithm : Text
  pub public_pem : Text
  pub private_pem_encrypted : Text
  pub is_active : Bool
  pub created_at : ℕ
  pub retires_at : Option ℕ

abbrev pub to_storage_key : AuthletSigningKey → SigningKey
to_storage_key r = record {
  id = r.id;
  algorithm = r.algorithm;
  public_pem = r.public_pem;
  private_pem_encrypted = r.private_pem_encrypted;
  is_active = r.is_active;
  created_at = r.created_at;
  retires_at = r.retires_at;
}

abbrev pub key_row : SigningKey → AuthletSigningKey
key_row k = record {
  id = k.id;
  algorithm = k.algorithm;
  public_pem = k.public_pem;
  private_pem_encrypted = k.private_pem_encrypted;
  is_active = k.is_active;
  created_at = k.created_at;
  retires_at = k.retires_at;
}

-- retires_at IS NULL OR retires_at > ?
abbrev pub not_retired : ℕ → AuthletSigningKey → Bool
not_retired now r = elim r.retires_at [ none ↦ true | some at ↦ ltb now at ]

-- is_active = true
abbrev pub active : AuthletSigningKey → Bool
active r = r.is_active

-- id = ?
abbrev pub has_id : Text → AuthletSigningKey → Bool
has_id id r = text_eq r.id id

abbrev pub deactivated : AuthletSigningKey → AuthletSigningKey
deactivated r = record r { is_active = false }

abbrev pub retired : ℕ → AuthletSigningKey → AuthletSigningKey
retired at r = record r { is_active = false; retires_at = some at }

unfoldable pub list_active : Database → ℕ → List AuthletSigningKey → Result Fault (List SigningKey)
unfolding rows_where
list_active db now keys = elim (db.failing reading) [
  | some e ↦ err e
  | none ↦ ok (map to_storage_key (rows_where (not_retired now) keys))
]

-- the row that comes first by created_at, the latest first; `id_before` is the database's order of ids,
-- which First puts last
abbrev pub comes_before : (Text → Text → Bool) → AuthletSigningKey → AuthletSigningKey → Bool
comes_before id_before a b =
    ltb b.created_at a.created_at || (a.created_at == b.created_at && id_before a.id b.id)

unfoldable pub newest :
    (Text → Text → Bool) → AuthletSigningKey → List AuthletSigningKey → AuthletSigningKey
newest id_before best [] = best
newest id_before best (r ∷ rows) =
    if comes_before id_before r best then newest id_before r rows else newest id_before best rows

unfoldable pub first_newest :
    (Text → Text → Bool) → List AuthletSigningKey → Option AuthletSigningKey
unfolding newest
first_newest id_before [] = none
first_newest id_before (r ∷ rows) = some (newest id_before r rows)

unfoldable pub get_signer :
    Database → (Text → Text → Bool) → List AuthletSigningKey → Result StoreError SigningKey
unfolding rows_where first_newest map_get_err
get_signer db id_before keys = elim (db.failing reading) [
  | some e ↦ err (map_get_err e)
  | none ↦ elim (first_newest id_before (rows_where active keys)) [
    | none ↦ err (map_get_err record_not_found)
    | some row ↦ ok (to_storage_key row)
  ]
]

-- Create: the primary key is the id
unfoldable pub create_key :
    Database
    → SigningKey
    → List AuthletSigningKey
    → Result StoreError (Unit {0}) × List AuthletSigningKey
unfolding count_where
create_key db k keys = elim (db.failing creating) [
  | some e ↦ (err (database_error e), keys)
  | none ↦
      if count_where (has_id k.id) keys == 0
      then (ok tt, key_row k ∷ keys)
      else (err (database_error db.duplicate), keys)
]

-- `lock` is the error of the advisory lock, if it has one; another database than postgres takes none.
unfoldable pub activate :
    Database
    → Text
    → Option Fault
    → SigningKey
    → List AuthletSigningKey
    → Result StoreError (Unit {0}) × List AuthletSigningKey
unfolding create_key update_where text_eq
activate db name lock k keys =
    let blocked : Option Fault = if text_eq name (text "postgres") then lock else none in
    elim blocked [
      | some e ↦ (err (database_error e), keys)
      | none ↦ elim (db.failing updating) [
        | some e ↦ (err (database_error e), keys)
        | none ↦ create_key db k (update_where active deactivated keys)
      ]
    ]

unfoldable pub insert :
    Database
    → Text
    → Option Fault
    → SigningKey
    → List AuthletSigningKey
    → Result StoreError (Unit {0}) × List AuthletSigningKey
unfolding activate create_key
insert db name lock k =
    transaction (λ keys. if k.is_active then activate db name lock k keys else create_key db k keys)

unfoldable pub retire :
    Database
    → Text
    → ℕ
    → List AuthletSigningKey
    → Result StoreError (Unit {0}) × List AuthletSigningKey
unfolding count_where update_where
retire db id at keys = elim (db.failing updating) [
  | some e ↦ (err (database_error e), keys)
  | none ↦
      let after = update_where (has_id id) (retired at) keys in
      if count_where (has_id id) keys == 0 then (err not_found, after) else (ok tt, after)
]
