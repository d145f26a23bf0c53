-- ===== src/Authlet/Tests.antt =====
-- The theorems on the authorization server's tables, at concrete rows.
use memory_system.Prelude.{
  ◌≤◌, ◌+◌, ◌≡◌, ◌≢◌, refl, text, text_eq, true, false, none, List, [], ◌∷◌, Memᴰ, err, ok, arith,
}
use memory_system.Authlet.Errors.{fault, Database, StoreError}
use memory_system.Prelude.{count_where, first_where, delete_where, update_where}
use memory_system.Authlet.Codes
use memory_system.Authlet.Codes.{OAuthCode, AuthCode, has_hash, code_row, consume_once}
use memory_system.Authlet.Codes.Grants.{
  World, Run, start, step, saving, reading_row, granting, times, Run-Bounded,
}
use memory_system.Authlet.Codes.Redeemed.{redeemed, consume_once-redeemed}
use memory_system.Authlet.Refresh
use memory_system.Authlet.Refresh.{RefreshToken, RefreshStore, mark_used, get, revoke_family}
use memory_system.Authlet.Refresh.Runs.{Op, saving, sweeping, after_op, after_ops}
use memory_system.Authlet.Refresh.Reuse.{mark_used-once}
use memory_system.Authlet.Refresh.Revoked.{get-revoked}
use memory_system.Authlet.Keys
use memory_system.Authlet.Keys.{
  AuthletSigningKey, SigningKey, active, get_signer, insert, retire, key_row,
}
use memory_system.Authlet.Keys.Active.{Run-active}
use memory_system.Authlet.Keys.Active
use memory_system.Authlet.Keys.Signer.{Later, get_signer-insert}
use memory_system.Authlet.Keys.Signer

abbrev calm : Database
calm = record { failing = λ q. none; duplicate = fault (text "duplicate key value") }

abbrev a_code : AuthCode
a_code = record {
  code_hash = text "h1";
  client_id = text "ui";
  user_id = text "ann";
  resource = text "mcp";
  scope = text "openid";
  pkce_challenge = text "c";
  pkce_method = text "S256";
  redirect_uri = text "/ui";
  nonce = text "n";
  expires_at = 100;
}

consume_once-redeemed_example :
    consume_once calm 200 (text "h1") (code_row a_code ∷ [])
    ≡ redeemed 200 (text "h1") (code_row a_code ∷ [])
consume_once-redeemed_example =
    consume_once-redeemed calm 200 (text "h1") (code_row a_code ∷ []) (λ q. refl)

-- one save, one read and the grant
abbrev granted_world : World
granted_world = record {
  codes = [];
  under_way = (text "h1", code_row a_code) ∷ [];
  saved = text "h1" ∷ [];
  granted = text "h1" ∷ [];
}

granted_world-Run : Run granted_world
unfolding Codes.save Codes.read_code Codes.redeem text_eq count_where first_where delete_where
granted_world-Run =
    step (step (step start (saving calm a_code refl)) (reading_row calm (text "h1") refl))
      (granting calm 60 (text "h1") (code_row a_code) (Memᴰ.head refl) refl)

Run-Bounded_example :
    times (text "h1") granted_world.granted + count_where (has_hash (text "h1")) granted_world.codes
    ≤ times (text "h1") granted_world.saved
Run-Bounded_example = Run-Bounded granted_world-Run (text "h1")

abbrev a_token : RefreshToken
a_token = record {
  token_hash = text "t1";
  family_id = text "f1";
  client_id = text "ui";
  user_id = text "ann";
  resource = text "mcp";
  scope = text "openid";
  replaced_by = [];
  expires_at = 100;
}

abbrev other_token : RefreshToken
other_token = record a_token { token_hash = text "t2"; family_id = text "f2" }

abbrev one_token : RefreshStore
one_token = record { tokens = Refresh.token_row a_token ∷ []; families = [] }

abbrev used_token : RefreshStore
used_token = record {
  tokens = Refresh.marked (text "t2") (Refresh.token_row a_token) ∷ [];
  families = [];
}

abbrev later_ops : List Op
later_ops = saving calm other_token ∷ sweeping calm calm 50 ∷ []

mark_used-once_example :
    (e : StoreError) × (mark_used calm (text "t1") (text "t3") (after_ops later_ops used_token)
      ≡ (err e, after_ops later_ops used_token))
unfolding mark_used Refresh.mark count_where update_where text_eq
mark_used-once_example =
    mark_used-once calm calm (text "t1") (text "t2") (text "t3") one_token used_token later_ops refl
      refl (refl, (tt, tt))

abbrev revoked_f1 : RefreshStore
revoked_f1 = record one_token {
  tokens = Refresh.token_row other_token ∷ Refresh.token_row a_token ∷ [];
  families = record { family_id = text "f1"; revoked_at = 40 } ∷ [];
}

get-revoked_example : other_token.family_id ≢ text "f1"
unfolding after_ops after_op Refresh.delete_expired Refresh.purge Refresh.prune delete_where
    revoke_family get Refresh.get_of_row Refresh.is_family_revoked text_eq count_where first_where
get-revoked_example =
    get-revoked calm calm 40 40 (text "f1") (text "t2") record revoked_f1 { families = [] }
      revoked_f1 (sweeping calm calm 50 ∷ []) other_token refl (omega arith) refl refl
      (omega arith, tt) refl

abbrev a_key : SigningKey
a_key = record {
  id = text "k1";
  algorithm = text "RS256";
  public_pem = text "p";
  private_pem_encrypted = text "e";
  is_active = true;
  created_at = 10;
  retires_at = none;
}

abbrev second_key : SigningKey
second_key = record a_key { id = text "k2"; created_at = 20 }

abbrev two_keys : List AuthletSigningKey
two_keys = key_row second_key ∷ record (key_row a_key) { is_active = false } ∷ []

two_keys-Run : Active.Run two_keys
unfolding insert Keys.activate Keys.create_key count_where update_where text_eq
two_keys-Run =
    Active.Run.inserting calm (text "sqlite") none second_key
      (Active.Run.inserting calm (text "sqlite") none a_key Active.Run.start)

Run-active_example : count_where active two_keys ≤ 1
Run-active_example = Run-active two_keys-Run

get_signer-insert_example : get_signer calm (λ a b. false) two_keys ≡ ok second_key
unfolding insert Keys.activate Keys.create_key count_where update_where text_eq
get_signer-insert_example =
    get_signer-insert calm calm (text "sqlite") none (λ a b. false) second_key (key_row a_key ∷ [])
      two_keys two_keys refl refl Signer.Later.now refl
