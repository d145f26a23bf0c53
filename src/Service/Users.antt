-- ===== src/Service/Users.antt =====
-- internal/service/memory.go: the users of tenants, their roles, and the tuples that follow them. The
-- transaction of the database covers the rows of the users, not the store of tuples: an error takes back
-- the rows only.
use memory_system.Prelude.{
  ℕ, ◌==◌, ltb, Text, text, text_eq, Bool, true, false, not, ◌||◌, ◌&&◌, Option, none, some, List,
  [], ◌∷◌, Result, err, ok, if◌then◌else◌, first_where, count_where, delete_where, update_where,
}
use memory_system.Authz.Tuple.{Tuple, service_principal_id}
use memory_system.Authz.Store.{write, delete}
use memory_system.Authz.Seed.{
  tenant_member_tuple, tenant_admin_tuple, tenant_owner_tuple, system_admin_tuple,
}
use memory_system.Service.Access.{
  Caller, Tenant, TenantUser, Directory, Call, creating_user, updating_user, deleting_user,
  counting_users, counting_admins, locking_tenant, writing_tuple, deleting_tuple, AccessError,
  invalid_input, not_found, call_failed, require_admin, get_tenant,
}
use memory_system.Service.Grants.{
  Outcome, checked, type_personal, has_email, resolve_subject_by_email, write_tuple, delete_tuple,
}
pub mod Stored
pub mod Inverted
pub mod Roles
pub mod Synced
pub mod Orphan
pub mod Kept
pub mod Reached
mod Tests

abbrev pub role_member : Text
role_member = text "member"

abbrev pub role_admin : Text
role_admin = text "admin"

abbrev pub role_owner : Text
role_owner = text "owner"

unfoldable pub valid_role : Text → Bool
unfolding text_eq
valid_role role = text_eq role role_member || text_eq role role_admin || text_eq role role_owner

-- if err != nil { return err }
abbrev pub and_then : {A : Type 0} → Outcome (Unit {0}) → (Directory → Outcome A) → Outcome A
and_then (err e, s) f = (err e, s)
and_then (ok u, s) f = f s

-- the end of a transaction: an error takes the rows back
abbrev pub settle_rows : {A : Type 0} → A → List TenantUser → Outcome (Unit {0}) → Outcome A
settle_rows a rows (err e, s) = (err e, record s { users = rows })
settle_rows a rows (ok u, s) = (ok a, s)

unfoldable pub role_elevated_tuple : Text → Text → Text → Option Tuple
unfolding text_eq
role_elevated_tuple tenant_id role subject_id =
    if text_eq role role_admin
    then some (tenant_admin_tuple tenant_id subject_id)
    else if text_eq role role_owner
    then some (tenant_owner_tuple tenant_id subject_id)
    else none

unfoldable pub write_elevated : (Call → Bool) → Option Tuple → Directory → Outcome (Unit {0})
unfolding write_tuple
write_elevated fails none s = (ok tt, s)
write_elevated fails (some t) s = write_tuple fails t s

unfoldable pub delete_elevated : (Call → Bool) → Option Tuple → Directory → Outcome (Unit {0})
unfolding delete_tuple
delete_elevated fails none s = (ok tt, s)
delete_elevated fails (some t) s = delete_tuple fails t s

-- tenant_id = ? AND role = admin
abbrev pub admin_of : Text → TenantUser → Bool
admin_of tenant_id u = text_eq u.tenant_id tenant_id && text_eq u.role role_admin

abbrev pub service_admin : Text → Tuple
service_admin tenant_id = system_admin_tuple (service_principal_id tenant_id)

unfoldable pub sync_service_principal_admin : (Call → Bool) → Text → Directory → Outcome (Unit {0})
unfolding count_where text_eq write_tuple delete_tuple service_principal_id
sync_service_principal_admin fails tenant_id s =
    if not s.wired
    then (ok tt, s)
    else if fails counting_admins
    then (err call_failed, s)
    else if ltb 0 (count_where (admin_of tenant_id) s.users)
    then write_tuple fails (service_admin tenant_id) s
    else delete_tuple fails (service_admin tenant_id) s

-- id = ?
abbrev pub has_user_id : Text → TenantUser → Bool
has_user_id id u = text_eq u.id id

abbrev pub with_role : Text → TenantUser → TenantUser
with_role role u = record u { role = role }

unfoldable pub update_role_row : (Call → Bool) → Text → Text → Directory → Outcome (Unit {0})
unfolding update_where text_eq
update_role_row fails id role s =
    if fails updating_user
    then (err call_failed, s)
    else (ok tt, record s { users = update_where (has_user_id id) (with_role role) s.users })

-- if role != other, its tuple goes
unfoldable pub remove_unless : (Call → Bool) → Bool → Tuple → Directory → Outcome (Unit {0})
unfolding delete_tuple
remove_unless fails same t s = if same then (ok tt, s) else delete_tuple fails t s

-- the tuples of a role that changes
unfoldable pub sync_role_tuples : (Call → Bool) → TenantUser → Text → Directory → Outcome (Unit {0})
unfolding write_elevated role_elevated_tuple remove_unless text_eq
sync_role_tuples fails tu role s =
    and_then (write_elevated fails (role_elevated_tuple tu.tenant_id role tu.id) s) (λ s1.
      and_then
        (remove_unless fails (text_eq role role_admin) (tenant_admin_tuple tu.tenant_id tu.id) s1)
        (λ s2.
          remove_unless fails (text_eq role role_owner) (tenant_owner_tuple tu.tenant_id tu.id) s2))

unfoldable pub update_body : (Call → Bool) → TenantUser → Text → Directory → Outcome (Unit {0})
unfolding update_role_row sync_role_tuples sync_service_principal_admin
update_body fails tu role s = and_then (update_role_row fails tu.id role s) (λ s1.
    and_then (sync_role_tuples fails tu role s1)
      (λ s2. sync_service_principal_admin fails tu.tenant_id s2))

-- the change of a role that differs
unfoldable pub change_role : (Call → Bool) → TenantUser → Text → Directory → Outcome TenantUser
unfolding update_role_row update_body
change_role fails tu role s =
    if not s.wired
    then settle_rows (with_role role tu) s.users (update_role_row fails tu.id role s)
    else settle_rows (with_role role tu) s.users (update_body fails tu role s)

unfoldable pub update_tenant_user_role :
    (Call → Bool) → Caller → Text → Text → Directory → Outcome TenantUser
unfolding require_admin valid_role resolve_subject_by_email change_role text_eq
update_tenant_user_role fails c email role s = checked s (require_admin s c) (λ u.
    if not (valid_role role)
    then (err invalid_input, s)
    else checked s (resolve_subject_by_email fails email s)
        (λ tu. if text_eq tu.role role then (ok tu, s) else change_role fails tu role s))

unfoldable pub delete_user_row : (Call → Bool) → Text → Directory → Outcome (Unit {0})
unfolding delete_where text_eq
delete_user_row fails id s =
    if fails deleting_user
    then (err call_failed, s)
    else (ok tt, record s { users = delete_where (has_user_id id) s.users })

unfoldable pub revoke_body : (Call → Bool) → TenantUser → Directory → Outcome (Unit {0})
unfolding delete_user_row delete_tuple delete_elevated role_elevated_tuple
    sync_service_principal_admin
revoke_body fails tu s = and_then (delete_user_row fails tu.id s) (λ s1.
    and_then (delete_tuple fails (tenant_member_tuple tu.tenant_id tu.id) s1) (λ s2.
      and_then (delete_elevated fails (role_elevated_tuple tu.tenant_id tu.role tu.id) s2)
        (λ s3. sync_service_principal_admin fails tu.tenant_id s3)))

unfoldable pub revoke_tenant_user : (Call → Bool) → Caller → Text → Directory → Outcome (Unit {0})
unfolding require_admin resolve_subject_by_email delete_user_row revoke_body
revoke_tenant_user fails c email s = checked s (require_admin s c) (λ u.
    checked s (resolve_subject_by_email fails email s) (λ tu.
      if not s.wired
      then settle_rows tt s.users (delete_user_row fails tu.id s)
      else settle_rows tt s.users (revoke_body fails tu s)))

-- The email is unique; `id` is the one that the database gives.
unfoldable pub create_user_row : (Call → Bool) → TenantUser → Directory → Outcome (Unit {0})
unfolding count_where text_eq
create_user_row fails tu s =
    if fails creating_user
    then (err call_failed, s)
    else if count_where (has_email tu.email) s.users == 0
    then (ok tt, record s { users = tu ∷ s.users })
    else (err call_failed, s)

-- seedTuple: an error is logged and dropped
unfoldable pub seed_tuple : (Call → Bool) → Tuple → Directory → Directory
unfolding write_tuple
seed_tuple fails t s = if not s.wired then s else (write_tuple fails t s).1

unfoldable pub seed_elevated : (Call → Bool) → Option Tuple → Directory → Directory
unfolding seed_tuple
seed_elevated fails none s = s
seed_elevated fails (some t) s = seed_tuple fails t s

-- a personal tenant has one user at most
unfoldable pub room_in_tenant : (Call → Bool) → Tenant → Directory → Result AccessError (Unit {0})
unfolding count_where text_eq
room_in_tenant fails t s =
    if not (text_eq t.tenant_type type_personal)
    then ok tt
    else if fails counting_users
    then err call_failed
    else if count_where (λ (u : TenantUser). text_eq u.tenant_id t.id) s.users == 0
    then ok tt
    else err invalid_input

unfoldable pub locked_room : (Call → Bool) → Tenant → Directory → Result AccessError (Unit {0})
unfolding room_in_tenant text_eq
locked_room fails t s =
    if text_eq t.tenant_type type_personal && fails locking_tenant
    then err call_failed
    else room_in_tenant fails t s

unfoldable pub grant_body : (Call → Bool) → Tenant → TenantUser → Directory → Outcome (Unit {0})
unfolding locked_room create_user_row write_tuple write_elevated role_elevated_tuple
    sync_service_principal_admin
grant_body fails t tu s = checked s (locked_room fails t s) (λ u.
    and_then (create_user_row fails tu s) (λ s1.
      and_then (write_tuple fails (tenant_member_tuple tu.tenant_id tu.id) s1) (λ s2.
        and_then (write_elevated fails (role_elevated_tuple tu.tenant_id tu.role tu.id) s2)
          (λ s3. sync_service_principal_admin fails tu.tenant_id s3))))

-- inside another transaction, or without a store, the tuples are seeded as well as it goes
unfoldable pub grant_seeding : (Call → Bool) → TenantUser → Directory → Outcome TenantUser
unfolding create_user_row seed_tuple seed_elevated role_elevated_tuple
grant_seeding fails tu s = and_then (create_user_row fails tu s) (λ s1.
    let s2 = seed_tuple fails (tenant_member_tuple tu.tenant_id tu.id) s1 in
    (ok tu, seed_elevated fails (role_elevated_tuple tu.tenant_id tu.role tu.id) s2))

unfoldable pub grant_tenant_user :
    (Call → Bool)
    → (in_tx : Bool) → (id : Text) → Caller
    → Text
    → Text
    → Text
    → Directory
    → Outcome TenantUser
unfolding require_admin valid_role get_tenant room_in_tenant grant_seeding grant_body text_eq
grant_tenant_user fails in_tx id c email tenant_id given s =
    let role = if text_eq given [] then role_member else given in
    let tu : TenantUser = record { id = id; email = email; tenant_id = tenant_id; role = role } in
    checked s (require_admin s c) (λ u.
      if not (valid_role role)
      then (err invalid_input, s)
      else checked s (get_tenant fails tenant_id s) (λ t. checked s (room_in_tenant fails t s) (λ v.
        if in_tx || not s.wired
        then grant_seeding fails tu s
        else settle_rows tu s.users (grant_body fails t tu s))))
