-- ===== src/Service/Users/Tests.antt =====
-- The theorems on access, grants and users at a small directory: a tenant with an admin, and a user who
-- is made a viewer and an admin.
use memory_system.Prelude.{
  NoRepeat, ◌≡◌, ◌≢◌, ◌↔◌, ◌⊎◌, refl, Text, text, text_eq, Bool, true, false, if◌then◌else◌, Option,
  none, some, [], ◌∷◌, All, err, arith, first_where, count_where, update_where,
}
use memory_system.Authz.Tuple.{type_user, type_document, rel_viewer}
use memory_system.Authz.Store.{MemoryStore, new_memory_store, write, read_by_object_relation}
use memory_system.Authz.Store.Laws.{IsKeyed, update-IsKeyed}
use memory_system.Authz.Model.{tenant_viewer, tenant_admin}
use memory_system.Authz.Model.Inclusion.{node_at, HoldsAt}
use memory_system.Authz.Seed.{tenant_admin_tuple, tenant_system_edge}
use memory_system.Authz.Seed.Reach.{Reachable, start, wrote, system_edge}
use memory_system.Service.Access.{
  Caller, TenantUser, Directory, Call, call_failed, authorize, engine_of, read_scope, is_admin,
  require_admin, get_tenant, deleting_tuple,
}
use memory_system.Service.Access.Decides.{CallerHolds, Unfaulted}
use memory_system.Service.Access.Scopes.{Readable, Narrowed, read_scope-Readable}
use memory_system.Service.Grants.{
  grant_tenant_access, tenant_grant_tuple, tenant_subject, valid_tenant_grant_relation,
  can_grant_tenant_relation, can_manage_tenant, shared_tenant, resolve_subject_by_email,
  write_tuple, delete_tuple, has_email,
}
use memory_system.Service.Grants.Ceiling.{Delegated, Shared, grant_tenant_access-Delegated}
use memory_system.Service.Grants.Escalation.{granting}
use memory_system.Service.Grants.NoAdmins.{
  Delegations, none_yet, then_one, Sane, Delegations-admins,
}
use memory_system.Service.Users.{
  grant_tenant_user, revoke_tenant_user, role_admin, valid_role, role_elevated_tuple,
  write_elevated, remove_unless, sync_role_tuples, sync_service_principal_admin, update_role_row,
  update_body, change_role, update_tenant_user_role, with_role,
}
use memory_system.Service.Users.Reached.{
  Reached, fresh, elsewhere, granted, updated, revoked, Reached-authorize,
}
use memory_system.Service.Users.Synced.{Synced, update_tenant_user_role-Synced}
use memory_system.Service.Users.Orphan.{change_role-orphan}

abbrev t1 : Text
t1 = text "t1"

abbrev bob : TenantUser
bob = record { id = text "u2"; email = text "bob@x"; tenant_id = t1; role = text "member" }

abbrev store : MemoryStore
store = write new_memory_store (tenant_system_edge t1)

abbrev directory : Directory
directory = record {
  wired = true;
  store = store;
  read_fault = λ t i r. none;
  tenants = record { id = t1; tenant_type = text "shared" } ∷ [];
  users = bob ∷ [];
  documents = [];
}

abbrev operator : Caller
operator = record { tenant_id = t1; subject = none; local_admin = true }

abbrev calm : Call → Bool
calm q = false

store-Reachable : Reachable store
store-Reachable = wrote start (system_edge t1)

-- every deletion fails
abbrev undeleting : Call → Bool
undeleting (deleting_tuple t) = true
undeleting q = false

-- the reads about documents fail
abbrev unread : Text → Text → Text → Option Text
unread obj_type obj_id relation =
    if text_eq obj_type type_document then some (text "timeout") else none

abbrev member : Caller
member = record {
  tenant_id = t1;
  subject = some record { subject_type = text "user"; subject_id = text "u2" };
  local_admin = false;
}

-- a directory with a store, whose reads failed at first, in which a user was granted, was made an admin and was removed
abbrev reached_directory : Directory
reached_directory =
    (revoke_tenant_user calm operator (text "bob@x")
      (update_tenant_user_role undeleting operator (text "bob@x") role_admin
        (grant_tenant_user calm false (text "u2") operator (text "bob@x") t1 (text "member")
          record {
            wired = true;
            store = new_memory_store;
            read_fault = λ t i r. none;
            tenants = directory.tenants;
            users = [];
            documents = [];
          }).1).1).1

reached_directory-Reached : Reached reached_directory
reached_directory-Reached = revoked calm operator (text "bob@x") (
    updated undeleting operator (text "bob@x") role_admin (
      granted calm false (text "u2") operator (text "bob@x") t1 (text "member") (omega arith)
        (omega arith) (elsewhere directory.tenants [] (λ t i r. none) (fresh true unread))))

Reached-authorize_example :
    (authorize (engine_of reached_directory) member (node_at tenant_viewer t1) ≡ true
      → (reached_directory.wired ≡ true)
        × CallerHolds reached_directory member (node_at tenant_viewer t1))
    × (Unfaulted reached_directory
        → (reached_directory.wired ≡ true)
          × CallerHolds reached_directory member (node_at tenant_viewer t1)
        → authorize (engine_of reached_directory) member (node_at tenant_viewer t1) ≡ true)
Reached-authorize_example =
    Reached-authorize reached_directory member tenant_viewer (node_at tenant_viewer t1)
      reached_directory-Reached record { at_type = refl; at_relation = refl }

read_scope-Readable_example :
    All (Readable directory operator) (t1 ∷ []) × NoRepeat (t1 ∷ []) × Narrowed (some t1) (t1 ∷ [])
unfolding read_scope text_eq
read_scope-Readable_example =
    read_scope-Readable calm directory operator (λ x. some x) (some t1) (t1 ∷ []) store-Reachable
      refl

abbrev shared_directory : Directory
shared_directory = record directory {
  store = write store (tenant_grant_tuple t1 (text "u2") rel_viewer);
}

grant_tenant_access-Delegated_example :
    Delegated write operator t1 (text "bob@x") rel_viewer directory shared_directory
    × Shared t1 directory
unfolding grant_tenant_access tenant_subject valid_tenant_grant_relation can_grant_tenant_relation
    can_manage_tenant is_admin shared_tenant get_tenant resolve_subject_by_email write_tuple
    first_where text_eq
grant_tenant_access-Delegated_example =
    grant_tenant_access-Delegated calm operator t1 (text "bob@x") rel_viewer directory
      shared_directory store-Reachable refl

directory-IsKeyed : IsKeyed store
directory-IsKeyed =
    (update-IsKeyed new_memory_store (tenant_system_edge t1) record { entries = tt }
      (omega arith)).0

directory-Sane : Sane directory
directory-Sane = record {
  reachable = store-Reachable;
  keyed = directory-IsKeyed;
  named = (omega arith, tt);
}

one_grant :
    Delegations directory
      (grant_tenant_access calm operator t1 (text "bob@x") rel_viewer directory).1
one_grant = then_one none_yet (granting calm operator t1 (text "bob@x") rel_viewer (omega arith))

Delegations-admins_example :
    Sane (grant_tenant_access calm operator t1 (text "bob@x") rel_viewer directory).1
    × (HoldsAt
          (read_by_object_relation store)
          record { subject_type = type_user; subject_id = text "u2" }
          tenant_admin
          t1
        ↔ HoldsAt
            (read_by_object_relation
              (grant_tenant_access calm operator t1 (text "bob@x") rel_viewer directory).1.store)
            record { subject_type = type_user; subject_id = text "u2" }
            tenant_admin
            t1)
Delegations-admins_example =
    Delegations-admins directory
      (grant_tenant_access calm operator t1 (text "bob@x") rel_viewer directory).1
      record { subject_type = type_user; subject_id = text "u2" } t1 directory-Sane one_grant

abbrev admin_directory : Directory
admin_directory = (update_tenant_user_role calm operator (text "bob@x") role_admin directory).1

update_tenant_user_role-Synced_example :
    (tu : TenantUser) × (first_where (has_email (text "bob@x")) directory.users ≡ some tu)
    × (((tu.role ≡ role_admin) × (with_role role_admin bob ≡ tu) × (admin_directory ≡ directory))
        ⊎ ((tu.role ≢ role_admin)
            × (with_role role_admin bob ≡ with_role role_admin tu)
            × Synced tu role_admin directory admin_directory))
unfolding update_tenant_user_role valid_role is_admin require_admin resolve_subject_by_email
    change_role update_body update_role_row sync_role_tuples role_elevated_tuple write_elevated
    remove_unless sync_service_principal_admin write_tuple delete_tuple first_where count_where
    update_where text_eq
update_tenant_user_role-Synced_example =
    update_tenant_user_role-Synced calm operator (text "bob@x") role_admin directory admin_directory
      (with_role role_admin bob) refl directory-IsKeyed ((omega arith, omega arith), tt) refl

change_role-orphan_example : change_role undeleting bob role_admin directory ≡ (
  err call_failed,
  record directory { store = write store (tenant_admin_tuple t1 (text "u2")) },
)
change_role-orphan_example = change_role-orphan undeleting bob directory refl refl refl refl
