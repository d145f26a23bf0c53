-- ===== src/Service/Grants.antt =====
-- internal/service/memory.go: the grants of tenants and documents, and the users of tenants with their
-- roles. The transaction of the database covers the rows of the users, not the store of tuples: an error
-- takes back the rows only.
use memory_system.Prelude.{
  ℕ, ◌==◌, ltb, Text, text, text_eq, Bool, true, false, not, ◌||◌, ◌&&◌, Option, none, some, List,
  [], ◌∷◌, Result, err, ok, if◌then◌else◌, find, first_where, count_where, delete_where,
  update_where,
}
use memory_system.Authz.Tuple.{
  Tuple, type_tenant, rel_admin, rel_viewer, rel_member, rel_manager, rel_editor,
  service_principal_id,
}
use memory_system.Authz.Store.{write, delete}
use memory_system.Authz.Seed.{
  tenant_member_tuple, tenant_admin_tuple, tenant_owner_tuple, tenant_manager_tuple,
  tenant_viewer_tuple, document_viewer_tuple, document_editor_tuple, system_admin_tuple,
}
use memory_system.Service.Access.{
  Caller, Tenant, TenantUser, Directory, Call, reading_user, reading_document, creating_user,
  updating_user, deleting_user, counting_users, counting_admins, locking_tenant, writing_tuple,
  deleting_tuple, AccessError, invalid_input, invalid_relation, not_found, not_configured,
  call_failed, may, is_admin, authorize, require_admin, get_tenant,
}
pub mod Inverted
pub mod Ceiling
pub mod Escalation
pub mod NoAdmins

abbrev pub type_personal : Text
type_personal = text "personal"

-- An operation returns a result and the state after it.
abbrev pub Outcome : Type 0 → Type 0
Outcome A = Result AccessError A × Directory

-- what follows a check that changes nothing
abbrev pub checked : {A B : Type 0} → Directory → Result AccessError A → (A → Outcome B) → Outcome B
checked s (err e) f = (err e, s)
checked s (ok a) f = f a

unfoldable pub can_manage_tenant : Directory → Caller → Text → Bool
unfolding is_admin authorize
can_manage_tenant s c tenant_id = is_admin s c || may s c type_tenant tenant_id rel_manager

unfoldable pub valid_tenant_grant_relation : Text → Bool
unfolding text_eq
valid_tenant_grant_relation relation =
    text_eq relation rel_viewer || text_eq relation rel_member || text_eq relation rel_manager

unfoldable pub can_grant_tenant_relation : Directory → Caller → Text → Text → Bool
unfolding is_admin authorize can_manage_tenant text_eq
can_grant_tenant_relation s c tenant_id relation =
    if text_eq relation rel_manager
    then is_admin s c || may s c type_tenant tenant_id rel_admin
    else if text_eq relation rel_viewer || text_eq relation rel_member
    then can_manage_tenant s c tenant_id
    else false

unfoldable pub tenant_grant_tuple : Text → Text → Text → Tuple
unfolding text_eq
tenant_grant_tuple tenant_id subject_id relation =
    if text_eq relation rel_viewer
    then tenant_viewer_tuple tenant_id subject_id
    else if text_eq relation rel_manager
    then tenant_manager_tuple tenant_id subject_id
    else tenant_member_tuple tenant_id subject_id

-- email = ?
abbrev pub has_email : Text → TenantUser → Bool
has_email email u = text_eq u.email email

unfoldable pub resolve_subject_by_email :
    (Call → Bool) → Text → Directory → Result AccessError TenantUser
unfolding first_where
resolve_subject_by_email fails email s =
    if fails reading_user
    then err not_found
    else elim (first_where (has_email email) s.users) [ none ↦ err not_found | some u ↦ ok u ]

-- s.authz.Write and s.authz.Delete, where there is a store
unfoldable pub write_tuple : (Call → Bool) → Tuple → Directory → Outcome (Unit {0})
unfolding write
write_tuple fails t s =
    if fails (writing_tuple t)
    then (err call_failed, s)
    else (ok tt, record s { store = write s.store t })

unfoldable pub delete_tuple : (Call → Bool) → Tuple → Directory → Outcome (Unit {0})
unfolding delete
delete_tuple fails t s =
    if fails (deleting_tuple t)
    then (err call_failed, s)
    else (ok tt, record s { store = delete s.store t })

-- the lookup of a personal tenant's grant: shared tenants pass
unfoldable pub shared_tenant : (Call → Bool) → Text → Directory → Result AccessError (Unit {0})
unfolding get_tenant text_eq
shared_tenant fails tenant_id s = elim (get_tenant fails tenant_id s) [
  | err e ↦ err e
  | ok t ↦ if text_eq t.tenant_type type_personal then err invalid_input else ok tt
]

-- the checks of a grant or a revocation on a tenant; a revocation does not look at the tenant
unfoldable pub tenant_subject :
    (Call → Bool) → Bool → Caller → Text → Text → Text → Directory → Result AccessError TenantUser
unfolding valid_tenant_grant_relation can_grant_tenant_relation shared_tenant
    resolve_subject_by_email
tenant_subject fails granting c tenant_id email relation s =
    if not (valid_tenant_grant_relation relation)
    then err invalid_relation
    else if not (can_grant_tenant_relation s c tenant_id relation)
    then err invalid_input
    else elim (if granting then shared_tenant fails tenant_id s else ok tt) [
      | err e ↦ err e
      | ok u ↦ elim (resolve_subject_by_email fails email s) [
        | err e ↦ err e
        | ok tu ↦ if not s.wired then err not_configured else ok tu
      ]
    ]

unfoldable pub grant_tenant_access :
    (Call → Bool) → Caller → Text → Text → Text → Directory → Outcome (Unit {0})
unfolding tenant_subject tenant_grant_tuple write_tuple
grant_tenant_access fails c tenant_id email relation s =
    checked s (tenant_subject fails true c tenant_id email relation s)
      (λ tu. write_tuple fails (tenant_grant_tuple tenant_id tu.id relation) s)

unfoldable pub revoke_tenant_access :
    (Call → Bool) → Caller → Text → Text → Text → Directory → Outcome (Unit {0})
unfolding tenant_subject tenant_grant_tuple delete_tuple
revoke_tenant_access fails c tenant_id email relation s =
    checked s (tenant_subject fails false c tenant_id email relation s)
      (λ tu. delete_tuple fails (tenant_grant_tuple tenant_id tu.id relation) s)

unfoldable pub valid_document_grant_relation : Text → Bool
unfolding text_eq
valid_document_grant_relation relation = text_eq relation rel_viewer || text_eq relation rel_editor

unfoldable pub document_grant_tuple : Text → Text → Text → Tuple
unfolding text_eq
document_grant_tuple doc_id subject_id relation =
    if text_eq relation rel_editor
    then document_editor_tuple doc_id subject_id
    else document_viewer_tuple doc_id subject_id

unfoldable pub document_tenant_id : (Call → Bool) → Text → Directory → Result AccessError Text
unfolding find
document_tenant_id fails doc_id s =
    if fails reading_document
    then err call_failed
    else elim (find doc_id s.documents) [ none ↦ err not_found | some id ↦ ok id ]

unfoldable pub document_subject :
    (Call → Bool) → Caller → Text → Text → Text → Directory → Result AccessError TenantUser
unfolding valid_document_grant_relation document_tenant_id can_manage_tenant
    resolve_subject_by_email
document_subject fails c doc_id email relation s =
    if not (valid_document_grant_relation relation)
    then err invalid_relation
    else elim (document_tenant_id fails doc_id s) [
      | err e ↦ err e
      | ok tenant_id ↦
          if not (can_manage_tenant s c tenant_id)
          then err invalid_input
          else elim (resolve_subject_by_email fails email s) [
            | err e ↦ err e
            | ok tu ↦ if not s.wired then err not_configured else ok tu
          ]
    ]

unfoldable pub grant_document_access :
    (Call → Bool) → Caller → Text → Text → Text → Directory → Outcome (Unit {0})
unfolding document_subject document_grant_tuple write_tuple
grant_document_access fails c doc_id email relation s =
    checked s (document_subject fails c doc_id email relation s)
      (λ tu. write_tuple fails (document_grant_tuple doc_id tu.id relation) s)

unfoldable pub revoke_document_access :
    (Call → Bool) → Caller → Text → Text → Text → Directory → Outcome (Unit {0})
unfolding document_subject document_grant_tuple delete_tuple
revoke_document_access fails c doc_id email relation s =
    checked s (document_subject fails c doc_id email relation s)
      (λ tu. delete_tuple fails (document_grant_tuple doc_id tu.id relation) s)
