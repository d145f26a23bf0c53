-- ===== src/Service/Access.antt =====
-- internal/service/memory.go: the gates of the service and the tenants that a request spans. The state is
-- what the gates read and the grants change; a UUID is its canonical text, and uuid.Parse a parameter.
-- The tuple store holds what the one in memory does, and which of the reads of a check fail is a part of
-- the state. The audit of a read of another tenant is not modelled.
use memory_system.Prelude.{
  is_seen, Text, text, text_eq, Bool, true, false, not, ◌||◌, ◌&&◌, Option, none, some, List, [],
  ◌∷◌, ◌++◌, Result, err, ok, ◌>>=◌, if◌then◌else◌, first_where,
}
use memory_system.Authz.Tuple.{
  Tuple, type_system, type_tenant, rel_admin, rel_viewer, system_object_id,
}
use memory_system.Authz.Store.{
  MemoryStore, Reader, failed, read_by_object_relation, read_by_subject,
}
use memory_system.Authz.Check.{Node, Subject, new_engine, check}
use memory_system.Authz.Seed.{bootstrap_tenant_id}
pub mod Decides
pub mod Scopes

abbrev pub nil_uuid : Text
nil_uuid = text "00000000-0000-0000-0000-000000000000"

-- What the context of a request carries.
pub record Caller : Type 0 where
  pub tenant_id : Text
  pub subject : Option Subject
  pub local_admin : Bool

pub record Tenant : Type 0 where
  pub id : Text
  pub tenant_type : Text

pub record TenantUser : Type 0 where
  pub id : Text
  pub email : Text
  pub tenant_id : Text
  pub role : Text

-- `wired` is whether the service has a tuple store, and so an engine. `read_fault` is the error, if any,
-- that the store's ReadByObjectRelation returns for an object's type, its id and a relation.
pub record Directory : Type 0 where
  pub wired : Bool
  pub store : MemoryStore
  pub read_fault : Text → Text → Text → Option Text
  pub tenants : List Tenant
  pub users : List TenantUser
  pub documents : List (Text × Text)

-- The calls that may fail.
pub data Call : Type 0 where
  reading_tenant : Call
  reading_user : Call
  reading_document : Call
  reading_tuples : Call
  creating_user : Call
  updating_user : Call
  deleting_user : Call
  counting_users : Call
  locking_tenant : Call
  counting_admins : Call
  writing_tuple : Tuple → Call
  deleting_tuple : Tuple → Call

pub data AccessError : Type 0 where
  invalid_input : AccessError
  invalid_relation : AccessError
  not_found : AccessError
  not_configured : AccessError
  call_failed : AccessError

unfoldable pub authorize : Option Reader → Caller → Node → Bool
unfolding check new_engine text_eq
authorize none c n = false
authorize (some read) c n = elim c.subject [
  | none ↦ false
  | some subj ↦
      if text_eq subj.subject_id []
      then false
      else let a = check (new_engine read) n subj in
        elim a.error [ some _ ↦ false | none ↦ a.granted ]
]

-- the store as a check reads it
abbrev pub reads_of : Directory → Reader
reads_of s obj_type obj_id relation = elim (s.read_fault obj_type obj_id relation) [
  | some e ↦ failed e
  | none ↦ read_by_object_relation s.store obj_type obj_id relation
]

abbrev pub engine_of : Directory → Option Reader
engine_of s = if s.wired then some (reads_of s) else none

-- authorize of the service
abbrev pub may : Directory → Caller → Text → Text → Text → Bool
may s c obj_type obj_id relation =
    authorize (engine_of s) c
      record { object_type = obj_type; object_id = obj_id; relation = relation }

unfoldable pub is_admin : Directory → Caller → Bool
unfolding authorize
is_admin s c = c.local_admin || may s c type_system system_object_id rel_admin

unfoldable pub require_admin : Directory → Caller → Result AccessError (Unit {0})
unfolding is_admin
require_admin s c = if is_admin s c then ok tt else err invalid_input

unfoldable pub get_tenant : (Call → Bool) → Text → Directory → Result AccessError Tenant
unfolding first_where text_eq
get_tenant fails id s =
    if fails reading_tenant
    then err call_failed
    else elim (first_where (λ (t : Tenant). text_eq t.id id) s.tenants) [
      | none ↦ err not_found
      | some t ↦ ok t
    ]

-- the target of an override, any error of its lookup being the caller's
unfoldable pub existing_target : (Call → Bool) → Text → Directory → Result AccessError Text
unfolding get_tenant
existing_target fails id s = elim (get_tenant fails id s) [
  | err e ↦ err invalid_input
  | ok t ↦ ok id
]

unfoldable pub resolve_tenant :
    (Call → Bool) → Directory → Caller → Option Text → Result AccessError Text
unfolding existing_target is_admin text_eq
resolve_tenant fails s c none =
    if text_eq c.tenant_id nil_uuid then err invalid_input else ok c.tenant_id
resolve_tenant fails s c (some id) =
    if text_eq c.tenant_id nil_uuid
    then err invalid_input
    else if is_admin s c
    then existing_target fails id s
    else err invalid_input

unfoldable pub resolve_write_scope :
    (Call → Bool) → Directory → Caller → Option Text → Text → Result AccessError Text
unfolding existing_target is_admin authorize text_eq
resolve_write_scope fails s c none floor =
    if text_eq c.tenant_id nil_uuid then err invalid_input else ok c.tenant_id
resolve_write_scope fails s c (some id) floor =
    if text_eq c.tenant_id nil_uuid
    then err invalid_input
    else if not (is_admin s c) && not (may s c type_tenant id floor)
    then err invalid_input
    else existing_target fails id s

-- `add` of the source, whose set holds what its list holds
unfoldable pub add_tenant : Text → List Text → List Text
unfolding is_seen
add_tenant id out = if is_seen id out then out else out ++ (id ∷ [])

-- one tuple of the caller; `parse` is uuid.Parse, and answers in the canonical form
unfoldable pub readable_step :
    Directory → Caller → (Text → Option Text) → Tuple → List Text → List Text
unfolding is_seen add_tenant authorize text_eq
readable_step s c parse t out =
    if not (text_eq t.object_type type_tenant) then out else elim (parse t.object_id) [
      | none ↦ out
      | some tid ↦
          if is_seen tid out
          then out
          else if not (may s c type_tenant tid rel_viewer)
          then out
          else add_tenant tid out
    ]

unfoldable pub readable_loop :
    Directory → Caller → (Text → Option Text) → List Tuple → List Text → List Text
unfolding readable_step
readable_loop s c parse [] out = out
readable_loop s c parse (t ∷ ts) out = readable_loop s c parse ts (readable_step s c parse t out)

unfoldable pub readable_of_subject :
    (Call → Bool)
    → Directory
    → Caller
    → (Text → Option Text)
    → List Text
    → Result AccessError (List Text)
unfolding readable_loop read_by_subject text_eq
readable_of_subject fails s c parse base = elim c.subject [
  | none ↦ ok base
  | some subj ↦
      if text_eq subj.subject_id []
      then ok base
      else if fails reading_tuples
      then err call_failed
      else ok
          (readable_loop s c parse (read_by_subject s.store subj.subject_type subj.subject_id) base)
]

unfoldable pub readable_tenants :
    (Call → Bool) → Directory → Caller → (Text → Option Text) → Result AccessError (List Text)
unfolding add_tenant readable_of_subject text_eq
readable_tenants fails s c parse =
    if text_eq c.tenant_id nil_uuid
    then err invalid_input
    else let base = add_tenant bootstrap_tenant_id (add_tenant c.tenant_id []) in
      if not s.wired then ok base else readable_of_subject fails s c parse base

unfoldable pub read_scope :
    (Call → Bool)
    → Directory
    → Caller
    → (Text → Option Text)
    → Option Text
    → Result AccessError (List Text)
unfolding readable_tenants authorize text_eq
read_scope fails s c parse none = readable_tenants fails s c parse
read_scope fails s c parse (some id) =
    if text_eq c.tenant_id nil_uuid
    then err invalid_input
    else if text_eq id c.tenant_id || text_eq id bootstrap_tenant_id
    then ok (id ∷ [])
    else if may s c type_tenant id rel_viewer
    then ok (id ∷ [])
    else ok []
