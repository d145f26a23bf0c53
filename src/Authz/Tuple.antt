-- ===== src/Authz/Tuple.antt =====
-- internal/authz/tuple.go: relation tuples and the names of types and relations.
use memory_system.Prelude.{Text, text, text_eq, not, ◌&&◌, ◌++◌, Bool, []}

abbrev pub type_user : Text
type_user = text "user"

abbrev pub type_system : Text
type_system = text "system"

abbrev pub type_tenant : Text
type_tenant = text "tenant"

abbrev pub type_document : Text
type_document = text "document"

abbrev pub rel_admin : Text
rel_admin = text "admin"

abbrev pub rel_owner : Text
rel_owner = text "owner"

abbrev pub rel_manager : Text
rel_manager = text "manager"

abbrev pub rel_member : Text
rel_member = text "member"

abbrev pub rel_viewer : Text
rel_viewer = text "viewer"

abbrev pub rel_editor : Text
rel_editor = text "editor"

abbrev pub rel_system : Text
rel_system = text "system"

abbrev pub rel_tenant : Text
rel_tenant = text "tenant"

abbrev pub system_object_id : Text
system_object_id = text "memory"

abbrev pub wildcard : Text
wildcard = text "*"

abbrev pub service_principal_prefix : Text
service_principal_prefix = text "svc:"

unfoldable pub service_principal_id : Text → Text
service_principal_id tenant_id = service_principal_prefix ++ tenant_id

pub record Tuple : Type 0 where
  pub object_type : Text
  pub object_id : Text
  pub relation : Text
  pub subject_type : Text
  pub subject_id : Text
  pub subject_relation : Text

unfoldable pub is_wildcard : Tuple → Bool
is_wildcard t = text_eq t.subject_relation [] && text_eq t.subject_id wildcard

unfoldable pub is_userset : Tuple → Bool
is_userset t = not (text_eq t.subject_relation [])
