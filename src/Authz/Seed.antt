-- ===== src/Authz/Seed.antt =====
-- internal/authzseed/authzseed.go: the tuples that the program writes. A UUID is its text.
pub mod Reach
use memory_system.Prelude.{Text, text, text_eq, Option, none, some, [], if◌then◌else◌}
use memory_system.Authz.Tuple.{
  Tuple, type_user, type_system, type_tenant, type_document, rel_admin, rel_owner, rel_manager,
  rel_member, rel_viewer, rel_editor, rel_system, rel_tenant, system_object_id, wildcard,
  service_principal_id,
}

-- models.BootstrapTenantID
abbrev pub bootstrap_tenant_id : Text
bootstrap_tenant_id = text "00000000-0000-0000-0000-000000000001"

abbrev pub tenant_system_edge : Text → Tuple
tenant_system_edge tenant_id = record {
  object_type = type_tenant;
  object_id = tenant_id;
  relation = rel_system;
  subject_type = type_system;
  subject_id = system_object_id;
  subject_relation = [];
}

abbrev pub tenant_user_tuple : Text → Text → Text → Tuple
tenant_user_tuple tenant_id relation subject_id = record {
  object_type = type_tenant;
  object_id = tenant_id;
  relation = relation;
  subject_type = type_user;
  subject_id = subject_id;
  subject_relation = [];
}

abbrev pub tenant_member_tuple : Text → Text → Tuple
tenant_member_tuple tenant_id subject_id = tenant_user_tuple tenant_id rel_member subject_id

abbrev pub tenant_admin_tuple : Text → Text → Tuple
tenant_admin_tuple tenant_id subject_id = tenant_user_tuple tenant_id rel_admin subject_id

abbrev pub tenant_owner_tuple : Text → Text → Tuple
tenant_owner_tuple tenant_id subject_id = tenant_user_tuple tenant_id rel_owner subject_id

abbrev pub tenant_manager_tuple : Text → Text → Tuple
tenant_manager_tuple tenant_id subject_id = tenant_user_tuple tenant_id rel_manager subject_id

abbrev pub tenant_viewer_tuple : Text → Text → Tuple
tenant_viewer_tuple tenant_id subject_id = tenant_user_tuple tenant_id rel_viewer subject_id

abbrev pub document_tenant_edge : Text → Text → Tuple
document_tenant_edge doc_id tenant_id = record {
  object_type = type_document;
  object_id = doc_id;
  relation = rel_tenant;
  subject_type = type_tenant;
  subject_id = tenant_id;
  subject_relation = [];
}

abbrev pub document_viewer_tuple : Text → Text → Tuple
document_viewer_tuple doc_id subject_id = record {
  object_type = type_document;
  object_id = doc_id;
  relation = rel_viewer;
  subject_type = type_user;
  subject_id = subject_id;
  subject_relation = [];
}

abbrev pub document_editor_tuple : Text → Text → Tuple
document_editor_tuple doc_id subject_id = record {
  object_type = type_document;
  object_id = doc_id;
  relation = rel_editor;
  subject_type = type_user;
  subject_id = subject_id;
  subject_relation = [];
}

abbrev pub system_admin_tuple : Text → Tuple
system_admin_tuple subject_id = record {
  object_type = type_system;
  object_id = system_object_id;
  relation = rel_admin;
  subject_type = type_user;
  subject_id = subject_id;
  subject_relation = [];
}

abbrev pub common_pool_viewer_wildcard : Tuple
common_pool_viewer_wildcard = record {
  object_type = type_tenant;
  object_id = bootstrap_tenant_id;
  relation = rel_viewer;
  subject_type = type_user;
  subject_id = wildcard;
  subject_relation = [];
}

unfoldable pub api_key_subject_id : Option Text → Text → Text
unfolding service_principal_id
api_key_subject_id none tenant_id = service_principal_id tenant_id
api_key_subject_id (some subject_id) tenant_id =
    if text_eq subject_id [] then service_principal_id tenant_id else subject_id
