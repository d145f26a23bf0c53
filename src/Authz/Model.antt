-- ===== src/Authz/Model.antt =====
-- internal/authz/config.go: what the fixed model allows. The ten relations of the model, each with
-- its depth, as the comment on DefaultNamespace counts it.
pub mod Depth
pub mod Inclusion
pub mod Admins
use memory_system.Prelude.{ℕ, ◌<◌, ◌≡◌, refl, ◌⊎◌, Text, some, List, [], ◌∷◌, All}
use memory_system.Authz.Tuple.{
  Tuple, type_system, type_tenant, type_document, rel_admin, rel_owner, rel_manager, rel_member,
  rel_viewer, rel_editor, rel_system, rel_tenant,
}
use memory_system.Authz.Namespace.{
  RelationDef, Rewrite, this, computed, from, relation_of, default_namespace,
}
use memory_system.Authz.Store.{Reader}
use memory_system.Authz.Check.{Node}
use memory_system.Authz.Membership.{HasTuple}

pub data Place : Type 0 where
  system_admin tenant_system tenant_admin tenant_owner tenant_manager : Place
  tenant_member tenant_viewer document_tenant document_viewer document_editor : Place

abbrev pub place_type : Place → Text
place_type system_admin = type_system
place_type document_tenant = type_document
place_type document_viewer = type_document
place_type document_editor = type_document
place_type _ = type_tenant

abbrev pub place_relation : Place → Text
place_relation system_admin = rel_admin
place_relation tenant_system = rel_system
place_relation tenant_admin = rel_admin
place_relation tenant_owner = rel_owner
place_relation tenant_manager = rel_manager
place_relation tenant_member = rel_member
place_relation tenant_viewer = rel_viewer
place_relation document_tenant = rel_tenant
place_relation document_viewer = rel_viewer
place_relation document_editor = rel_editor

abbrev pub depth_of : Place → ℕ
depth_of system_admin = 0
depth_of tenant_system = 0
depth_of tenant_admin = 1
depth_of tenant_owner = 0
depth_of tenant_manager = 2
depth_of tenant_member = 3
depth_of tenant_viewer = 4
depth_of document_tenant = 0
depth_of document_viewer = 5
depth_of document_editor = 4

-- The node asks for a relation of the model.
pub record At (p : Place) (n : Node) : Type 0 where
  pub at_type : n.object_type ≡ place_type p
  pub at_relation : n.relation ≡ place_relation p

-- Objects of the first type point to objects of the second by the relation.
abbrev pub ParentEdge : Text → Text → Text → Type 0
ParentEdge t relation parent =
    ((t ≡ type_tenant) × (relation ≡ rel_system) × (parent ≡ type_system))
    ⊎ ((t ≡ type_document) × (relation ≡ rel_tenant) × (parent ≡ type_tenant))

-- Every stored tuple has the shape that the writers of the program give it: no usersets, and a
-- parent edge leads to an object of the parent's type.
pub record WellTyped (read : Reader) : Type 0 where
  pub no_userset :
      (n : Node) (relation : Text) (tp : Tuple)
      → HasTuple default_namespace read n relation tp
      → tp.subject_relation ≡ []
  pub parent_typed :
      (n : Node) (relation parent : Text) (tp : Tuple)
      → HasTuple default_namespace read n relation tp
      → ParentEdge n.object_type relation parent
      → tp.subject_type ≡ parent
