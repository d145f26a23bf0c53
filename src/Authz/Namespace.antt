-- ===== src/Authz/Namespace.antt =====
-- internal/authz/config.go: rewrite rules, relation definitions and the fixed model.
unfoldable pub use memory_system.Prelude.{find}
use memory_system.Prelude.{Text, text, ◌++◌, Option, none, some, List, [], ◌∷◌}
use memory_system.Authz.Tuple.{
  type_user, type_system, type_tenant, type_document, rel_admin, rel_owner, rel_manager, rel_member,
  rel_viewer, rel_editor, rel_system, rel_tenant, wildcard,
}

pub data Rewrite : Type 0 where
  this : Rewrite
  computed : Text → Rewrite
  from : Text → Text → Rewrite

pub record RelationDef : Type 0 where
  pub name : Text
  pub direct_subjects : List Text
  pub rewrites : List Rewrite

pub record TypeDef : Type 0 where
  pub name : Text
  pub relations : List (Text × RelationDef)

pub record Namespace : Type 0 where
  pub types : List (Text × TypeDef)

unfoldable pub relation_of : Namespace → Text → Text → Option RelationDef
unfolding find
relation_of ns obj_type relation = elim (find obj_type ns.types) [
  | none ↦ none
  | some t ↦ find relation t.relations
]

abbrev def : Text → List Text → List Rewrite → Text × RelationDef
def n subjects rewrites = (n, record { name = n; direct_subjects = subjects; rewrites = rewrites })

abbrev typedef : Text → List (Text × RelationDef) → Text × TypeDef
typedef n relations = (n, record { name = n; relations = relations })

unfoldable pub default_namespace : Namespace
default_namespace = record {
  types =
      typedef type_user []
      ∷ typedef type_system (def rel_admin (type_user ∷ []) (this ∷ []) ∷ [])
      ∷ typedef type_tenant (
          def rel_system (type_system ∷ []) (this ∷ [])
          ∷ def rel_admin (type_user ∷ []) (this ∷ from rel_system rel_admin ∷ [])
          ∷ def rel_owner (type_user ∷ []) (this ∷ [])
          ∷ def rel_manager (type_user ∷ []) (this ∷ computed rel_admin ∷ computed rel_owner ∷ [])
          ∷ def rel_member (type_user ∷ []) (this ∷ computed rel_manager ∷ [])
          ∷ def rel_viewer (type_user ∷ (type_user ++ text ":" ++ wildcard) ∷ [])
              (this ∷ computed rel_member ∷ [])
          ∷ [])
      ∷ typedef type_document (
          def rel_tenant (type_tenant ∷ []) (this ∷ [])
          ∷ def rel_viewer (type_user ∷ [])
              (this ∷ computed rel_editor ∷ from rel_tenant rel_viewer ∷ [])
          ∷ def rel_editor (type_user ∷ []) (this ∷ from rel_tenant rel_member ∷ [])
          ∷ [])
      ∷ [];
}
