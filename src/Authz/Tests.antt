-- ===== src/Authz/Tests.antt =====
-- The authorization theorems at a small store: a tenant with an admin, its parent edges, a document,
-- the public common pool and a global admin.
use memory_system.Prelude.{
  ◌≡◌, ◌≢◌, ◌↔◌, ◌⊎◌, inl, refl, Text, text, text_eq, true, false, none, Memᴰ, arith,
}
use memory_system.Authz.Tuple.{Tuple, type_user, type_tenant, rel_admin, rel_system}
use memory_system.Authz.Namespace.{default_namespace, relation_of}
use memory_system.Authz.Store.{
  MemoryStore, new_memory_store, write, delete, read_by_object_relation,
}
use memory_system.Authz.Store.Laws.{
  IsKeyed, update-IsKeyed, read-write, read-delete, ReadsBack, OnObject,
}
use memory_system.Authz.Check.{Subject, Engine, new_engine, check}
use memory_system.Authz.Check.Sound.{check-Holds}
use memory_system.Authz.Check.Complete.{check_exact}
use memory_system.Authz.Membership.{Grants, direct, HasTuple, Holds}
use memory_system.Authz.Model.{
  Place, tenant_admin, tenant_manager, tenant_member, tenant_viewer, system_admin, document_editor,
  document_viewer, At,
}
use memory_system.Authz.Model.Depth.{check-none}
use memory_system.Authz.Model.Inclusion.{
  node_at, HoldsAt, NamesExactly, tenant_chain, wildcard_only_viewer,
}
use memory_system.Authz.Model.Admins.{NamedOn, tenant_admin_only}
use memory_system.Authz.Seed.{
  tenant_system_edge, tenant_admin_tuple, document_tenant_edge, system_admin_tuple,
  common_pool_viewer_wildcard,
}
use memory_system.Authz.Seed.Reach.{
  Reachable, start, wrote, system_edge, admin, tenant_edge, global_admin, common_pool,
  Reachable-check_decides, Reachable-WellTyped, Reachable-WellNamed, At-Plain, reads,
}

abbrev t1 : Text
t1 = text "t1"

abbrev alice : Text
alice = text "alice"

abbrev root : Text
root = text "root"

abbrev user : Text → Subject
user id = record { subject_type = type_user; subject_id = id }

abbrev small : MemoryStore
small =
    write
      (write
        (write
          (write (write new_memory_store (tenant_system_edge t1)) (tenant_admin_tuple t1 alice))
          (document_tenant_edge (text "d1") t1))
        (system_admin_tuple root))
      common_pool_viewer_wildcard

small-Reachable : Reachable small
small-Reachable =
    wrote
      (wrote
        (wrote (wrote (wrote start (system_edge t1)) (admin t1 alice)) (tenant_edge (text "d1") t1))
        (global_admin root))
      common_pool

abbrev engine : Engine
engine = new_engine (read_by_object_relation small)

at : (p : Place) (id : Text) → At p (node_at p id)
at p id = record { at_type = refl; at_relation = refl }

alice_is_admin : (check engine (node_at tenant_admin t1) (user alice)).granted ≡ true
unfolding check new_engine read_by_object_relation write text_eq default_namespace
alice_is_admin = refl

-- a global admin reads a document five rules deep, and a stranger does not
deep_checks :
    ((check engine (node_at document_viewer (text "d1")) (user root)).granted ≡ true)
    × ((check engine (node_at document_viewer (text "d1")) (user (text "bob"))).granted ≡ false)
unfolding check new_engine read_by_object_relation write text_eq default_namespace
deep_checks = (refl, refl)

alice_holds : HoldsAt (read_by_object_relation small) (user alice) tenant_admin t1
unfolding new_engine
alice_holds =
    (Reachable-check_decides small tenant_admin (node_at tenant_admin t1) (user alice)
        small-Reachable (at tenant_admin t1)).1.0
      alice_is_admin

Reachable-check_decides_example :
    ((check engine (node_at document_editor (text "d1")) (user alice)).error ≡ none)
    × (((check engine (node_at document_editor (text "d1")) (user alice)).granted ≡ true)
        ↔ Holds default_namespace
            (read_by_object_relation small)
            (user alice)
            (node_at document_editor (text "d1")))
Reachable-check_decides_example =
    Reachable-check_decides small document_editor (node_at document_editor (text "d1")) (user alice)
      small-Reachable (at document_editor (text "d1"))

check-Holds_example : Holds engine.ns engine.store (user alice) (node_at tenant_admin t1)
check-Holds_example = check-Holds engine (node_at tenant_admin t1) (user alice) alice_is_admin

check-none_example : (check engine (node_at tenant_viewer t1) (user root)).error ≡ none
check-none_example =
    check-none (read_by_object_relation small) tenant_viewer (node_at tenant_viewer t1) (user root)
      (reads small) (Reachable-WellTyped small small-Reachable) (at tenant_viewer t1)

check_exact_example :
    ((check engine (node_at tenant_viewer t1) (user root)).granted ≡ true)
    ↔ Holds engine.ns engine.store (user root) (node_at tenant_viewer t1)
unfolding new_engine
check_exact_example =
    check_exact engine (node_at tenant_viewer t1) (user root)
      (Reachable-WellNamed small small-Reachable)
      (At-Plain tenant_viewer (node_at tenant_viewer t1) (at tenant_viewer t1)) check-none_example

tenant_chain_example :
    HoldsAt (read_by_object_relation small) (user alice) tenant_manager t1
    × HoldsAt (read_by_object_relation small) (user alice) tenant_member t1
    × HoldsAt (read_by_object_relation small) (user alice) tenant_viewer t1
tenant_chain_example =
    tenant_chain (read_by_object_relation small) (user alice) t1 (inl alice_holds)

tenant_admin_only_example :
    NamedOn (read_by_object_relation small) (user alice) tenant_admin t1
    ⊎ ((tp : Tuple) × HasTuple default_namespace
          (read_by_object_relation small)
          (node_at tenant_admin t1)
          rel_system
          tp
        × NamedOn (read_by_object_relation small) (user alice) system_admin tp.subject_id)
tenant_admin_only_example =
    tenant_admin_only (read_by_object_relation small) (user alice) t1
      (Reachable-WellTyped small small-Reachable) alice_holds

alice_grant :
    Grants default_namespace (read_by_object_relation small) (user alice) (node_at tenant_admin t1)
unfolding default_namespace relation_of read_by_object_relation write text_eq
alice_grant =
    direct (tenant_admin_tuple t1 alice)
      (record { rule_def = _; rule_defined = refl; rule_listed = Memᴰ.head refl })
      (record { stored = _; stored_read = refl; stored_listed = Memᴰ.head refl })
      (refl, refl, inl refl)

wildcard_only_viewer_example :
    (tp : Tuple) × HasTuple default_namespace
      (read_by_object_relation small)
      (node_at tenant_admin t1)
      rel_admin
      tp
    × NamesExactly (user alice) tp
wildcard_only_viewer_example =
    wildcard_only_viewer (read_by_object_relation small) (user alice) tenant_admin
      (node_at tenant_admin t1) (at tenant_admin t1) (λ e. cc) alice_grant

abbrev alone : MemoryStore
alone = write new_memory_store (tenant_admin_tuple t1 alice)

new-IsKeyed : IsKeyed new_memory_store
new-IsKeyed = record { entries = tt }

alone-IsKeyed : IsKeyed alone × IsKeyed (delete new_memory_store (tenant_admin_tuple t1 alice))
alone-IsKeyed =
    update-IsKeyed new_memory_store (tenant_admin_tuple t1 alice) new-IsKeyed (omega arith)

read-write_example : ReadsBack type_tenant t1 rel_admin (tenant_admin_tuple t1 alice) alone ↔ (
    ((tenant_admin_tuple t1 alice ≡ tenant_admin_tuple t1 alice)
      × OnObject type_tenant t1 rel_admin (tenant_admin_tuple t1 alice))
    ⊎ ReadsBack type_tenant t1 rel_admin (tenant_admin_tuple t1 alice) new_memory_store)
read-write_example =
    read-write new_memory_store (tenant_admin_tuple t1 alice) (tenant_admin_tuple t1 alice)
      type_tenant t1 rel_admin new-IsKeyed (omega arith)

read-delete_example :
    ReadsBack type_tenant t1 rel_admin
      (tenant_admin_tuple t1 root)
      (delete alone (tenant_admin_tuple t1 alice))
    ↔ (ReadsBack type_tenant t1 rel_admin (tenant_admin_tuple t1 root) alone
        × (tenant_admin_tuple t1 root ≢ tenant_admin_tuple t1 alice))
read-delete_example =
    read-delete alone (tenant_admin_tuple t1 alice) (tenant_admin_tuple t1 root) type_tenant t1
      rel_admin alone-IsKeyed.0 (omega arith)
