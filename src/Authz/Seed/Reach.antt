-- ===== src/Authz/Seed/Reach.antt =====
-- The stores that the program's writers can reach, and what a check of such a store returns.
use memory_system.Prelude.{
  ◌≡◌, ◌≢◌, ◌↔◌, refl, sym, ◌⊎◌, inl, inr, subst, Text, List, [], All, true, false, none, arith,
  text_eq, ne_of_text_eq,
}
use memory_system.Authz.Tuple.{
  Tuple, wildcard, type_system, type_tenant, type_document, rel_system, rel_tenant, rel_admin,
  rel_owner, rel_manager, rel_member, rel_viewer, rel_editor,
}
use memory_system.Authz.Namespace.{default_namespace}
use memory_system.Authz.Store.{
  MemoryStore, Reader, rows, new_memory_store, write, delete, tuple_key, read_by_object_relation,
}
use memory_system.Authz.Store.Laws.{put_key-All, remove_key-All, read-All}
use memory_system.Authz.Check.{Node, Subject, new_engine, check}
use memory_system.Authz.Check.Keys.{Lacks, Plain}
use memory_system.Authz.Check.Complete.{WellNamed, check_exact}
use memory_system.Authz.Membership.{HasTuple, Holds}
use memory_system.Authz.Model.{
  Place, place_type, place_relation, At, ParentEdge, WellTyped, system_admin,
}
use memory_system.Authz.Model.Depth.{check-none}
use memory_system.Authz.Seed.{
  bootstrap_tenant_id, tenant_user_tuple, tenant_system_edge, tenant_member_tuple,
  tenant_admin_tuple, tenant_owner_tuple, tenant_manager_tuple, tenant_viewer_tuple,
  document_tenant_edge, document_viewer_tuple, document_editor_tuple, system_admin_tuple,
  common_pool_viewer_wildcard,
}

-- The tuples of the package's constructors.
pub data Seeded : Tuple → Type 0 where
  system_edge : (tenant_id : Text) → Seeded (tenant_system_edge tenant_id)
  member : (tenant_id subject_id : Text) → Seeded (tenant_member_tuple tenant_id subject_id)
  admin : (tenant_id subject_id : Text) → Seeded (tenant_admin_tuple tenant_id subject_id)
  owner : (tenant_id subject_id : Text) → Seeded (tenant_owner_tuple tenant_id subject_id)
  manager : (tenant_id subject_id : Text) → Seeded (tenant_manager_tuple tenant_id subject_id)
  viewer : (tenant_id subject_id : Text) → Seeded (tenant_viewer_tuple tenant_id subject_id)
  tenant_edge : (doc_id tenant_id : Text) → Seeded (document_tenant_edge doc_id tenant_id)
  document_viewer : (doc_id subject_id : Text) → Seeded (document_viewer_tuple doc_id subject_id)
  document_editor : (doc_id subject_id : Text) → Seeded (document_editor_tuple doc_id subject_id)
  global_admin : (subject_id : Text) → Seeded (system_admin_tuple subject_id)
  common_pool : Seeded common_pool_viewer_wildcard

-- The stores that writes of such tuples, and deletes of any, lead to.
pub data Reachable : MemoryStore → Type 0 where
  start : Reachable new_memory_store
  wrote : {s : MemoryStore} {t : Tuple} → Reachable s → Seeded t → Reachable (write s t)
  deleted : {s : MemoryStore} (t : Tuple) → Reachable s → Reachable (delete s t)

-- What the model needs of a stored tuple.
record Shaped (t : Tuple) : Type 0 where
  direct : t.subject_relation ≡ []
  edge : (parent : Text) → ParentEdge t.object_type t.relation parent → t.subject_type ≡ parent
  type_free : Lacks b':' t.subject_type

no_edge :
    {A : Type 0} (parent : Text) (t r : Text)
    → (t ≢ type_tenant) ⊎ (r ≢ rel_system)
    → (t ≢ type_document) ⊎ (r ≢ rel_tenant)
    → ParentEdge t r parent
    → A
no_edge parent t r (inl p) q (inl e) = absurd (p e.0)
no_edge parent t r (inr p) q (inl e) = absurd (p e.1)
no_edge parent t r p (inl q) (inr e) = absurd (q e.0)
no_edge parent t r p (inr q) (inr e) = absurd (q e.1)

plain_Shaped :
    (t : Tuple)
    → t.subject_relation ≡ []
    → Lacks b':' t.subject_type
    → (t.object_type ≢ type_tenant) ⊎ (t.relation ≢ rel_system)
    → (t.object_type ≢ type_document) ⊎ (t.relation ≢ rel_tenant)
    → Shaped t
plain_Shaped t d l p q = record {
  direct = d;
  edge = λ parent e. no_edge parent t.object_type t.relation p q e;
  type_free = l;
}

tenant_Shaped :
    (tenant_id relation subject_id : Text)
    → text_eq relation rel_system ≡ false
    → Shaped (tenant_user_tuple tenant_id relation subject_id)
unfolding text_eq
tenant_Shaped tenant_id relation subject_id h =
    plain_Shaped (tenant_user_tuple tenant_id relation subject_id) refl (omega arith)
      (inr (ne_of_text_eq relation rel_system h))
      (inl (ne_of_text_eq type_tenant type_document refl))

Seeded-Shaped : {t : Tuple} → Seeded t → Shaped t
unfolding text_eq
Seeded-Shaped (system_edge _) = record {
  direct = refl;
  edge = λ parent e. elim e [
    | inl h ↦ sym h.2
    | inr h ↦ absurd (ne_of_text_eq type_tenant type_document refl h.0)
  ];
  type_free = omega arith;
}
Seeded-Shaped (tenant_edge _ _) = record {
  direct = refl;
  edge = λ parent e. elim e [
    | inl h ↦ absurd (ne_of_text_eq type_document type_tenant refl h.0)
    | inr h ↦ sym h.2
  ];
  type_free = omega arith;
}
Seeded-Shaped (member i s) = tenant_Shaped i rel_member s refl
Seeded-Shaped (admin i s) = tenant_Shaped i rel_admin s refl
Seeded-Shaped (owner i s) = tenant_Shaped i rel_owner s refl
Seeded-Shaped (manager i s) = tenant_Shaped i rel_manager s refl
Seeded-Shaped (viewer i s) = tenant_Shaped i rel_viewer s refl
Seeded-Shaped common_pool = tenant_Shaped bootstrap_tenant_id rel_viewer wildcard refl
Seeded-Shaped (document_viewer i s) =
    plain_Shaped (document_viewer_tuple i s) refl (omega arith)
      (inl (ne_of_text_eq type_document type_tenant refl))
      (inr (ne_of_text_eq rel_viewer rel_tenant refl))
Seeded-Shaped (document_editor i s) =
    plain_Shaped (document_editor_tuple i s) refl (omega arith)
      (inl (ne_of_text_eq type_document type_tenant refl))
      (inr (ne_of_text_eq rel_editor rel_tenant refl))
Seeded-Shaped (global_admin s) =
    plain_Shaped (system_admin_tuple s) refl (omega arith)
      (inl (ne_of_text_eq type_system type_tenant refl))
      (inl (ne_of_text_eq type_system type_document refl))

Reachable-Shaped : {s : MemoryStore} → Reachable s → All (λ e. Shaped e.1) s.tuples
unfolding write delete
Reachable-Shaped start = tt
Reachable-Shaped (wrote {s} {t} r h) =
    put_key-All (λ e. Shaped e.1) (tuple_key t) t s.tuples (Seeded-Shaped h) (Reachable-Shaped r)
Reachable-Shaped (deleted {s} t r) =
    remove_key-All (λ e. Shaped e.1) (tuple_key t) s.tuples (Reachable-Shaped r)

module _ (s : MemoryStore) (r : Reachable s) where
  abbrev pub read : Reader
  read = read_by_object_relation s

  stored_Shaped :
      (n : Node) (relation : Text) (tp : Tuple)
      → HasTuple default_namespace read n relation tp
      → Shaped tp
        × (tp.object_type ≡ n.object_type)
        × (tp.object_id ≡ n.object_id)
        × (tp.relation ≡ relation)
  stored_Shaped n relation tp t =
      read-All Shaped s n.object_type n.object_id relation t.stored tp (Reachable-Shaped r)
        t.stored_read t.stored_listed

  pub Reachable-WellTyped : WellTyped read
  Reachable-WellTyped = record {
    no_userset = λ n relation tp t. (stored_Shaped n relation tp t).0.direct;
    parent_typed = λ n relation parent tp t e.
        let (h, ot, oi, rel) = stored_Shaped n relation tp t in
        h.edge parent (
          subst (λ (x : Text). ParentEdge x tp.relation parent) (sym ot)
            (subst (λ (x : Text). ParentEdge n.object_type x parent) (sym rel) e));
  }

  pub Reachable-WellNamed : WellNamed default_namespace read
  unfolding default_namespace
  Reachable-WellNamed = record {
    rules_plain = omega arith;
    tuples_plain = λ n relation tp t.
        let h = (stored_Shaped n relation tp t).0 in
        (h.type_free, subst (Lacks b'#') (sym h.direct) tt);
  }

place-Plain : (p : Place) → Lacks b':' (place_type p) × Lacks b'#' (place_relation p)
place-Plain system_admin = omega arith
place-Plain _ = omega arith

pub At-Plain : (p : Place) (n : Node) → At p n → Plain n
At-Plain p n a = record {
  type_plain = subst (Lacks b':') (sym a.at_type) (place-Plain p).0;
  relation_plain = subst (Lacks b'#') (sym a.at_relation) (place-Plain p).1;
}

pub reads :
    (s : MemoryStore) (obj_type obj_id relation : Text)
    → (ts : List Tuple) × (read_by_object_relation s obj_type obj_id relation ≡ rows ts)
unfolding read_by_object_relation
reads s obj_type obj_id relation = (_, refl)

-- In every store that writes of the program's tuples and any deletes lead to, a check of a relation
-- of the model returns no error, and grants exactly when the subject holds the relation.
pub Reachable-check_decides :
    (s : MemoryStore) (p : Place) (n : Node) (subject : Subject)
    → Reachable s
    → At p n
    → ((check (new_engine (read_by_object_relation s)) n subject).error ≡ none)
      × (((check (new_engine (read_by_object_relation s)) n subject).granted ≡ true)
          ↔ Holds default_namespace (read_by_object_relation s) subject n)
unfolding new_engine
Reachable-check_decides s p n subject r a =
    let clean =
      check-none (read_by_object_relation s) p n subject (reads s) (Reachable-WellTyped s r) a in
    (
      clean,
      check_exact (new_engine (read_by_object_relation s)) n subject (Reachable-WellNamed s r)
          (At-Plain p n a) clean,
    )
