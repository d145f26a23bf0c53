-- ===== src/Authz/Model/Inclusion.antt =====
-- Who holds what under the fixed model: the inclusion chains that the comment on DefaultNamespace
-- lists, and their limits.
use memory_system.Prelude.{
  ◌≡◌, ◌≢◌, refl, ◌⊎◌, inl, inr, subst, Text, some, [], ◌∷◌, ◌++◌, All, All-mem, text_eq, Memᴰ,
  arith,
}
use memory_system.Authz.Tuple.{Tuple, rel_admin, rel_owner, rel_manager, rel_member, wildcard}
use memory_system.Authz.Namespace.{RelationDef, Rewrite, computed, relation_of, default_namespace}
use memory_system.Authz.Store.{Reader}
use memory_system.Authz.Check.{Node, Subject}
use memory_system.Authz.Check.Keys.{Lacks, not-Lacks_middle}
use memory_system.Authz.Membership.{HasRule, HasTuple, Grants, direct, sibling, Holds, through}
use memory_system.Authz.Model.{
  Place, system_admin, tenant_system, tenant_admin, tenant_owner, tenant_manager, tenant_member,
  tenant_viewer, document_tenant, document_viewer, document_editor, place_type, place_relation, At,
}

-- `id` at a relation of the model
abbrev pub node_at : Place → Text → Node
node_at p id = record { object_type = place_type p; object_id = id; relation = place_relation p }

-- The tuple names the subject by its own id.
abbrev pub NamesExactly : Subject → Tuple → Type 0
NamesExactly s tp =
    (tp.subject_relation ≡ []) × (tp.subject_type ≡ s.subject_type) × (tp.subject_id ≡ s.subject_id)

module _ (read : Reader) where
  abbrev pub HoldsAt : Subject → Place → Text → Type 0
  HoldsAt s p id = Holds default_namespace read s (node_at p id)

  abbrev Rule : Place → Text → Rewrite → Type 0
  Rule p id w = HasRule default_namespace read (node_at p id) w

  from_sibling :
      (s : Subject) (n : Node) (relation : Text)
      → HasRule default_namespace read n (computed relation)
      → Holds default_namespace read s (record n { relation = relation })
      → Holds default_namespace read s n
  from_sibling s n relation r h = through (sibling relation r refl) h

  manager_rules :
      (id : Text)
      → Rule tenant_manager id (computed rel_admin) × Rule tenant_manager id (computed rel_owner)
  unfolding default_namespace relation_of text_eq
  manager_rules id = (
    record { rule_def = _; rule_defined = refl; rule_listed = Memᴰ.tail (Memᴰ.head refl) },
    record {
      rule_def = _;
      rule_defined = refl;
      rule_listed = Memᴰ.tail (Memᴰ.tail (Memᴰ.head refl));
    },
  )

  member-Rule : (id : Text) → Rule tenant_member id (computed rel_manager)
  unfolding default_namespace relation_of text_eq
  member-Rule id = record {
    rule_def = _;
    rule_defined = refl;
    rule_listed = Memᴰ.tail (Memᴰ.head refl);
  }

  viewer-Rule : (id : Text) → Rule tenant_viewer id (computed rel_member)
  unfolding default_namespace relation_of text_eq
  viewer-Rule id = record {
    rule_def = _;
    rule_defined = refl;
    rule_listed = Memᴰ.tail (Memᴰ.head refl);
  }

  -- An admin or an owner of a tenant is its manager, its member and its viewer.
  pub tenant_chain :
      (s : Subject) (id : Text)
      → HoldsAt s tenant_admin id ⊎ HoldsAt s tenant_owner id
      → HoldsAt s tenant_manager id × HoldsAt s tenant_member id × HoldsAt s tenant_viewer id
  tenant_chain s id h =
      let manager : HoldsAt s tenant_manager id = elim h [
        | inl a ↦ from_sibling s (node_at tenant_manager id) rel_admin (manager_rules id).0 a
        | inr o ↦ from_sibling s (node_at tenant_manager id) rel_owner (manager_rules id).1 o
      ] in
      let member = from_sibling s (node_at tenant_member id) rel_manager (member-Rule id) manager in
      (
        manager,
        member,
        from_sibling s (node_at tenant_viewer id) rel_member (viewer-Rule id) member,
      )

  -- A direct subject spec that can stand for everyone is listed at tenant#viewer only.
  abbrev SpecOk : Place → Text → Type 0
  SpecOk p spec = Lacks b':' spec ⊎ (p ≡ tenant_viewer)

  place-SpecOk :
      (p : Place)
      → (d : RelationDef) × (relation_of default_namespace (place_type p) (place_relation p)
          ≡ some d)
        × All (SpecOk p) d.direct_subjects
  unfolding default_namespace relation_of text_eq
  place-SpecOk tenant_viewer = (_, refl, (inr refl, (inr refl, tt)))
  place-SpecOk system_admin = (_, refl, (inl (omega arith), tt))
  place-SpecOk tenant_system = (_, refl, (inl (omega arith), tt))
  place-SpecOk tenant_admin = (_, refl, (inl (omega arith), tt))
  place-SpecOk tenant_owner = (_, refl, (inl (omega arith), tt))
  place-SpecOk tenant_manager = (_, refl, (inl (omega arith), tt))
  place-SpecOk tenant_member = (_, refl, (inl (omega arith), tt))
  place-SpecOk document_tenant = (_, refl, (inl (omega arith), tt))
  place-SpecOk document_viewer = (_, refl, (inl (omega arith), tt))
  place-SpecOk document_editor = (_, refl, (inl (omega arith), tt))

  -- A tuple that grants a relation of the model other than tenant#viewer names the subject itself:
  -- a wildcard tuple, were one written, grants nothing there.
  pub wildcard_only_viewer :
      (s : Subject) (p : Place) (n : Node)
      → At p n
      → p ≢ tenant_viewer
      → Grants default_namespace read s n
      → (tp : Tuple) × HasTuple default_namespace read n n.relation tp × NamesExactly s tp
  wildcard_only_viewer s p n a ne (direct tp r t (plain, typ, inl e)) = (tp, t, (plain, typ, e))
  wildcard_only_viewer s p n a ne (direct tp r t (plain, typ, inr (_, listed))) =
      let (d, e, ok) = place-SpecOk p in
      let e' : relation_of default_namespace n.object_type n.relation ≡ some d =
        rw (a.at_type, a.at_relation) e in
      let same : r.rule_def ≡ d = ground (arith, r.rule_defined) in
      elim (All-mem (SpecOk p) _ d.direct_subjects ok (
        subst (λ (x : RelationDef). Memᴰ (s.subject_type ++ (b':' ∷ wildcard)) x.direct_subjects)
          same listed)) [
            | inl plain_spec ↦ absurd (not-Lacks_middle b':' s.subject_type wildcard plain_spec)
            | inr v ↦ absurd (ne v)
          ]
