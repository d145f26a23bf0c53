-- ===== src/Authz/Model/Admins.antt =====
-- Who is an admin of a tenant, and who may edit a document.
use memory_system.Prelude.{
  ◌≡◌, refl, sym, ap, ◌∙◌, ◌⊎◌, inl, inr, subst, Text, some, List, [], ◌∷◌, text_eq, Memᴰ, arith,
  mem-cons,
}
use mathlib.Core.List.Memᴰ
use memory_system.Authz.Tuple.{Tuple, type_system, type_tenant, rel_admin, rel_system}
use memory_system.Authz.Namespace.{
  RelationDef, Rewrite, this, computed, from, relation_of, default_namespace,
}
use memory_system.Authz.Store.{Reader}
use memory_system.Authz.Check.{Node, Subject, subject_node}
use memory_system.Authz.Membership.{
  HasRule, HasTuple, userset, sibling, parent, direct, Holds, by_tuple, through,
}
use memory_system.Authz.Model.{Place, system_admin, tenant_admin, At, WellTyped}
use memory_system.Authz.Model.Inclusion.{node_at, HoldsAt, NamesExactly, wildcard_only_viewer}

module _ (read : Reader) where
  tenant_admin_def :
      (d : RelationDef) × (relation_of default_namespace type_tenant rel_admin ≡ some d)
      × (d.rewrites ≡ this ∷ from rel_system rel_admin ∷ [])
  unfolding default_namespace relation_of text_eq
  tenant_admin_def = (_, refl, refl)

  system_admin_def :
      (d : RelationDef) × (relation_of default_namespace type_system rel_admin ≡ some d)
      × (d.rewrites ≡ this ∷ [])
  unfolding default_namespace relation_of text_eq
  system_admin_def = (_, refl, refl)

  listed_in :
      (n : Node) (w : Rewrite) (d : RelationDef) (ws : List Rewrite)
      → relation_of default_namespace n.object_type n.relation ≡ some d
      → d.rewrites ≡ ws
      → HasRule default_namespace read n w
      → Memᴰ w ws
  listed_in n w d ws e f r =
      let same : r.rule_def ≡ d = ground (arith, r.rule_defined) in
      subst (Memᴰ w) (ap (λ (x : RelationDef). x.rewrites) same ∙ f) r.rule_listed

  tenant_admin_rules :
      (id : Text) (w : Rewrite)
      → HasRule default_namespace read (node_at tenant_admin id) w
      → (w ≡ this) ⊎ (w ≡ from rel_system rel_admin)
  tenant_admin_rules id w r =
      let (d, e, f) = tenant_admin_def in
      elim (mem-cons (listed_in (node_at tenant_admin id) w d _ e f r)) [
        | inl q ↦ inl q
        | inr m ↦ elim (mem-cons m) [ inl q ↦ inr q | inr z ↦ absurd (Memᴰ.not-nil z) ]
      ]

  system_admin_rules :
      (id : Text) (w : Rewrite)
      → HasRule default_namespace read (node_at system_admin id) w
      → w ≡ this
  system_admin_rules id w r =
      let (d, e, f) = system_admin_def in
      elim (mem-cons (listed_in (node_at system_admin id) w d _ e f r)) [
        | inl q ↦ q
        | inr z ↦ absurd (Memᴰ.not-nil z)
      ]

  -- A tuple on the object names the subject exactly.
  abbrev pub NamedOn : Subject → Place → Text → Type 0
  NamedOn s p id =
      (tp : Tuple) × HasTuple default_namespace read (node_at p id) (node_at p id).relation tp
      × NamesExactly s tp

  At-self : (p : Place) (id : Text) → At p (node_at p id)
  At-self p id = record { at_type = refl; at_relation = refl }

  system_admin_only :
      (s : Subject) (id : Text)
      → WellTyped read
      → HoldsAt read s system_admin id
      → NamedOn s system_admin id
  system_admin_only s id typed (by_tuple g) =
      wildcard_only_viewer read s system_admin (node_at system_admin id) (At-self system_admin id)
        (λ e. cc) g
  system_admin_only s id typed (through (userset tp r t ne e) h) =
      absurd (ne (typed.no_userset (node_at system_admin id) rel_admin tp t))
  system_admin_only s id typed (through (sibling relation r e) h) =
      cc (system_admin_rules id (computed relation) r)
  system_admin_only s id typed (through (parent ts rel tp r t em e) h) =
      cc (system_admin_rules id (from ts rel) r)

  -- Over tuples of the shapes that the program writes, the only admins of a tenant are the users that
  -- a tuple of the tenant names as admin, and those that the tenant's system object names as admin.
  pub tenant_admin_only :
      (s : Subject) (id : Text)
      → WellTyped read
      → HoldsAt read s tenant_admin id
      → NamedOn s tenant_admin id
        ⊎ ((tp : Tuple) × HasTuple default_namespace read (node_at tenant_admin id) rel_system tp
            × NamedOn s system_admin tp.subject_id)
  tenant_admin_only s id typed (by_tuple g) = inl (
      wildcard_only_viewer read s tenant_admin (node_at tenant_admin id) (At-self tenant_admin id)
        (λ e. cc) g)
  tenant_admin_only s id typed (through (userset tp r t ne e) h) =
      absurd (ne (typed.no_userset (node_at tenant_admin id) rel_admin tp t))
  tenant_admin_only s id typed (through (sibling relation r e) h) =
      elim (tenant_admin_rules id (computed relation) r) [ inl q ↦ cc | inr q ↦ cc ]
  tenant_admin_only s id typed (through (parent ts rel tp r t em e) h) =
      elim (tenant_admin_rules id (from ts rel) r) [
        | inl q ↦ cc
        | inr q ↦
            let ts_system : ts ≡ rel_system = cc in
            let rel_is_admin : rel ≡ rel_admin = cc in
            let t' =
              subst (λ (x : Text). HasTuple default_namespace read (node_at tenant_admin id) x tp)
                ts_system t in
            let typ : tp.subject_type ≡ type_system =
              typed.parent_typed (node_at tenant_admin id) rel_system type_system tp t'
                (inl (refl, refl, refl)) in
            let there : subject_node tp rel ≡ node_at system_admin tp.subject_id = ground arith in
            inr (
              tp,
              t',
              system_admin_only s tp.subject_id typed
                  (subst (Holds default_namespace read s) (e ∙ there) h),
            )
      ]

  tenant_admin_rule :
      (id : Text) (w : Rewrite)
      → Memᴰ w (this ∷ from rel_system rel_admin ∷ [])
      → HasRule default_namespace read (node_at tenant_admin id) w
  tenant_admin_rule id w i =
      let (d, e, f) = tenant_admin_def in
      record { rule_def = d; rule_defined = e; rule_listed = subst (Memᴰ w) (sym f) i }

  system_admin_rule : (id : Text) → HasRule default_namespace read (node_at system_admin id) this
  system_admin_rule id =
      let (d, e, f) = system_admin_def in
      record {
        rule_def = d;
        rule_defined = e;
        rule_listed = subst (Memᴰ this) (sym f) (Memᴰ.head refl);
      }

  -- Those that the tuples name are admins.
  pub tenant_admin_named :
      (s : Subject) (id : Text)
      → WellTyped read
      → NamedOn s tenant_admin id
        ⊎ ((tp : Tuple) × HasTuple default_namespace read (node_at tenant_admin id) rel_system tp
            × NamedOn s system_admin tp.subject_id)
      → HoldsAt read s tenant_admin id
  tenant_admin_named s id typed (inl (tp, t, (plain, typ, named))) =
      by_tuple (direct tp (tenant_admin_rule id this (Memᴰ.head refl)) t (plain, typ, inl named))
  tenant_admin_named s id typed (inr (edge, t, (tp, u, (plain, typ, named)))) =
      let parent_type : edge.subject_type ≡ type_system =
        typed.parent_typed (node_at tenant_admin id) rel_system type_system edge t
          (inl (refl, refl, refl)) in
      let there : node_at system_admin edge.subject_id ≡ subject_node edge rel_admin =
        ground arith in
      through
        (parent rel_system rel_admin edge
          (tenant_admin_rule id (from rel_system rel_admin) (Memᴰ.tail (Memᴰ.head refl))) t
          (typed.no_userset (node_at tenant_admin id) rel_system edge t) there)
        (by_tuple (direct tp (system_admin_rule edge.subject_id) u (plain, typ, inl named)))

-- Readers that agree on the admin tuples and the edges to the system have the same admins of tenants.
pub same_admins :
    (read read' : Reader) (s : Subject) (id : Text)
    → WellTyped read
    → WellTyped read'
    → ((n : Node) (relation : Text) (tp : Tuple)
        → (relation ≡ rel_admin) ⊎ (relation ≡ rel_system)
        → HasTuple default_namespace read n relation tp
        → HasTuple default_namespace read' n relation tp)
    → HoldsAt read s tenant_admin id
    → HoldsAt read' s tenant_admin id
same_admins read read' s id typed typed' same h = elim (tenant_admin_only read s id typed h) [
  | inl (tp, t, named) ↦
      tenant_admin_named read' s id typed'
        (inl (tp, same (node_at tenant_admin id) rel_admin tp (inl refl) t, named))
  | inr (edge, t, (tp, u, named)) ↦ tenant_admin_named read' s id typed' (
      inr (
        edge,
        same (node_at tenant_admin id) rel_system edge (inr refl) t,
        (tp, same (node_at system_admin edge.subject_id) rel_admin tp (inl refl) u, named),
      ))
]
