-- ===== src/Authz/Model/Depth.antt =====
-- The default depth cap is never met over tuples of the shapes that the program writes.
use memory_system.Prelude.{
  ℕ, ◌<◌, ◌≡◌, refl, sym, ◌∙◌, inl, inr, subst, Text, none, some, List, [], All, All-mem, text_eq,
  Memᴰ, arith,
}
use memory_system.Authz.Tuple.{Tuple}
use memory_system.Authz.Namespace.{
  RelationDef, Rewrite, this, computed, from, relation_of, default_namespace,
}
use memory_system.Authz.Store.{Reader, rows}
use memory_system.Authz.Check.{Node, Subject, new_engine, check}
use memory_system.Authz.Check.Total.{check_node-none}
use memory_system.Authz.Membership.{HasRule, Includes, userset, sibling, parent}
use memory_system.Authz.Model.{
  Place, system_admin, tenant_system, tenant_admin, tenant_owner, tenant_manager, tenant_member,
  tenant_viewer, document_tenant, document_viewer, document_editor, place_type, place_relation,
  depth_of, At, ParentEdge, WellTyped,
}

-- The rule leads to a relation of the model that lies less deep.
abbrev pub Falls : Place → Rewrite → Type 0
Falls p this = Unit
Falls p (computed relation) =
    (q : Place) × (place_type q ≡ place_type p)
    × (place_relation q ≡ relation)
    × (depth_of q < depth_of p)
Falls p (from tupleset relation) =
    (q : Place) × (place_relation q ≡ relation)
    × ParentEdge (place_type p) tupleset (place_type q)
    × (depth_of q < depth_of p)

abbrev Defined : Place → Type 0
Defined p =
    (d : RelationDef) × (relation_of default_namespace (place_type p) (place_relation p) ≡ some d)
    × All (Falls p) d.rewrites

place-Defined : (p : Place) → Defined p
unfolding default_namespace relation_of text_eq
place-Defined system_admin = (_, refl, (tt, tt))
place-Defined tenant_system = (_, refl, (tt, tt))
place-Defined tenant_admin =
    (_, refl, (tt, ((system_admin, refl, inl (refl, refl, refl), omega arith), tt)))
place-Defined tenant_owner = (_, refl, (tt, tt))
place-Defined tenant_manager = (
  _,
  refl,
  (tt, ((tenant_admin, refl, refl, omega arith), ((tenant_owner, refl, refl, omega arith), tt))),
)
place-Defined tenant_member = (_, refl, (tt, ((tenant_manager, refl, refl, omega arith), tt)))
place-Defined tenant_viewer = (_, refl, (tt, ((tenant_member, refl, refl, omega arith), tt)))
place-Defined document_tenant = (_, refl, (tt, tt))
place-Defined document_viewer = (
  _,
  refl,
  (
    tt,
    (
      (document_editor, refl, refl, omega arith),
      ((tenant_viewer, refl, inr (refl, refl, refl), omega arith), tt),
    ),
  ),
)
place-Defined document_editor =
    (_, refl, (tt, ((tenant_member, refl, inr (refl, refl, refl), omega arith), tt)))

-- The node asks for a relation of the model that lies this deep.
abbrev InModel : ℕ → Node → Type 0
InModel k n = (p : Place) × At p n × (depth_of p ≡ k)

defined_at :
    (k : ℕ) (n : Node)
    → InModel k n
    → (d : RelationDef) × (relation_of default_namespace n.object_type n.relation ≡ some d)
defined_at k n (p, a, _) = let (d, e, _) = place-Defined p in (d, rw (a.at_type, a.at_relation) e)

-- Every rule of a node of the model leads less deep.
pub rule-Falls :
    (read : Reader) (p : Place) (n : Node) (w : Rewrite)
    → At p n
    → HasRule default_namespace read n w
    → Falls p w
rule-Falls read p n w a r =
    let (d, e, fs) = place-Defined p in
    let e' : relation_of default_namespace n.object_type n.relation ≡ some d =
      rw (a.at_type, a.at_relation) e in
    let same : r.rule_def ≡ d = ground (arith, r.rule_defined) in
    All-mem (Falls p) w d.rewrites fs
      (subst (λ (x : RelationDef). Memᴰ w x.rewrites) same r.rule_listed)

module _ (read : Reader) (typed : WellTyped read) where
  next_place :
      (p : Place) (n m : Node)
      → At p n
      → Includes default_namespace read n m
      → (q : Place) × At q m × (depth_of q < depth_of p)
  next_place p n m a (userset tp r t ne e) = absurd (ne (typed.no_userset n n.relation tp t))
  next_place p n m a (sibling relation r e) =
      let (q, same, rel, lt) = rule-Falls read p n (computed relation) a r in
      (
        q,
        subst (At q) (sym e) (record { at_type = a.at_type ∙ sym same; at_relation = sym rel }),
        lt,
      )
  next_place p n m a (parent tupleset relation tp r t em e) =
      let (q, rel, edge, lt) = rule-Falls read p n (from tupleset relation) a r in
      (
        q,
        subst (At q) (sym e) (record {
          at_type =
              typed.parent_typed n tupleset (place_type q) tp t
                (subst (λ (x : Text). ParentEdge x tupleset (place_type q)) (sym a.at_type) edge);
          at_relation = sym rel;
        }),
        lt,
      )

depth-le : (p : Place) → depth_of p < 6
depth-le p = ground arith

-- Over a store that can be read and whose tuples have the shapes that the program writes, a check of
-- any relation of the model returns no error: the depth cap of NewEngine is never met.
pub check-none :
    (read : Reader) (p : Place) (n : Node) (s : Subject)
    → ((obj_type obj_id relation : Text)
        → (ts : List Tuple) × (read obj_type obj_id relation ≡ rows ts))
    → WellTyped read
    → At p n
    → (check (new_engine read) n s).error ≡ none
unfolding check new_engine
check-none read p n s reads typed a =
    check_node-none default_namespace read s reads InModel defined_at
      (λ k x y (q, aq, e) inc.
        let (q', aq', lt) = next_place read typed q x y aq inc in
        (depth_of q', omega arith, (q', aq', refl)))
      17 (depth_of p) [] n [] (p, a, refl) (omega (arith, depth-le p))
