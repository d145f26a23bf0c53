-- ===== src/Authz/Check/Complete.antt =====
-- A check that denies with no error is right: the subject does not hold the relation.
use memory_system.Prelude.{
  All-find, ℕ, zero, suc, ◌≡◌, inl, inr, ◌↔◌, refl, sym, subst, Text, true, none, List, [], ◌∷◌,
  Memᴰ, Bool-cases, Option-cases, All, All-mem,
}
use mathlib.Core.List.Memᴰ
use memory_system.Authz.Tuple.{Tuple}
use memory_system.Authz.Namespace.{
  Namespace, TypeDef, RelationDef, Rewrite, this, computed, from, relation_of, find,
}
use memory_system.Authz.Store.{Reader}
use memory_system.Authz.Check.{
  Node, Subject, Memo, node_key, contains, sweep, eval_rewrite, check_node, Engine, check,
}
use memory_system.Authz.Check.Sound.{contains-mem, check-Holds}
use memory_system.Authz.Check.Loop.{keys, Grows, Seen, find-mem, sweep-Clean}
use memory_system.Authz.Check.Cover.{
  Explored, Denied, Covered, Covered-Grows, closed_off, eval_rewrite-ItemDone, Explored-close,
  Explored-enter, remember_clean,
}
use memory_system.Authz.Check.Keys.{Lacks, Plain}
use memory_system.Authz.Membership.{
  HasRule, HasTuple, Includes, userset, sibling, parent, Holds, by_tuple, through,
}

module _ (ns : Namespace) (read : Reader) (s : Subject)
    (plain_next : (n q : Node) → Plain n → Includes ns read n q → Plain q) where
  check_node-Denied :
      (room : ℕ) (visited : List Text) (n : Node) (m : Memo)
      → Plain n
      → Explored ns read s visited m
      → Denied ns read s visited n m (check_node ns read s room visited n m)
  unfolding check_node
  check_node-Denied zero visited n m plain x = λ h f. cc
  check_node-Denied (suc room) visited n m plain x = elim (Option-cases (find (node_key n) m)) [
    | inr (g, e) ↦ rw (e, check_node) (λ h f. (λ k p. p, x, inl (find-mem (node_key n) m g e)))
    | inl e ↦
        rw (e, check_node)
          (elim (Bool-cases (contains (node_key n) visited)) [
            | inl v ↦ rw v (λ h f. (λ k p. p, x, inr (contains-mem (node_key n) visited v)))
            | inr v ↦ rw v (elim (Option-cases (relation_of ns n.object_type n.relation)) [
              | inl o ↦ rw o (λ h f. cc)
              | inr (d, o) ↦ rw o (λ h f.
                  let loop =
                    sweep
                      (eval_rewrite ns read s (check_node ns read s room (node_key n ∷ visited)) n)
                      none d.rewrites m in
                  let (h', f', stored) = remember_clean ns read s (node_key n) loop h f in
                  let (up, x', cs) =
                    sweep-Clean (Explored ns read s (node_key n ∷ visited))
                      (Covered ns read s (node_key n ∷ visited) n d o)
                      (eval_rewrite ns read s (check_node ns read s room (node_key n ∷ visited)) n)
                      (Covered-Grows ns read s (node_key n ∷ visited) n d o) d.rewrites m
                      (λ w i k xk.
                        eval_rewrite-ItemDone ns read s (node_key n ∷ visited) n d o
                          (check_node ns read s room (node_key n ∷ visited))
                          (check_node-Denied room (node_key n ∷ visited))
                          (λ q inc. plain_next n q plain inc) w k i xk)
                      (Explored-enter ns read s visited (node_key n) m x) h' f' in
                  subst
                    (λ (k : Memo).
                      Grows m k × Explored ns read s visited k × Seen visited k (node_key n))
                    (sym stored)
                    (
                      λ k p. Memᴰ.tail (up k p),
                      Explored-close ns read s visited n loop.memo plain x'
                          (closed_off ns read s (node_key n ∷ visited) n d o loop.memo cs),
                      inl (Memᴰ.head refl),
                    ))
            ])
          ])
  ]

abbrev pub PlainRule : Rewrite → Type 0
PlainRule this = Unit
PlainRule (computed relation) = Lacks b'#' relation
PlainRule (from tupleset relation) = Lacks b'#' relation

-- No type that a tuple's subject has holds a colon, and no relation that a subject or a rule names
-- holds a hash sign. So the key of a node says which node it is.
pub record WellNamed (ns : Namespace) (read : Reader) : Type 0 where
  pub rules_plain : All (λ t. All (λ r. All PlainRule r.1.rewrites) t.1.relations) ns.types
  pub tuples_plain :
      (n : Node) (relation : Text) (tp : Tuple)
      → HasTuple ns read n relation tp
      → Lacks b':' tp.subject_type × Lacks b'#' tp.subject_relation

module _ (ns : Namespace) (read : Reader) (w : WellNamed ns read) where
  rule-PlainRule : (n : Node) (rule : Rewrite) → HasRule ns read n rule → PlainRule rule
  unfolding relation_of
  rule-PlainRule n rule r = elim (Option-cases (find n.object_type ns.types)) [
    | inl o ↦ cc (rw (o, relation_of) at r.rule_defined)
    | inr (t, o) ↦
        All-mem PlainRule rule r.rule_def.rewrites
          (All-find (λ (d : RelationDef). All PlainRule d.rewrites) n.relation t.relations
            r.rule_def
            (All-find (λ (d : TypeDef). All (λ e. All PlainRule e.1.rewrites) d.relations)
              n.object_type ns.types t w.rules_plain o)
            (rw (o, relation_of) at r.rule_defined))
          r.rule_listed
  ]

  Includes-Plain : (n q : Node) → Plain n → Includes ns read n q → Plain q
  Includes-Plain n q plain (userset tp r t ne e) =
      let (a, b) = w.tuples_plain n n.relation tp t in
      subst Plain (sym e) (record { type_plain = a; relation_plain = b })
  Includes-Plain n q plain (sibling relation r e) = subst Plain (sym e) (record {
    type_plain = plain.type_plain;
    relation_plain = rule-PlainRule n (computed relation) r;
  })
  Includes-Plain n q plain (parent tupleset relation tp r t em e) =
      let (a, b) = w.tuples_plain n tupleset tp t in
      subst Plain (sym e)
        (record { type_plain = a; relation_plain = rule-PlainRule n (from tupleset relation) r })

  -- nothing in a memo that is closed off is held
  not-Holds :
      (s : Subject) (m : Memo)
      → Explored ns read s [] m
      → {n : Node} → Plain n
      → Memᴰ (node_key n) (keys m)
      → ¬ Holds ns read s n
  not-Holds s m x plain i (by_tuple {n} g) = (x n plain i).0 g
  not-Holds s m x plain i (through {n} {m = q} inc h) = elim ((x n plain i).1 q inc) [
    | inl p ↦ not-Holds s m x (Includes-Plain n q plain inc) p h
    | inr p ↦ absurd (Memᴰ.not-nil p)
  ]

-- Where the keys of the nodes are unambiguous, a check that returns no error grants exactly when the
-- subject holds the relation by the rules of the model.
pub check_exact :
    (e : Engine) (n : Node) (s : Subject)
    → WellNamed e.ns e.store
    → Plain n
    → (check e n s).error ≡ none
    → ((check e n s).granted ≡ true) ↔ Holds e.ns e.store s n
unfolding check
check_exact e n s w plain clean = (
  check-Holds e n s,
  λ h. elim (Bool-cases (check e n s).granted) [
    | inl g ↦ g
    | inr g ↦
        let (up, x, seen) =
          check_node-Denied e.ns e.store s (Includes-Plain e.ns e.store w) (suc e.max_depth) [] n []
            plain (λ q hq i. absurd (Memᴰ.not-nil i)) g clean in
        elim seen [
          | inl i ↦ absurd (not-Holds e.ns e.store w s (check e n s).memo x plain i h)
          | inr i ↦ absurd (Memᴰ.not-nil i)
        ]
  ],
)
