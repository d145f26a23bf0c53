-- ===== src/Authz/Check/Total.antt =====
-- A check returns no error where the reads succeed, the relations exist and the graph is shallow.
use memory_system.Prelude.{
  ℕ, zero, suc, ◌<◌, ◌≡◌, refl, Text, text_eq, eq_iff, none, some, List, [], ◌∷◌, Memᴰ, arith,
  Bool-cases, Option-cases, inl, inr,
}
use memory_system.Authz.Tuple.{Tuple}
use memory_system.Authz.Namespace.{
  Namespace, RelationDef, Rewrite, this, computed, from, relation_of, find,
}
use memory_system.Authz.Store.{rows, Reader}
use memory_system.Authz.Check.{
  Node, Subject, Answer, Memo, Rec, node_key, contains, sweep, direct_subjects_of, subject_node,
  this_tuple, parent_tuple, over_rows, eval_rewrite, remember, check_node,
}
use memory_system.Authz.Membership.{HasRule, HasTuple, Includes, userset, sibling, parent}

sweep-none :
    {A : Type 0} (visit : A → Memo → Answer) (xs : List A) (m : Memo)
    → ((x : A) (k : Memo) → Memᴰ x xs → (visit x k).error ≡ none)
    → (sweep visit none xs m).error ≡ none
unfolding sweep
sweep-none visit [] m h = refl
sweep-none visit (x ∷ xs) m h = elim (Bool-cases (visit x m).granted) [
  | inl g ↦ rw g
  | inr g ↦
      rw (g, h x m (Memᴰ.head refl))
        (sweep-none visit xs (visit x m).memo (λ y k i. h y k (Memᴰ.tail i)))
]

module _ (ns : Namespace) (read : Reader) (s : Subject)
    (reads : (obj_type obj_id relation : Text)
      → (ts : List Tuple) × (read obj_type obj_id relation ≡ rows ts))
    (Good : ℕ → Node → Type 0)
    (defined : (k : ℕ) (n : Node)
      → Good k n
      → (d : RelationDef) × (relation_of ns n.object_type n.relation ≡ some d))
    (good_next : (k : ℕ) (n m : Node)
      → Good k n
      → Includes ns read n m
      → (j : ℕ) × (j < k) × Good j m) where
  module _ (rec : Rec) (n : Node)
      (ih : (q : Node) (m : Memo) → Includes ns read n q → (rec q m).error ≡ none) where
    this_tuple-none :
        (ds : List Text) (tp : Tuple) (m : Memo)
        → HasRule ns read n this
        → HasTuple ns read n n.relation tp
        → (this_tuple s rec ds tp m).error ≡ none
    unfolding this_tuple
    this_tuple-none ds tp m r t = elim (Bool-cases (text_eq tp.subject_relation [])) [
      | inl e ↦ ground arith
      | inr e ↦ rw e (
          ih (subject_node tp tp.subject_relation) m
            (userset tp r t (λ p. cc (e, (eq_iff tp.subject_relation []).1 p)) refl))
    ]

    parent_tuple-none :
        (tupleset relation : Text) (tp : Tuple) (m : Memo)
        → HasRule ns read n (from tupleset relation)
        → HasTuple ns read n tupleset tp
        → (parent_tuple rec relation tp m).error ≡ none
    unfolding parent_tuple
    parent_tuple-none tupleset relation tp m r t =
        elim (Bool-cases (text_eq tp.subject_relation [])) [
          | inl e ↦ rw e (
              ih (subject_node tp relation) m
                (parent tupleset relation tp r t ((eq_iff tp.subject_relation []).0 e) refl))
          | inr e ↦ rw e
        ]

    over_rows-none :
        (visit : Tuple → Memo → Answer) (relation : Text) (m : Memo)
        → ((tp : Tuple) (k : Memo) → HasTuple ns read n relation tp → (visit tp k).error ≡ none)
        → (over_rows visit (read n.object_type n.object_id relation) m).error ≡ none
    unfolding over_rows
    over_rows-none visit relation m h =
        let (ts, e) = reads n.object_type n.object_id relation in
        rw (e, over_rows)
          (sweep-none visit ts m
            (λ tp k i. h tp k (record { stored = ts; stored_read = e; stored_listed = i })))

    eval_rewrite-none :
        (w : Rewrite) (m : Memo)
        → HasRule ns read n w
        → (eval_rewrite ns read s rec n w m).error ≡ none
    unfolding eval_rewrite
    eval_rewrite-none this m r =
        over_rows-none
          (this_tuple s rec (direct_subjects_of (relation_of ns n.object_type n.relation)))
          n.relation m (λ tp k t. this_tuple-none _ tp k r t)
    eval_rewrite-none (computed relation) m r =
        ih (record n { relation = relation }) m (sibling relation r refl)
    eval_rewrite-none (from tupleset relation) m r =
        over_rows-none (parent_tuple rec relation) tupleset m
          (λ tp k t. parent_tuple-none tupleset relation tp k r t)

  remember-none : (key : Text) (a : Answer) → a.error ≡ none → (remember key a).error ≡ none
  unfolding remember
  remember-none key a e = ground arith

  -- The room that a check needs is one more than the depth of its node.
  pub check_node-none :
      (room k : ℕ) (visited : List Text) (n : Node) (m : Memo)
      → Good k n
      → k < room
      → (check_node ns read s room visited n m).error ≡ none
  unfolding check_node
  check_node-none zero k visited n m g h = elim h [ ]
  check_node-none (suc room) k visited n m g h = elim (Option-cases (find (node_key n) m)) [
    | inr (b, e) ↦ rw (e, check_node)
    | inl e ↦
        rw (e, check_node)
          (elim (Bool-cases (contains (node_key n) visited)) [
            | inl v ↦ rw v
            | inr v ↦
                let (d, o) = defined k n g in
                rw (v, o)
                  (remember-none (node_key n) _ (
                    sweep-none
                      (eval_rewrite ns read s (check_node ns read s room (node_key n ∷ visited)) n)
                      d.rewrites m
                      (λ w m' i.
                        eval_rewrite-none (check_node ns read s room (node_key n ∷ visited)) n
                          (λ q m'' inc.
                            let (j, lt, g') = good_next k n q g inc in
                            check_node-none room j (node_key n ∷ visited) q m'' g' (omega arith))
                          w m' (record { rule_def = d; rule_defined = o; rule_listed = i }))))
          ])
  ]
