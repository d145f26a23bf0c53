-- ===== src/Authz/Check/Cover.antt =====
-- What a clean denial of a node leaves in the cache: everything that the node includes is cached
-- too, or still stands on the path. The cache may hold a denial for a node whose cycle was cut.
use memory_system.Prelude.{
  ◌≡◌, ◌≢◌, inl, inr, refl, sym, subst, Text, text_eq, eq_iff, true, false, none, some, List, [],
  ◌∷◌, Memᴰ, arith, Bool-cases, mem-cons,
}
use memory_system.Authz.Tuple.{Tuple, wildcard}
use memory_system.Authz.Namespace.{
  Namespace, RelationDef, Rewrite, this, computed, from, relation_of,
}
use memory_system.Authz.Store.{Read, rows, failed, Reader}
use memory_system.Authz.Check.{
  Node, Subject, Answer, Memo, Rec, node_key, names_subject, direct_subjects_of, subject_node,
  this_tuple, parent_tuple, over_rows, eval_this, eval_rewrite, remember,
}
use memory_system.Authz.Check.Loop.{keys, Grows, Seen, Seen-Grows, mem-contains, sweep-Clean}
use memory_system.Authz.Check.Keys.{Plain, node_key-injective}
use memory_system.Authz.Membership.{
  Names, HasRule, HasTuple, Grants, direct, Includes, userset, sibling, parent,
}

module _ (ns : Namespace) (read : Reader) (s : Subject) where
  -- A cached node holds nothing by itself, and includes only nodes that are seen.
  abbrev pub Explored : List Text → Memo → Type 0
  Explored visited m =
      (n : Node)
      → Plain n
      → Memᴰ (node_key n) (keys m)
      → (¬ Grants ns read s n)
        × ((n' : Node) → Includes ns read n n' → Seen visited m (node_key n'))

  abbrev pub Denied : List Text → Node → Memo → Answer → Type 0
  Denied visited n m a =
      a.granted ≡ false
      → a.error ≡ none
      → Grows m a.memo × Explored visited a.memo × Seen visited a.memo (node_key n)

  -- a direct tuple that names the subject passes the test
  Names-names_subject :
      (d : RelationDef) (tp : Tuple) → Names d s tp → names_subject d.direct_subjects s tp ≡ true
  unfolding names_subject
  Names-names_subject d tp h = elim (h.2) [
    | inl e ↦
        ground (arith, eq_iff tp.subject_type s.subject_type, eq_iff tp.subject_id s.subject_id)
    | inr w ↦ ground (
      arith,
      eq_iff tp.subject_type s.subject_type,
      eq_iff tp.subject_id wildcard,
      mem-contains _ d.direct_subjects w.1,
    )
  ]

  module _ (visited : List Text) (n : Node) (d : RelationDef)
      (defined : relation_of ns n.object_type n.relation ≡ some d) where
    -- what a tuple of the node's relation contributes
    abbrev pub ThisCovered : Tuple → Memo → Type 0
    ThisCovered tp m =
        (tp.subject_relation ≡ [] → ¬ Names d s tp)
        × (tp.subject_relation ≢ []
            → Seen visited m (node_key (subject_node tp tp.subject_relation)))

    abbrev pub ParentCovered : Text → Tuple → Memo → Type 0
    ParentCovered relation tp m =
        tp.subject_relation ≡ [] → Seen visited m (node_key (subject_node tp relation))

    abbrev pub Covered : Rewrite → Memo → Type 0
    Covered this m = (tp : Tuple) → HasTuple ns read n n.relation tp → ThisCovered tp m
    Covered (computed relation) m = Seen visited m (node_key (record n { relation = relation }))
    Covered (from tupleset relation) m =
        (tp : Tuple) → HasTuple ns read n tupleset tp → ParentCovered relation tp m

    pub Covered-Grows : (w : Rewrite) (m m' : Memo) → Grows m m' → Covered w m → Covered w m'
    Covered-Grows this m m' g c =
        λ tp t. ((c tp t).0, λ h. Seen-Grows visited m m' _ g ((c tp t).1 h))
    Covered-Grows (computed relation) m m' g c = Seen-Grows visited m m' _ g c
    Covered-Grows (from tupleset relation) m m' g c =
        λ tp t h. Seen-Grows visited m m' _ g (c tp t h)

    -- the loop over the rewrites has left every rule of the node covered
    pub closed_off :
        (m : Memo)
        → ((w : Rewrite) → Memᴰ w d.rewrites → Covered w m)
        → (¬ Grants ns read s n)
          × ((n' : Node) → Includes ns read n n' → Seen visited m (node_key n'))
    closed_off m c = (λ g. not_granted g, λ n' i. includes n' i)
      where
        same_def : (r : RelationDef) → relation_of ns n.object_type n.relation ≡ some r → r ≡ d
        same_def r e = ground (arith, defined)

        rule : (w : Rewrite) → HasRule ns read n w → Memᴰ w d.rewrites
        rule w r =
            subst (λ (x : RelationDef). Memᴰ w x.rewrites) (same_def r.rule_def r.rule_defined)
              r.rule_listed

        not_granted : ¬ Grants ns read s n
        not_granted (direct tp r t names) =
            (c this (rule this r) tp t).0 names.0
              (subst (λ (x : RelationDef). Names x s tp) (same_def r.rule_def r.rule_defined) names)

        includes : (n' : Node) → Includes ns read n n' → Seen visited m (node_key n')
        includes n' (userset tp r t h e) =
            subst (λ (x : Node). Seen visited m (node_key x)) (sym e)
              ((c this (rule this r) tp t).1 h)
        includes n' (sibling relation r e) =
            subst (λ (x : Node). Seen visited m (node_key x)) (sym e)
              (c (computed relation) (rule (computed relation) r))
        includes n' (parent tupleset relation tp r t h e) =
            subst (λ (x : Node). Seen visited m (node_key x)) (sym e)
              (c (from tupleset relation) (rule (from tupleset relation) r) tp t h)

    module _ (rec : Rec)
        (ih : (q : Node) (m : Memo) → Plain q → Explored visited m → Denied visited q m (rec q m))
        (plain_next : (q : Node) → Includes ns read n q → Plain q) where
      -- what one item of a loop has done when it denies with no error
      abbrev pub ItemDone : (Memo → Type 0) → Memo → Answer → Type 0
      ItemDone C m a =
          a.granted ≡ false → a.error ≡ none → Grows m a.memo × Explored visited a.memo × C a.memo

      over_rows-ItemDone :
          (C : Tuple → Memo → Type 0) (visit : Tuple → Memo → Answer) (relation : Text) (m : Memo)
          → ((tp : Tuple) (k k' : Memo) → Grows k k' → C tp k → C tp k')
          → ((tp : Tuple) (k : Memo)
              → HasTuple ns read n relation tp
              → Explored visited k
              → ItemDone (C tp) k (visit tp k))
          → Explored visited m
          → ItemDone
              (λ k. (tp : Tuple) → HasTuple ns read n relation tp → C tp k)
              m
              (over_rows visit (read n.object_type n.object_id relation) m)
      unfolding over_rows
      over_rows-ItemDone C visit relation m keep step x =
          go (read n.object_type n.object_id relation) refl
        where
          go :
              (r : Read)
              → read n.object_type n.object_id relation ≡ r
              → ItemDone
                  (λ k. (tp : Tuple) → HasTuple ns read n relation tp → C tp k)
                  m
                  (over_rows visit r m)
          go (failed e) p h f = cc
          go (rows ts) p h f =
              let (up, x', cs) =
                sweep-Clean (Explored visited) C visit keep ts m
                  (λ tp i k xk.
                    step tp k (record { stored = ts; stored_read = p; stored_listed = i }) xk)
                  x h f in
              (
                up,
                x',
                λ tp t. cs tp (subst (Memᴰ tp) (ground (arith, p, t.stored_read)) t.stored_listed),
              )

      this_tuple-ItemDone :
          (tp : Tuple) (m : Memo)
          → HasRule ns read n this
          → HasTuple ns read n n.relation tp
          → Explored visited m
          → ItemDone (ThisCovered tp) m (this_tuple s rec d.direct_subjects tp m)
      unfolding this_tuple
      this_tuple-ItemDone tp m r t x = elim (Bool-cases (text_eq tp.subject_relation [])) [
        | inl e ↦ rw e (elim (Bool-cases (names_subject d.direct_subjects s tp)) [
          | inl g ↦ rw g (λ h f. cc)
          | inr g ↦ rw g (λ h f. (
            λ k p. p,
            x,
            (
              (λ plain names. cc (g, Names-names_subject d tp names)),
              (λ ne. absurd (ne ((eq_iff tp.subject_relation []).0 e))),
            ),
          ))
        ])
        | inr e ↦ rw e (λ h f.
            let ne : tp.subject_relation ≢ [] = λ p. cc (e, (eq_iff tp.subject_relation []).1 p) in
            let (up, x', seen) =
              ih (subject_node tp tp.subject_relation) m
                (plain_next (subject_node tp tp.subject_relation) (userset tp r t ne refl)) x h f in
            (up, x', ((λ plain. absurd (ne plain)), (λ _. seen))))
      ]

      parent_tuple-ItemDone :
          (tupleset relation : Text) (tp : Tuple) (m : Memo)
          → HasRule ns read n (from tupleset relation)
          → HasTuple ns read n tupleset tp
          → Explored visited m
          → ItemDone (ParentCovered relation tp) m (parent_tuple rec relation tp m)
      unfolding parent_tuple
      parent_tuple-ItemDone tupleset relation tp m r t x =
          elim (Bool-cases (text_eq tp.subject_relation [])) [
            | inl e ↦ rw e (λ h f.
                let (up, x', seen) =
                  ih (subject_node tp relation) m
                    (plain_next (subject_node tp relation)
                      (parent tupleset relation tp r t ((eq_iff tp.subject_relation []).0 e) refl))
                    x h f in
                (up, x', λ _. seen))
            | inr e ↦
                rw e
                  (λ h f. (λ k p. p, x, λ plain. cc (e, (eq_iff tp.subject_relation []).1 plain)))
          ]

      pub eval_rewrite-ItemDone :
          (w : Rewrite) (m : Memo)
          → Memᴰ w d.rewrites
          → Explored visited m
          → ItemDone (Covered w) m (eval_rewrite ns read s rec n w m)
      unfolding eval_rewrite
      eval_rewrite-ItemDone this m i x =
          rw (defined, direct_subjects_of, eval_this)
            (over_rows-ItemDone ThisCovered (this_tuple s rec d.direct_subjects) n.relation m
              (λ tp k k' g c. (c.0, λ h. Seen-Grows visited k k' _ g (c.1 h)))
              (λ tp k t xk.
                this_tuple-ItemDone tp k
                  (record { rule_def = d; rule_defined = defined; rule_listed = i }) t xk)
              x)
      eval_rewrite-ItemDone (computed relation) m i x =
          ih (record n { relation = relation }) m
            (plain_next (record n { relation = relation })
              (sibling relation (record { rule_def = d; rule_defined = defined; rule_listed = i })
                refl))
            x
      eval_rewrite-ItemDone (from tupleset relation) m i x =
          over_rows-ItemDone (ParentCovered relation) (parent_tuple rec relation) tupleset m
            (λ tp k k' g c h. Seen-Grows visited k k' _ g (c h))
            (λ tp k t xk.
              parent_tuple-ItemDone tupleset relation tp k
                (record { rule_def = d; rule_defined = defined; rule_listed = i }) t xk)
            x

  -- once its path is left, the node is cached in place of standing on the path
  pub Explored-close :
      (visited : List Text) (n : Node) (m : Memo)
      → Plain n
      → Explored (node_key n ∷ visited) m
      → (¬ Grants ns read s n)
        × ((n' : Node) → Includes ns read n n' → Seen (node_key n ∷ visited) m (node_key n'))
      → Explored visited ((node_key n, false) ∷ m)
  Explored-close visited n m plain x c q hq i = elim (mem-cons i) [
    | inl e ↦
        let same : n ≡ q = node_key-injective n q plain hq (sym e) in
        subst
          (λ (z : Node).
            (¬ Grants ns read s z)
            × ((n' : Node)
                → Includes ns read z n'
                → Seen visited ((node_key n, false) ∷ m) (node_key n')))
          same (c.0, λ n' inc. move n' (c.1 n' inc))
    | inr p ↦ ((x q hq p).0, λ n' inc. move n' ((x q hq p).1 n' inc))
  ]
    where
      move :
          (n' : Node)
          → Seen (node_key n ∷ visited) m (node_key n')
          → Seen visited ((node_key n, false) ∷ m) (node_key n')
      move n' (inl p) = inl (Memᴰ.tail p)
      move n' (inr (Memᴰ.head p)) = inl (Memᴰ.head p)
      move n' (inr (Memᴰ.tail p)) = inr p

  pub Explored-enter :
      (visited : List Text) (k : Text) (m : Memo) → Explored visited m → Explored (k ∷ visited) m
  Explored-enter visited k m x q hq i = (
    (x q hq i).0,
    λ n' inc. elim ((x q hq i).1 n' inc) [ inl p ↦ inl p | inr p ↦ inr (Memᴰ.tail p) ],
  )

  pub remember_clean :
      (key : Text) (a : Answer)
      → (remember key a).granted ≡ false
      → (remember key a).error ≡ none
      → (a.granted ≡ false) × (a.error ≡ none) × ((remember key a).memo ≡ (key, false) ∷ a.memo)
  unfolding remember
  remember_clean key a h f = ground arith
