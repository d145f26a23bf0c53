-- ===== src/Authz/Check/Sound.antt =====
-- A granted check is right: the subject holds the relation.
use memory_system.Prelude.{
  ℕ, zero, suc, ◌≡◌, inl, inr, refl, Text, text_eq, eq_iff, Bool, true, false, Option, none, some,
  List, [], ◌∷◌, Memᴰ, arith, Bool-cases, Option-cases, All,
}
use memory_system.Authz.Tuple.{Tuple, wildcard}
use memory_system.Authz.Namespace.{
  Namespace, RelationDef, Rewrite, this, computed, from, relation_of, find,
}
use memory_system.Authz.Store.{Read, rows, failed, Reader}
use memory_system.Authz.Check.{
  Node, Subject, Answer, Memo, CheckError, node_key, contains, first_error, sweep, names_subject,
  direct_subjects_of, subject_node, this_tuple, parent_tuple, over_rows, eval_this, eval_rewrite,
  remember, check_node, Engine, check,
}
use memory_system.Authz.Membership.{
  Names, HasRule, HasTuple, direct, userset, sibling, parent, Holds, by_tuple, through,
}

-- No grant is cached.
abbrev pub NoGrant : Memo → Type 0
NoGrant = All (λ entry. entry.1 ≡ false)

-- An answer that grants shows the claim, and one that denies leaves no cached grant behind.
abbrev pub Shows : Type 0 → Answer → Type 0
Shows P a = (a.granted ≡ true → P) × (a.granted ≡ false → NoGrant a.memo)

pub contains-mem : (k : Text) (l : List Text) → contains k l ≡ true → Memᴰ k l
unfolding contains
contains-mem k [] h = absurd (ground arith)
contains-mem k (j ∷ l) h = elim (Bool-cases (text_eq j k)) [
  | inl e ↦ Memᴰ.head (ground (arith, eq_iff j k))
  | inr e ↦ Memᴰ.tail (contains-mem k l (ground arith))
]

pub find-NoGrant : (k : Text) (m : Memo) (g : Bool) → NoGrant m → find k m ≡ some g → g ≡ false
unfolding find
find-NoGrant k [] g h e = cc
find-NoGrant k ((j, v) ∷ m) g h e = elim (Bool-cases (text_eq j k)) [
  | inl t ↦ ground (arith, h.0)
  | inr t ↦ find-NoGrant k m g h.1 (ground arith)
]

pub sweep-Shows :
    {A : Type 0} (P : Type 0) (visit : A → Memo → Answer) (first : Option CheckError) (xs : List A)
    (m : Memo)
    → ((x : A) (m : Memo) → Memᴰ x xs → NoGrant m → Shows P (visit x m))
    → NoGrant m
    → Shows P (sweep visit first xs m)
unfolding sweep
sweep-Shows P visit first [] m h clean = (λ e. absurd (ground arith), λ e. clean)
sweep-Shows P visit first (x ∷ xs) m h clean = elim (Bool-cases (visit x m).granted) [
  | inl e ↦ rw e (λ _. (h x m (Memᴰ.head refl) clean).0 e, λ f. cc)
  | inr e ↦ rw e (
      sweep-Shows P visit (first_error first (visit x m).error) xs (visit x m).memo
        (λ y k i. h y k (Memᴰ.tail i)) ((h x m (Memᴰ.head refl) clean).1 e))
]

-- What a direct tuple grants, by the test of the code.
pub names_subject-Names :
    (d : RelationDef) (s : Subject) (tp : Tuple)
    → tp.subject_relation ≡ []
    → names_subject d.direct_subjects s tp ≡ true
    → Names d s tp
unfolding names_subject
names_subject-Names d s tp plain h = elim (Bool-cases (text_eq tp.subject_id s.subject_id)) [
  | inl e ↦ (
    plain,
    ground (arith, eq_iff tp.subject_type s.subject_type),
    inl (ground (arith, eq_iff tp.subject_id s.subject_id)),
  )
  | inr e ↦ (
    plain,
    ground (arith, eq_iff tp.subject_type s.subject_type),
    inr (
      ground (arith, eq_iff tp.subject_id wildcard),
      contains-mem _ d.direct_subjects (ground arith),
    ),
  )
]

module _ (ns : Namespace) (read : Reader) (s : Subject) where
  -- the recursive call shows what it is asked
  abbrev RecShows : (Node → Memo → Answer) → Type 0
  RecShows rec = (n : Node) (m : Memo) → NoGrant m → Shows (Holds ns read s n) (rec n m)

  Shows-map : {P Q : Type 0} (a : Answer) → (P → Q) → Shows P a → Shows Q a
  Shows-map a f h = (λ e. f (h.0 e), h.1)

  over_rows-Shows :
      (P : Type 0) (visit : Tuple → Memo → Answer) (r : Read) (m : Memo)
      → ((ts : List Tuple) (tp : Tuple) (m : Memo)
          → r ≡ rows ts
          → Memᴰ tp ts
          → NoGrant m
          → Shows P (visit tp m))
      → NoGrant m
      → Shows P (over_rows visit r m)
  unfolding over_rows
  over_rows-Shows P visit (rows ts) m h clean =
      sweep-Shows P visit none ts m (λ tp k i c. h ts tp k refl i c) clean
  over_rows-Shows P visit (failed e) m h clean = (λ f. cc, λ _. clean)

  module _ (rec : Node → Memo → Answer) (ih : RecShows rec) (n : Node) where
    this_tuple-Shows :
        (r : HasRule ns read n this) (tp : Tuple) (m : Memo)
        → HasTuple ns read n n.relation tp
        → NoGrant m
        → Shows (Holds ns read s n) (this_tuple s rec r.rule_def.direct_subjects tp m)
    unfolding this_tuple
    this_tuple-Shows r tp m t clean = elim (Bool-cases (text_eq tp.subject_relation [])) [
      | inl e ↦ rw e (elim (Bool-cases (names_subject r.rule_def.direct_subjects s tp)) [
        | inl g ↦ rw g (
          λ _. by_tuple (
              direct tp r t
                (names_subject-Names r.rule_def s tp ((eq_iff tp.subject_relation []).0 e) g)),
          λ f. cc,
        )
        | inr g ↦ rw g (λ f. cc, λ _. clean)
      ])
      | inr e ↦ rw e (
          Shows-map (rec (subject_node tp tp.subject_relation) m)
            (through (userset tp r t (λ p. cc (e, (eq_iff tp.subject_relation []).1 p)) refl))
            (ih (subject_node tp tp.subject_relation) m clean))
    ]

    eval_this-Shows :
        (m : Memo)
        → HasRule ns read n this
        → NoGrant m
        → Shows (Holds ns read s n) (eval_this ns read s rec n m)
    unfolding eval_this
    eval_this-Shows m r clean =
        rw (r.rule_defined, direct_subjects_of, eval_this)
          (over_rows-Shows (Holds ns read s n) (this_tuple s rec r.rule_def.direct_subjects)
            (read n.object_type n.object_id n.relation) m
            (λ ts tp k e i c.
              this_tuple-Shows r tp k (record { stored = ts; stored_read = e; stored_listed = i })
                c)
            clean)

    parent_tuple-Shows :
        (tupleset relation : Text) (tp : Tuple) (m : Memo)
        → HasRule ns read n (from tupleset relation)
        → HasTuple ns read n tupleset tp
        → NoGrant m
        → Shows (Holds ns read s n) (parent_tuple rec relation tp m)
    unfolding parent_tuple
    parent_tuple-Shows tupleset relation tp m r t clean =
        elim (Bool-cases (text_eq tp.subject_relation [])) [
          | inl e ↦ rw e (
              Shows-map (rec (subject_node tp relation) m)
                (through
                  (parent tupleset relation tp r t ((eq_iff tp.subject_relation []).0 e) refl))
                (ih (subject_node tp relation) m clean))
          | inr e ↦ rw e (λ f. cc, λ _. clean)
        ]

    eval_rewrite-Shows :
        (w : Rewrite) (m : Memo)
        → HasRule ns read n w
        → NoGrant m
        → Shows (Holds ns read s n) (eval_rewrite ns read s rec n w m)
    unfolding eval_rewrite
    eval_rewrite-Shows this m r clean = eval_this-Shows m r clean
    eval_rewrite-Shows (computed relation) m r clean =
        Shows-map (rec (record n { relation = relation }) m) (through (sibling relation r refl))
          (ih (record n { relation = relation }) m clean)
    eval_rewrite-Shows (from tupleset relation) m r clean =
        over_rows-Shows (Holds ns read s n) (parent_tuple rec relation)
          (read n.object_type n.object_id tupleset) m
          (λ ts tp k e i c.
            parent_tuple-Shows tupleset relation tp k r
              (record { stored = ts; stored_read = e; stored_listed = i }) c)
          clean

  remember-Shows : (P : Type 0) (key : Text) (a : Answer) → Shows P a → Shows P (remember key a)
  unfolding remember
  remember-Shows P key a h = elim (Bool-cases a.granted) [
    | inl e ↦ rw e (λ _. h.0 e, λ f. cc)
    | inr e ↦ rw e (elim (Option-cases a.error) [
      | inl o ↦ rw o (λ f. cc, λ _. (refl, h.1 e))
      | inr (d, o) ↦ rw o h
    ])
  ]

  -- A granted node is held, and a denied one leaves no cached grant.
  pub check_node-Shows :
      (room : ℕ) (visited : List Text) (n : Node) (m : Memo)
      → NoGrant m
      → Shows (Holds ns read s n) (check_node ns read s room visited n m)
  unfolding check_node
  check_node-Shows zero visited n m clean = (λ f. cc, λ _. clean)
  check_node-Shows (suc room) visited n m clean = elim (Option-cases (find (node_key n) m)) [
    | inr (g, e) ↦ rw (e, check_node) (λ f. cc (find-NoGrant (node_key n) m g clean e), λ _. clean)
    | inl e ↦
        rw (e, check_node)
          (elim (Bool-cases (contains (node_key n) visited)) [
            | inl v ↦ rw v (λ f. cc, λ _. clean)
            | inr v ↦ rw v (elim (Option-cases (relation_of ns n.object_type n.relation)) [
              | inl o ↦ rw o (λ f. cc, λ _. clean)
              | inr (d, o) ↦ rw o (
                  remember-Shows (Holds ns read s n) (node_key n) _ (
                    sweep-Shows (Holds ns read s n) _ none d.rewrites m
                      (λ w k i c.
                        eval_rewrite-Shows (check_node ns read s room (node_key n ∷ visited))
                          (check_node-Shows room (node_key n ∷ visited)) n w k
                          (record { rule_def = d; rule_defined = o; rule_listed = i }) c)
                      clean))
            ])
          ])
  ]

-- A check that grants is right, whatever the store holds and however the graph is shaped: the
-- subject holds the relation by the rules of the model.
pub check-Holds :
    (e : Engine) (n : Node) (s : Subject) → (check e n s).granted ≡ true → Holds e.ns e.store s n
unfolding check
check-Holds e n s h = (check_node-Shows e.ns e.store s (suc e.max_depth) [] n [] tt).0 h
