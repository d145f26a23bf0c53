-- ===== src/Authz/Check.antt =====
-- internal/authz/check.go: the recursive check. `room` is MaxDepth + 1 - depth, so that
-- `room = 0` is the test `depth > MaxDepth`. `visited` holds the nodes of the current path: the
-- callers' nodes are passed down, which is what the deferred delete restores on return. `memo` is
-- threaded through every call. The tuples that one check reads are those of one moment.
pub mod Sound
pub mod Keys
pub mod Loop
pub mod Cover
pub mod Complete
pub mod Total
use memory_system.Prelude.{
  ℕ, zero, suc, Text, text_eq, ◌++◌, Bool, true, false, not, ◌&&◌, ◌||◌, Option, none, some, List,
  [], ◌∷◌, if◌then◌else◌,
}
use memory_system.Authz.Tuple.{Tuple, wildcard}
use memory_system.Authz.Namespace.{
  Namespace, RelationDef, Rewrite, this, computed, from, relation_of, find, default_namespace,
}
use memory_system.Authz.Store.{Read, rows, failed, Reader}

pub data CheckError : Type 0 where
  depth_exceeded : CheckError
  unknown_relation : Text → Text → CheckError
  store_error : Text → CheckError

-- object#relation, what a check is about
pub record Node : Type 0 where
  pub object_type : Text
  pub object_id : Text
  pub relation : Text

pub record Subject : Type 0 where
  pub subject_type : Text
  pub subject_id : Text

abbrev pub Memo : Type 0
Memo = List (Text × Bool)

pub record Answer : Type 0 where
  pub granted : Bool
  pub error : Option CheckError
  pub memo : Memo

abbrev pub grant : Memo → Answer
grant m = record { granted = true; error = none; memo = m }

abbrev pub deny : Option CheckError → Memo → Answer
deny e m = record { granted = false; error = e; memo = m }

-- objType + ":" + objID + "#" + relation
unfoldable pub node_key : Node → Text
node_key n = n.object_type ++ (b':' ∷ n.object_id ++ (b'#' ∷ n.relation))

unfoldable pub contains : Text → List Text → Bool
contains k [] = false
contains k (j ∷ l) = text_eq j k || contains k l

-- if err != nil && firstErr == nil { firstErr = err }
unfoldable pub first_error : Option CheckError → Option CheckError → Option CheckError
first_error none e = e
first_error (some d) e = some d

-- The loop of `check`, `evalThis` and `evalTupleToUserset`: stop at the first grant, remember the
-- first error, deny with it at the end.
unfoldable pub sweep {ℓ} :
    {A : Type ℓ} → (A → Memo → Answer) → Option CheckError → List A → Memo → Answer
unfolding first_error
sweep visit first [] m = deny first m
sweep visit first (x ∷ xs) m =
    let a = visit x m in
    let rest = sweep visit (first_error first a.error) xs a.memo in
    if a.granted then grant a.memo else rest

-- subjType + ":" + Wildcard is among the relation's direct subjects
unfoldable pub permits_wildcard : List Text → Text → Bool
unfolding contains
permits_wildcard direct_subjects subj_type =
    contains (subj_type ++ (b':' ∷ wildcard)) direct_subjects

-- A tuple with no subject relation: does it name the subject?
unfoldable pub names_subject : List Text → Subject → Tuple → Bool
unfolding permits_wildcard
names_subject direct_subjects s tp =
    text_eq tp.subject_type s.subject_type
    && (text_eq tp.subject_id s.subject_id
        || (text_eq tp.subject_id wildcard && permits_wildcard direct_subjects s.subject_type))

-- def, _ := e.ns.Relation(objType, relation): the zero value has no direct subjects
unfoldable pub direct_subjects_of : Option RelationDef → List Text
direct_subjects_of none = []
direct_subjects_of (some d) = d.direct_subjects

-- the userset or the parent object of a tuple, at a relation
abbrev pub subject_node : Tuple → Text → Node
subject_node tp relation = record {
  object_type = tp.subject_type;
  object_id = tp.subject_id;
  relation = relation;
}

-- `check`, as the clauses call it
abbrev pub Rec : Type 0
Rec = Node → Memo → Answer

unfoldable pub this_tuple : Subject → Rec → List Text → Tuple → Memo → Answer
unfolding names_subject
this_tuple s rec direct_subjects tp m =
    if text_eq tp.subject_relation []
    then (if names_subject direct_subjects s tp then grant m else deny none m)
    else rec (subject_node tp tp.subject_relation) m

unfoldable pub parent_tuple : Rec → Text → Tuple → Memo → Answer
parent_tuple rec computed_relation tp m =
    if not (text_eq tp.subject_relation [])
    then deny none m
    else rec (subject_node tp computed_relation) m

-- a read that fails denies with its error
unfoldable pub over_rows : (Tuple → Memo → Answer) → Read → Memo → Answer
unfolding sweep
over_rows visit (rows tuples) m = sweep visit none tuples m
over_rows visit (failed e) m = deny (some (store_error e)) m

-- what is cached at the end of the loop over the rewrites
unfoldable pub remember : Text → Answer → Answer
remember key a =
    if a.granted
    then grant ((key, true) ∷ a.memo)
    else elim a.error [ none ↦ deny none ((key, false) ∷ a.memo) | some e ↦ a ]

module _ (ns : Namespace) (read : Reader) (s : Subject) where
  unfoldable pub eval_this : Rec → Node → Memo → Answer
  unfolding over_rows this_tuple direct_subjects_of relation_of
  eval_this rec n m =
      over_rows (this_tuple s rec (direct_subjects_of (relation_of ns n.object_type n.relation)))
        (read n.object_type n.object_id n.relation) m

  unfoldable pub eval_tuple_to_userset : Rec → Text → Text → Node → Memo → Answer
  unfolding over_rows parent_tuple
  eval_tuple_to_userset rec tupleset computed_relation n m =
      over_rows (parent_tuple rec computed_relation) (read n.object_type n.object_id tupleset) m

  unfoldable pub eval_rewrite : Rec → Node → Rewrite → Memo → Answer
  unfolding eval_this eval_tuple_to_userset
  eval_rewrite rec n this m = eval_this rec n m
  eval_rewrite rec n (computed relation) m = rec (record n { relation = relation }) m
  eval_rewrite rec n (from tupleset computed_relation) m =
      eval_tuple_to_userset rec tupleset computed_relation n m

  unfoldable pub check_node : ℕ → List Text → Node → Memo → Answer
  unfolding find contains relation_of node_key eval_rewrite remember sweep
  check_node zero visited n m = deny (some depth_exceeded) m
  check_node (suc room) visited n m = elim (find (node_key n) m) [
    | some g ↦ record { granted = g; error = none; memo = m }
    | none ↦ elim (contains (node_key n) visited) [
      | true ↦ deny none m
      | false ↦ elim (relation_of ns n.object_type n.relation) [
        | none ↦ deny (some (unknown_relation n.object_type n.relation)) m
        | some d ↦
            remember (node_key n)
              (sweep (eval_rewrite (check_node room (node_key n ∷ visited)) n) none d.rewrites m)
      ]
    ]
  ]

-- Engine
pub record Engine : Type 0 where
  pub store : Reader
  pub ns : Namespace
  pub max_depth : ℕ

abbrev pub default_max_depth : ℕ
default_max_depth = 16

unfoldable pub new_engine : Reader → Engine
new_engine store = record { store = store; ns = default_namespace; max_depth = default_max_depth }

unfoldable pub check : Engine → Node → Subject → Answer
unfolding check_node
check e n s = check_node e.ns e.store s (suc e.max_depth) [] n []
