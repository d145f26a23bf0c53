-- ===== src/Authz/Membership.antt =====
-- What the authorization model means, with no reference to how a check is evaluated: who holds a
-- relation on an object, by the rewrite rules of a namespace over the tuples of a store.
use memory_system.Prelude.{Text, ◌≡◌, ◌≢◌, ◌⊎◌, ◌++◌, some, List, [], ◌∷◌, Memᴰ}
use memory_system.Authz.Tuple.{Tuple, wildcard}
use memory_system.Authz.Namespace.{
  Namespace, RelationDef, Rewrite, this, computed, from, relation_of,
}
use memory_system.Authz.Store.{rows, Reader}
use memory_system.Authz.Check.{Node, Subject, subject_node}

-- A direct tuple names the subject itself, or everyone of its type where the relation allows that.
abbrev pub Names : RelationDef → Subject → Tuple → Type 0
Names d s tp =
    (tp.subject_relation ≡ [])
    × (tp.subject_type ≡ s.subject_type)
    × ((tp.subject_id ≡ s.subject_id)
        ⊎ ((tp.subject_id ≡ wildcard)
            × Memᴰ (s.subject_type ++ (b':' ∷ wildcard)) d.direct_subjects))

module _ (ns : Namespace) (read : Reader) where
  -- The relation of a node is defined and has the rewrite rule.
  pub record HasRule (n : Node) (rw : Rewrite) : Type 0 where
    pub rule_def : RelationDef
    pub rule_defined : relation_of ns n.object_type n.relation ≡ some rule_def
    pub rule_listed : Memᴰ rw rule_def.rewrites

  -- The tuple stands on the object of a node, under the relation.
  pub record HasTuple (n : Node) (relation : Text) (tp : Tuple) : Type 0 where
    pub stored : List Tuple
    pub stored_read : read n.object_type n.object_id relation ≡ rows stored
    pub stored_listed : Memᴰ tp stored

  -- A direct tuple grants the relation.
  pub data Grants (s : Subject) (n : Node) : Type 0 where
    direct :
        (tp : Tuple) (r : HasRule n this)
        → HasTuple n n.relation tp
        → Names r.rule_def s tp
        → Grants s n

  -- Whoever holds the second node holds the first.
  pub data Includes (n m : Node) : Type 0 where
    userset :
        (tp : Tuple)
        → HasRule n this
        → HasTuple n n.relation tp
        → tp.subject_relation ≢ []
        → m ≡ subject_node tp tp.subject_relation
        → Includes n m
    sibling :
        (relation : Text)
        → HasRule n (computed relation)
        → m ≡ record n { relation = relation }
        → Includes n m
    parent :
        (tupleset relation : Text) (tp : Tuple)
        → HasRule n (from tupleset relation)
        → HasTuple n tupleset tp
        → tp.subject_relation ≡ []
        → m ≡ subject_node tp relation
        → Includes n m

  -- The subject holds the relation on the object.
  pub data Holds (s : Subject) : Node → Type 0 where
    by_tuple : {n : Node} → Grants s n → Holds s n
    through : {n m : Node} → Includes n m → Holds s m → Holds s n
