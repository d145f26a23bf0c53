-- ===== src/Authz/Store.antt =====
-- internal/authz/store.go: the reads that a check makes, and the in-memory store. The map from
-- tuple keys is an association list without a key twice; Go's iteration order is the list's order.
pub mod TupleKey
pub mod Laws
use memory_system.Prelude.{Text, text_eq, ◌++◌, Bool, ◌&&◌, List, [], ◌∷◌, if◌then◌else◌}
use memory_system.Authz.Tuple.{Tuple}

-- What a store answers: `Store` of the source may also fail.
pub data Read : Type 0 where
  rows : List Tuple → Read
  failed : Text → Read

-- The reading half of the `Store` interface, at the moment of one check.
abbrev pub Reader : Type 0
Reader = Text → Text → Text → Read

unfoldable pub tuple_key : Tuple → Text
tuple_key t =
    t.object_type
    ++ (0 ∷ t.object_id
        ++ (0 ∷ t.relation
            ++ (0 ∷ t.subject_type ++ (0 ∷ t.subject_id ++ (0 ∷ t.subject_relation)))))

pub record MemoryStore : Type 0 where
  pub tuples : List (Text × Tuple)

abbrev pub new_memory_store : MemoryStore
new_memory_store = record { tuples = [] }

unfoldable pub remove_key : Text → List (Text × Tuple) → List (Text × Tuple)
remove_key k [] = []
remove_key k ((j, t) ∷ m) = let rest = remove_key k m in if text_eq j k then rest else (j, t) ∷ rest

unfoldable pub put_key : Text → Tuple → List (Text × Tuple) → List (Text × Tuple)
put_key k t [] = (k, t) ∷ []
put_key k t ((j, u) ∷ m) = if text_eq j k then (k, t) ∷ m else (j, u) ∷ put_key k t m

unfoldable pub write : MemoryStore → Tuple → MemoryStore
unfolding put_key tuple_key
write s t = record { tuples = put_key (tuple_key t) t s.tuples }

unfoldable pub delete : MemoryStore → Tuple → MemoryStore
unfolding remove_key tuple_key
delete s t = record { tuples = remove_key (tuple_key t) s.tuples }

unfoldable pub select : (Tuple → Bool) → List (Text × Tuple) → List Tuple
select p [] = []
select p ((k, t) ∷ m) = let rest = select p m in if p t then t ∷ rest else rest

on_object : Text → Text → Text → Tuple → Bool
on_object obj_type obj_id relation t =
    text_eq t.object_type obj_type && text_eq t.object_id obj_id && text_eq t.relation relation

of_subject : Text → Text → Tuple → Bool
of_subject subj_type subj_id t = text_eq t.subject_type subj_type && text_eq t.subject_id subj_id

unfoldable pub read_by_object_relation : MemoryStore → Reader
unfolding select on_object
read_by_object_relation s obj_type obj_id relation =
    rows (select (on_object obj_type obj_id relation) s.tuples)

unfoldable pub read_by_subject : MemoryStore → Text → Text → List Tuple
unfolding select of_subject
read_by_subject s subj_type subj_id = select (of_subject subj_type subj_id) s.tuples
