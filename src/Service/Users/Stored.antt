-- ===== src/Service/Users/Stored.antt =====
-- What a store has after writes and deletes of the tuples of a user.
use memory_system.Prelude.{
  ◌≡◌, ◌≢◌, ◌↔◌, ◌⊎◌, refl, ap, inl, inr, Text, text_eq, ne_of_text_eq, arith,
}
use memory_system.Authz.Tuple.{Tuple, rel_admin, rel_owner, service_principal_id}
use memory_system.Authz.Store.{MemoryStore, write, delete}
use memory_system.Authz.Store.TupleKey.{NulFree, Keyable}
use memory_system.Authz.Store.Laws.{IsKeyed, ReadsBack, read-write, read-delete, update-IsKeyed}
use memory_system.Authz.Seed.{tenant_admin_tuple, tenant_owner_tuple}
use memory_system.Service.Users.{service_admin}

-- The store has the tuple.
abbrev pub Stored : Tuple → MemoryStore → Type 0
Stored t m = ReadsBack t.object_type t.object_id t.relation t m

module _ (m : MemoryStore) (t u : Tuple) (keyed : IsKeyed m) (key : Keyable t) where
  pub Stored-write : Stored u (write m t) ↔ ((u ≡ t) ⊎ Stored u m)
  Stored-write =
      let law = read-write m t u u.object_type u.object_id u.relation keyed key in
      (
        λ i. elim (law.0 i) [ inl e ↦ inl e.0 | inr j ↦ inr j ],
        λ d. law.1 (elim d [ inl e ↦ inl (e, (refl, refl, refl)) | inr j ↦ inr j ]),
      )

  pub Stored-delete : Stored u (delete m t) ↔ (Stored u m × (u ≢ t))
  Stored-delete = read-delete m t u u.object_type u.object_id u.relation keyed key

-- an admin's tuple, an owner's, and the one of the tenant's service principal
module _ (tenant_id uid : Text) (ht : NulFree tenant_id) (hu : NulFree uid) where
  abbrev pub a : Tuple
  a = tenant_admin_tuple tenant_id uid

  abbrev pub o : Tuple
  o = tenant_owner_tuple tenant_id uid

  pub a-Keyable : Keyable a
  a-Keyable = record {
    object_type_free = omega arith;
    object_id_free = ht;
    relation_free = omega arith;
    subject_type_free = omega arith;
    subject_id_free = hu;
  }

  pub o-Keyable : Keyable o
  o-Keyable = record {
    object_type_free = omega arith;
    object_id_free = ht;
    relation_free = omega arith;
    subject_type_free = omega arith;
    subject_id_free = hu;
  }

  pub service-Keyable : Keyable (service_admin tenant_id)
  unfolding service_principal_id
  service-Keyable = record {
    object_type_free = omega arith;
    object_id_free = omega arith;
    relation_free = omega arith;
    subject_type_free = omega arith;
    subject_id_free = (
      λ e. absurd (omega arith),
      (λ e. absurd (omega arith), (λ e. absurd (omega arith), (λ e. absurd (omega arith), ht))),
    );
  }

  pub a-not_o : a ≢ o
  unfolding text_eq
  a-not_o e = ne_of_text_eq rel_admin rel_owner refl (ap (λ (t : Tuple). t.relation) e)

  -- What the store has after a write of the one tuple and a delete of the other, and after both deletes.
  pub swapped :
      (m : MemoryStore) (t u : Tuple)
      → IsKeyed m
      → Keyable t
      → Keyable u
      → t ≢ u
      → Stored t (delete (write m t) u) × (¬ Stored u (delete (write m t) u))
  swapped m t u keyed kt ku ne =
      let keyed' = (update-IsKeyed m t keyed kt).0 in
      (
        (Stored-delete (write m t) u t keyed' ku).1
            ((Stored-write m t t keyed kt).1 (inl refl), ne),
        λ i. ((Stored-delete (write m t) u u keyed' ku).0 i).1 refl,
      )

  pub both_gone :
      (m : MemoryStore)
      → IsKeyed m
      → (¬ Stored a (delete (delete m a) o)) × (¬ Stored o (delete (delete m a) o))
  both_gone m keyed =
      let keyed' = (update-IsKeyed m a keyed a-Keyable).1 in
      (
        λ i.
            let there = ((Stored-delete (delete m a) o a keyed' o-Keyable).0 i).0 in
            ((Stored-delete m a a keyed a-Keyable).0 there).1 refl,
        λ i. ((Stored-delete (delete m a) o o keyed' o-Keyable).0 i).1 refl,
      )
