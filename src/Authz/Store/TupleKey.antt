-- ===== src/Authz/Store/TupleKey.antt =====
-- The key of a tuple joins its fields by NUL bytes, and is read back where no field holds one.
use memory_system.Prelude.{◌≡◌, ◌≢◌, refl, Text, [], ◌∷◌, ◌++◌, All, arith}
use memory_system.Authz.Tuple.{Tuple}
use memory_system.Authz.Store.{tuple_key}

abbrev pub NulFree : Text → Type 0
NulFree = All (λ b. b ≢ 0)

-- The last field may hold any byte: nothing follows it.
pub record Keyable (t : Tuple) : Type 0 where
  pub object_type_free : NulFree t.object_type
  pub object_id_free : NulFree t.object_id
  pub relation_free : NulFree t.relation
  pub subject_type_free : NulFree t.subject_type
  pub subject_id_free : NulFree t.subject_id

cut_nul : (a b x y : Text) → NulFree a → NulFree x → a ++ (0 ∷ b) ≡ x ++ (0 ∷ y) → (a ≡ x) × (b ≡ y)
cut_nul [] b [] y la lx e = (refl, cc)
cut_nul [] b (d ∷ x) y la lx e = absurd (lx.0 (cc))
cut_nul (d ∷ a) b [] y la lx e = absurd (la.0 (cc))
cut_nul (d ∷ a) b (d' ∷ x) y la lx e = let (p, q) = cut_nul a b x y la.1 lx.1 (cc) in (cc, q)

-- Two tuples with one key are one tuple.
pub tuple_key-injective : (t u : Tuple) → Keyable t → Keyable u → tuple_key t ≡ tuple_key u → t ≡ u
unfolding tuple_key
tuple_key-injective t u ht hu e =
    let (a, e1) =
      cut_nul t.object_type _ u.object_type _ ht.object_type_free hu.object_type_free e in
    let (b, e2) = cut_nul t.object_id _ u.object_id _ ht.object_id_free hu.object_id_free e1 in
    let (c, e3) = cut_nul t.relation _ u.relation _ ht.relation_free hu.relation_free e2 in
    let (d, e4) =
      cut_nul t.subject_type _ u.subject_type _ ht.subject_type_free hu.subject_type_free e3 in
    let (f, e5) = cut_nul t.subject_id _ u.subject_id _ ht.subject_id_free hu.subject_id_free e4 in
    ground arith
