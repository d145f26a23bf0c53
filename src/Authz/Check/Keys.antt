-- ===== src/Authz/Check/Keys.antt =====
-- The key of a node, `objType:objID#relation`, is read back as long as no type holds a colon and no
-- relation holds a hash sign.
use memory_system.Prelude.{ℕ, ◌≡◌, ◌≢◌, refl, All, subst, Text, [], ◌∷◌, ◌++◌, arith}
use memory_system.Authz.Check.{Node, node_key}

-- The byte does not occur in the text.
abbrev pub Lacks : ℕ → Text → Type 0
Lacks c t = All (λ b. b ≢ c) t

pub record Plain (n : Node) : Type 0 where
  pub type_plain : Lacks b':' n.object_type
  pub relation_plain : Lacks b'#' n.relation

pub not-Lacks_middle : (c : ℕ) (a b : Text) → ¬ Lacks c (a ++ (c ∷ b))
not-Lacks_middle c [] b h = h.0 refl
not-Lacks_middle c (x ∷ a) b h = not-Lacks_middle c a b h.1

-- cut at the first separator
cut_first :
    (c : ℕ) (a b x y : Text)
    → Lacks c a
    → Lacks c x
    → a ++ (c ∷ b) ≡ x ++ (c ∷ y)
    → (a ≡ x) × (b ≡ y)
cut_first c [] b [] y la lx e = (refl, cc)
cut_first c [] b (d ∷ x) y la lx e = absurd (lx.0 (cc))
cut_first c (d ∷ a) b [] y la lx e = absurd (la.0 (cc))
cut_first c (d ∷ a) b (d' ∷ x) y la lx e =
    let (p, q) = cut_first c a b x y la.1 lx.1 (cc) in (cc, q)

-- cut at the last separator
cut_last :
    (c : ℕ) (a b x y : Text)
    → Lacks c b
    → Lacks c y
    → a ++ (c ∷ b) ≡ x ++ (c ∷ y)
    → (a ≡ x) × (b ≡ y)
cut_last c [] b [] y lb ly e = (refl, cc)
cut_last c [] b (d ∷ x) y lb ly e =
    let q : b ≡ x ++ (c ∷ y) = cc in absurd (not-Lacks_middle c x y (subst (Lacks c) q lb))
cut_last c (d ∷ a) b [] y lb ly e =
    let q : y ≡ a ++ (c ∷ b) = cc in absurd (not-Lacks_middle c a b (subst (Lacks c) q ly))
cut_last c (d ∷ a) b (d' ∷ x) y lb ly e = let (p, q) = cut_last c a b x y lb ly (cc) in (cc, q)

-- Two nodes with one key are one node.
pub node_key-injective : (n q : Node) → Plain n → Plain q → node_key n ≡ node_key q → n ≡ q
unfolding node_key
node_key-injective n q hn hq e =
    let (types, rest) =
      cut_first b':' n.object_type (n.object_id ++ (b'#' ∷ n.relation)) q.object_type
        (q.object_id ++ (b'#' ∷ q.relation)) hn.type_plain hq.type_plain e in
    let (ids, relations) =
      cut_last b'#' n.object_id n.relation q.object_id q.relation hn.relation_plain
        hq.relation_plain rest in
    ground arith
