-- ===== src/Service/Grants/NoAdmins.antt =====
-- Whatever is granted and revoked, the admins stay the same.
use memory_system.Prelude.{
  ◌≡◌, ◌≢◌, ◌↔◌, ◌⊎◌, refl, sym, ap, ◌∙◌, subst, inl, inr, Text, List, [], ◌∷◌, All, Memᴰ,
}
use memory_system.Authz.Tuple.{Tuple, rel_admin, rel_system}
use memory_system.Authz.Store.{MemoryStore, write, delete, rows, failed, read_by_object_relation}
use memory_system.Authz.Store.Laws.{
  IsKeyed, ReadsBack, stored_on, read-write, read-delete, update-IsKeyed, read-All,
}
use memory_system.Authz.Namespace.{default_namespace}
use memory_system.Authz.Check.{Node, Subject}
use memory_system.Authz.Membership.{HasTuple}
use memory_system.Authz.Model.{tenant_admin}
use memory_system.Authz.Model.Inclusion.{HoldsAt}
use memory_system.Authz.Model.Admins.{same_admins}
use memory_system.Authz.Seed.Reach.{Reachable, wrote, deleted, Reachable-WellTyped}
use memory_system.Service.Access.{Directory}
use memory_system.Service.Grants.Escalation.{
  Modest, Slight, Delegation, NamedUsers, Delegation-Slight,
}

pub data Delegations (s : Directory) : Directory → Type 0 where
  none_yet : Delegations s s
  then_one : {u v : Directory} → Delegations s u → Delegation u v → Delegations s v

-- What is asked of a state: the program's writers made its tuples, each under its key, and the ids of its
-- users are free of NUL bytes.
pub record Sane (s : Directory) : Type 0 where
  pub reachable : Reachable s.store
  pub keyed : IsKeyed s.store
  pub named : NamedUsers s

HasTuple-ReadsBack :
    (m : MemoryStore) (n : Node) (relation : Text) (tp : Tuple)
    → HasTuple default_namespace (read_by_object_relation m) n relation tp
    → ReadsBack n.object_type n.object_id relation tp m
HasTuple-ReadsBack m n relation tp t =
    let same : stored_on m n.object_type n.object_id relation ≡ t.stored =
      ap (λ r. elim r as (λ x. List Tuple) [ rows ts ↦ ts | failed e ↦ [] ]) t.stored_read in
    subst (Memᴰ tp) (sym same) t.stored_listed

ReadsBack-HasTuple :
    (m : MemoryStore) (n : Node) (relation : Text) (tp : Tuple)
    → ReadsBack n.object_type n.object_id relation tp m
    → HasTuple default_namespace (read_by_object_relation m) n relation tp
unfolding read_by_object_relation
ReadsBack-HasTuple m n relation tp i = record {
  stored = stored_on m n.object_type n.object_id relation;
  stored_read = refl;
  stored_listed = i;
}

-- The tuples of a relation that is an admin's or leads to the system.
SameAdmins : MemoryStore → MemoryStore → Type 0
SameAdmins m m' =
    (n : Node) (relation : Text) (tp : Tuple)
    → (relation ≡ rel_admin) ⊎ (relation ≡ rel_system)
    → ReadsBack n.object_type n.object_id relation tp m
      ↔ ReadsBack n.object_type n.object_id relation tp m'

units-All : {A : Type 0} (xs : List A) → All (λ x. Unit {0}) xs
units-All [] = tt
units-All (x ∷ xs) = (tt, units-All xs)

on_relation :
    (m : MemoryStore) (n : Node) (relation : Text) (tp : Tuple)
    → ReadsBack n.object_type n.object_id relation tp m
    → tp.relation ≡ relation
unfolding read_by_object_relation
on_relation m n relation tp i =
    let (u, ot, oi, rel) =
      read-All (λ t. Unit {0}) m n.object_type n.object_id relation _ tp (units-All m.tuples) refl
        i in
    rel

Modest-other :
    (t tp : Tuple) (relation : Text)
    → Modest t
    → (relation ≡ rel_admin) ⊎ (relation ≡ rel_system)
    → tp.relation ≡ relation
    → tp ≢ t
Modest-other t tp relation m (inl a) on same =
    m.no_admin (ap (λ (x : Tuple). x.relation) (sym same) ∙ on ∙ a)
Modest-other t tp relation m (inr a) on same =
    m.no_edge (ap (λ (x : Tuple). x.relation) (sym same) ∙ on ∙ a)

write-SameAdmins : (m : MemoryStore) (t : Tuple) → IsKeyed m → Modest t → SameAdmins m (write m t)
unfolding SameAdmins
write-SameAdmins m t keyed small n relation tp which =
    let law = read-write m t tp n.object_type n.object_id relation keyed small.keyable in
    (
      λ i. law.1 (inr i),
      λ i. elim (law.0 i) [
        | inl (same, on) ↦
            absurd (
              Modest-other t tp relation small which (on_relation (write m t) n relation tp i) same)
        | inr j ↦ j
      ],
    )

delete-SameAdmins : (m : MemoryStore) (t : Tuple) → IsKeyed m → Modest t → SameAdmins m (delete m t)
unfolding SameAdmins
delete-SameAdmins m t keyed small n relation tp which =
    let law = read-delete m t tp n.object_type n.object_id relation keyed small.keyable in
    (
      λ i. law.1 (i, Modest-other t tp relation small which (on_relation m n relation tp i)),
      λ i. (law.0 i).0,
    )

Slight-Sane : {s s' : Directory} → Sane s → Slight s s' → Sane s'
Slight-Sane {s} h (inl e) = subst Sane (sym e) h
Slight-Sane {s} h (inr (t, m, inl e)) = subst Sane (sym e) record {
  reachable = wrote h.reachable m.seeded;
  keyed = (update-IsKeyed s.store t h.keyed m.keyable).0;
  named = h.named;
}
Slight-Sane {s} h (inr (t, m, inr e)) = subst Sane (sym e) record {
  reachable = deleted t h.reachable;
  keyed = (update-IsKeyed s.store t h.keyed m.keyable).1;
  named = h.named;
}

Slight-SameAdmins : {s s' : Directory} → Sane s → Slight s s' → SameAdmins s.store s'.store
unfolding SameAdmins
Slight-SameAdmins {s} h (inl e) =
    subst (λ (x : Directory). SameAdmins s.store x.store) (sym e)
      (λ n relation tp which. (λ i. i, λ i. i))
Slight-SameAdmins {s} h (inr (t, m, inl e)) =
    subst (λ (x : Directory). SameAdmins s.store x.store) (sym e)
      (write-SameAdmins s.store t h.keyed m)
Slight-SameAdmins {s} h (inr (t, m, inr e)) =
    subst (λ (x : Directory). SameAdmins s.store x.store) (sym e)
      (delete-SameAdmins s.store t h.keyed m)

Delegations-kept :
    {s s' : Directory} → Sane s → Delegations s s' → Sane s' × SameAdmins s.store s'.store
unfolding SameAdmins
Delegations-kept h none_yet = (h, λ n relation tp which. (λ i. i, λ i. i))
Delegations-kept h (then_one ds d) =
    let (sane, before) = Delegations-kept h ds in
    let slight = Delegation-Slight sane.named d in
    let after = Slight-SameAdmins sane slight in
    (
      Slight-Sane sane slight,
      λ n relation tp which.
          let a = before n relation tp which in
          let b = after n relation tp which in (λ i. b.0 (a.0 i), λ i. a.1 (b.1 i)),
    )

-- However many grants and revocations of access to tenants and documents are made, by whomever and with
-- whatever outcome, the admins of each tenant stay the same: none is made, and none is removed. The state
-- after is one that the program's writers make, as the state before.
pub Delegations-admins :
    (s s' : Directory) (subject : Subject) (id : Text)
    → Sane s
    → Delegations s s'
    → Sane s'
      × (HoldsAt (read_by_object_relation s.store) subject tenant_admin id
          ↔ HoldsAt (read_by_object_relation s'.store) subject tenant_admin id)
unfolding SameAdmins
Delegations-admins s s' subject id h ds =
    let (sane, same) = Delegations-kept h ds in
    let typed = Reachable-WellTyped s.store h.reachable in
    let typed' = Reachable-WellTyped s'.store sane.reachable in
    (
      sane,
      (
        same_admins (read_by_object_relation s.store) (read_by_object_relation s'.store) subject id
            typed typed'
            (λ n relation tp which t.
              ReadsBack-HasTuple s'.store n relation tp
                ((same n relation tp which).0 (HasTuple-ReadsBack s.store n relation tp t))),
        same_admins (read_by_object_relation s'.store) (read_by_object_relation s.store) subject id
            typed' typed
            (λ n relation tp which t.
              ReadsBack-HasTuple s.store n relation tp
                ((same n relation tp which).1 (HasTuple-ReadsBack s'.store n relation tp t))),
      ),
    )
