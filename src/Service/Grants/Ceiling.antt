-- ===== src/Service/Grants/Ceiling.antt =====
-- Who may grant and revoke, and what a grant writes.
use memory_system.Prelude.{
  ◌≡◌, ◌≢◌, ◌⊎◌, refl, ap, ◌∙◌, inl, inr, Text, text_eq, eq_iff, ne_of_text_eq, Bool, true, false,
  ◌||◌, some, ok, ok_inj, guard-ok, Option-cases, if◌then◌else◌, first_where,
}
use memory_system.Authz.Tuple.{
  Tuple, type_system, type_tenant, system_object_id, rel_admin, rel_manager, rel_viewer, rel_member,
}
use memory_system.Authz.Model.{Place, system_admin, tenant_admin, tenant_manager}
use memory_system.Authz.Model.Inclusion.{node_at}
use memory_system.Authz.Store.{MemoryStore, write, delete}
use memory_system.Authz.Seed.Reach.{Reachable}
use memory_system.Service.Access.{
  Caller, Tenant, TenantUser, Directory, Call, reading_tenant, invalid_input, call_failed, may,
  is_admin, get_tenant,
}
use memory_system.Service.Access.Decides.{CallerHolds, authorize-Holds}
use memory_system.Service.Grants.{
  can_manage_tenant, can_grant_tenant_relation, tenant_grant_tuple, has_email, write_tuple,
  delete_tuple, shared_tenant, type_personal, tenant_subject, grant_tenant_access,
  revoke_tenant_access,
}
use memory_system.Service.Grants.Inverted.{
  checked-ok, step-ok, write_tuple-ok, tenant_subject-ok, delete_tuple-ok,
}

-- The caller runs in the process, or is an admin of the system.
abbrev pub Operator : Directory → Caller → Type 0
Operator s c =
    (c.local_admin ≡ true)
    ⊎ ((s.wired ≡ true) × CallerHolds s c (node_at system_admin system_object_id))

-- What the grant of a relation on a tenant takes: managers are made by the tenant's admins, viewers and
-- members by its managers, and all by operators.
abbrev pub Entitled : Directory → Caller → Text → Text → Type 0
Entitled s c tenant_id relation =
    Operator s c
    ⊎ ((s.wired ≡ true)
        × (((relation ≡ rel_manager) × CallerHolds s c (node_at tenant_admin tenant_id))
            ⊎ (((relation ≡ rel_viewer) ⊎ (relation ≡ rel_member))
                × CallerHolds s c (node_at tenant_manager tenant_id))))

or-true : (a b : Bool) → (a || b) ≡ true → (a ≡ true) ⊎ (b ≡ true)
or-true true b h = inl refl
or-true false b h = inr h

is_admin-Operator :
    (s : Directory) (c : Caller) → Reachable s.store → is_admin s c ≡ true → Operator s c
unfolding is_admin
is_admin-Operator s c r h =
    elim (or-true c.local_admin (may s c type_system system_object_id rel_admin) h) [
      | inl t ↦ inl t
      | inr t ↦ inr (
          (authorize-Holds s c system_admin (node_at system_admin system_object_id) r
              record { at_type = refl; at_relation = refl }).0
            t)
    ]

may-Holds :
    (s : Directory) (c : Caller) (p : Place) (id : Text)
    → Reachable s.store
    → may s c (node_at p id).object_type id (node_at p id).relation ≡ true
    → (s.wired ≡ true) × CallerHolds s c (node_at p id)
may-Holds s c p id r h =
    (authorize-Holds s c p (node_at p id) r record { at_type = refl; at_relation = refl }).0 h

can_manage_tenant-Holds :
    (s : Directory) (c : Caller) (id : Text)
    → Reachable s.store
    → can_manage_tenant s c id ≡ true
    → Operator s c ⊎ ((s.wired ≡ true) × CallerHolds s c (node_at tenant_manager id))
unfolding can_manage_tenant
can_manage_tenant-Holds s c id r h =
    elim (or-true (is_admin s c) (may s c type_tenant id rel_manager) h) [
      | inl t ↦ inl (is_admin-Operator s c r t)
      | inr t ↦ inr (may-Holds s c tenant_manager id r t)
    ]

if-true : (b x y : Bool) → (if b then x else y) ≡ true → ((b ≡ true) × (x ≡ true)) ⊎ (y ≡ true)
if-true true x y h = inl (refl, h)
if-true false x y h = inr h

can_grant-Entitled :
    (s : Directory) (c : Caller) (id relation : Text)
    → Reachable s.store
    → can_grant_tenant_relation s c id relation ≡ true
    → Entitled s c id relation
unfolding can_grant_tenant_relation
can_grant-Entitled s c id relation r h = elim (if-true (text_eq relation rel_manager) _ _ h) [
  | inl (m, k) ↦ elim (or-true (is_admin s c) (may s c type_tenant id rel_admin) k) [
    | inl t ↦ inl (is_admin-Operator s c r t)
    | inr t ↦
        let held = may-Holds s c tenant_admin id r t in
        inr (held.0, inl ((eq_iff relation rel_manager).0 m, held.1))
  ]
  | inr k ↦ elim (if-true (text_eq relation rel_viewer || text_eq relation rel_member) _ _ k) [
    | inl (m, q) ↦ elim (can_manage_tenant-Holds s c id r q) [
      | inl o ↦ inl o
      | inr held ↦
          let which : (relation ≡ rel_viewer) ⊎ (relation ≡ rel_member) =
            elim (or-true (text_eq relation rel_viewer) (text_eq relation rel_member) m) [
              | inl t ↦ inl ((eq_iff relation rel_viewer).0 t)
              | inr t ↦ inr ((eq_iff relation rel_member).0 t)
            ] in
          inr (held.0, inr (which, held.1))
    ]
    | inr q ↦ cc
  ]
]

-- The tenant exists, and is not personal.
abbrev pub Shared : Text → Directory → Type 0
Shared id s =
    (t : Tenant) × (first_where (λ (x : Tenant). text_eq x.id id) s.tenants ≡ some t)
    × (t.tenant_type ≢ type_personal)

shared_tenant-Shared :
    (fails : Call → Bool) (id : Text) (s : Directory)
    → shared_tenant fails id s ≡ ok tt
    → Shared id s
unfolding shared_tenant get_tenant
shared_tenant-Shared fails id s h =
    let (t, got, k) = step-ok (get_tenant fails id s) _ tt h in
    let (f, found) = guard-ok (fails reading_tenant) call_failed _ t got in
    let (personal, done) = guard-ok (text_eq t.tenant_type type_personal) invalid_input _ tt k in
    elim (Option-cases (first_where (λ (x : Tenant). text_eq x.id id) s.tenants)) [
      | inl n ↦ let q = rw n at found in cc
      | inr (u, n) ↦
          let q = rw n at found in
          (t, n ∙ ap some (ok_inj q), ne_of_text_eq t.tenant_type type_personal personal)
    ]

-- What a change of a user's relation on a tenant took.
abbrev pub Delegated :
    (MemoryStore → Tuple → MemoryStore)
    → Caller
    → Text
    → Text
    → Text
    → Directory
    → Directory
    → Type 0
Delegated change c id email relation s s' =
    Entitled s c id relation
    × ((tu : TenantUser) × (first_where (has_email email) s.users ≡ some tu)
        × (s' ≡ record s { store = change s.store (tenant_grant_tuple id tu.id relation) }))

-- In a state whose tuples the program's writers made, a grant on a tenant that returns no error was made by
-- a caller entitled to it: an operator, an admin of the tenant for the managers, a manager of the tenant for
-- the viewers and members. It wrote one tuple, of the user with the email, and the tenant is not personal.
pub grant_tenant_access-Delegated :
    (fails : Call → Bool) (c : Caller) (id email relation : Text) (s s' : Directory)
    → Reachable s.store
    → grant_tenant_access fails c id email relation s ≡ (ok tt, s')
    → Delegated write c id email relation s s' × Shared id s
unfolding grant_tenant_access
grant_tenant_access-Delegated fails c id email relation s s' r h =
    let (tu, k, w) =
      checked-ok s s' (tenant_subject fails true c id email relation s)
        (λ u. write_tuple fails (tenant_grant_tuple id u.id relation) s) tt h in
    let (may_grant, shared, found) = tenant_subject-ok fails true c id email relation s tu k in
    let done = write_tuple-ok fails (tenant_grant_tuple id tu.id relation) s s' w in
    (
      (can_grant-Entitled s c id relation r may_grant, (tu, found, done)),
      shared_tenant-Shared fails id s shared,
    )

-- So was a revocation, which deleted one tuple.
pub revoke_tenant_access-Delegated :
    (fails : Call → Bool) (c : Caller) (id email relation : Text) (s s' : Directory)
    → Reachable s.store
    → revoke_tenant_access fails c id email relation s ≡ (ok tt, s')
    → Delegated delete c id email relation s s'
unfolding revoke_tenant_access
revoke_tenant_access-Delegated fails c id email relation s s' r h =
    let (tu, k, w) =
      checked-ok s s' (tenant_subject fails false c id email relation s)
        (λ u. delete_tuple fails (tenant_grant_tuple id u.id relation) s) tt h in
    let (may_grant, shared, found) = tenant_subject-ok fails false c id email relation s tu k in
    let done = delete_tuple-ok fails (tenant_grant_tuple id tu.id relation) s s' w in
    (can_grant-Entitled s c id relation r may_grant, (tu, found, done))
