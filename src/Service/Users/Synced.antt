-- ===== src/Service/Users/Synced.antt =====
-- A change of role that returns no error leaves the tuples that the role asks for.
use memory_system.Prelude.{
  ℕ, ◌≡◌, ◌≢◌, ◌↔◌, ◌⊎◌, ltb, refl, sym, ap, ◌∙◌, subst, inl, inr, Text, text_eq, eq_iff,
  ne_of_text_eq, Bool, true, false, not, some, List, All, ok, err, Bool-cases, if◌then◌else◌,
  first_where, first-All, count_where, update_where,
}
use memory_system.Authz.Tuple.{Tuple, type_tenant, type_system}
use memory_system.Authz.Store.{MemoryStore, write, delete}
use memory_system.Authz.Store.TupleKey.{NulFree}
use memory_system.Authz.Store.Laws.{IsKeyed, update-IsKeyed}
use memory_system.Authz.Seed.{tenant_admin_tuple, tenant_owner_tuple, tenant_user_tuple}
use memory_system.Service.Access.{
  Caller, TenantUser, Directory, Call, AccessError, counting_admins, updating_user, require_admin,
}
use memory_system.Service.Grants.{Outcome, has_email, resolve_subject_by_email}
use memory_system.Service.Grants.Inverted.{
  checked-ok, write_tuple-ok, delete_tuple-ok, resolve-found,
}
use memory_system.Service.Users.{
  role_admin, role_owner, valid_role, admin_of, service_admin, sync_service_principal_admin,
  has_user_id, with_role, update_role_row, sync_role_tuples, update_body, change_role,
  update_tenant_user_role,
}
use memory_system.Service.Users.Stored.{
  Stored, Stored-write, Stored-delete, a-Keyable, o-Keyable, service-Keyable,
}
use memory_system.Service.Users.Inverted.{
  and_then-ok, settle_rows-ok, role_store, with_store, sync_role_tuples-ok,
}
use memory_system.Service.Users.Roles.{role_store-Stored}

-- An if between two outcomes that gave a value took one of them.
branch :
    {A : Type 0} (b : Bool) (p q r : Outcome A)
    → (if b then p else q) ≡ r
    → ((b ≡ true) × (p ≡ r)) ⊎ ((b ≡ false) × (q ≡ r))
branch true p q r h = inl (refl, h)
branch false p q r h = inr (refl, h)

not-ok :
    {A : Type 0} {X : Type 0} (e : AccessError) (a : A) (s s' : Directory)
    → ◌≡◌ {A = Outcome A} (err e, s) (ok a, s')
    → X
not-ok e a s s' h = absurd (let clash = ap (λ p. p.0) h in cc)

abbrev admins : Text → List TenantUser → ℕ
admins tenant_id users = count_where (admin_of tenant_id) users

sync-ok :
    (fails : Call → Bool) (tenant_id : Text) (s s' : Directory)
    → s.wired ≡ true
    → sync_service_principal_admin fails tenant_id s ≡ (ok tt, s')
    → s'
      ≡ with_store s (
          if ltb 0 (admins tenant_id s.users)
          then write s.store (service_admin tenant_id)
          else delete s.store (service_admin tenant_id))
unfolding sync_service_principal_admin
sync-ok fails tenant_id s s' wired h = elim (branch (not s.wired) _ _ (ok tt, s') h) [
  | inl (w, k) ↦ absurd (let clash = ap not wired in cc)
  | inr (w, k) ↦ elim (branch (fails counting_admins) _ _ (ok tt, s') k) [
    | inl (f, q) ↦ not-ok _ tt s s' q
    | inr (f, q) ↦ elim (branch (ltb 0 (admins tenant_id s.users)) _ _ (ok tt, s') q) [
      | inl (c, l) ↦ rw c (write_tuple-ok fails (service_admin tenant_id) s s' l)
      | inr (c, l) ↦ rw c (delete_tuple-ok fails (service_admin tenant_id) s s' l)
    ]
  ]
]

update_role_row-ok :
    (fails : Call → Bool) (id role : Text) (s s' : Directory)
    → update_role_row fails id role s ≡ (ok tt, s')
    → s' ≡ record s { users = update_where (has_user_id id) (with_role role) s.users }
unfolding update_role_row
update_role_row-ok fails id role s s' h = elim (branch (fails updating_user) _ _ (ok tt, s') h) [
  | inl (f, q) ↦ not-ok _ tt s s' q
  | inr (f, q) ↦ sym (ap (λ p. p.1) q)
]

tenant_not_system :
    (tenant_id role uid : Text) → tenant_user_tuple tenant_id role uid ≢ service_admin tenant_id
unfolding text_eq
tenant_not_system tenant_id role uid e =
    ne_of_text_eq type_tenant type_system refl (ap (λ (t : Tuple). t.object_type) e)

-- the store after the reconciliation
abbrev synced_store : Text → Bool → MemoryStore → MemoryStore
synced_store tenant_id some_admin m =
    if some_admin then write m (service_admin tenant_id) else delete m (service_admin tenant_id)

synced_store-Stored :
    (tenant_id uid : Text) (b : Bool) (m : MemoryStore)
    → NulFree tenant_id
    → NulFree uid
    → IsKeyed m
    → (Stored (service_admin tenant_id) (synced_store tenant_id b m) ↔ (b ≡ true))
      × ((role : Text)
          → Stored (tenant_user_tuple tenant_id role uid) (synced_store tenant_id b m)
            ↔ Stored (tenant_user_tuple tenant_id role uid) m)
synced_store-Stored tenant_id uid true m ht hu keyed =
    let key = service-Keyable tenant_id uid ht hu in
    let svc = service_admin tenant_id in
    (
      (λ i. refl, λ e. (Stored-write m svc svc keyed key).1 (inl refl)),
      λ role.
          let u = tenant_user_tuple tenant_id role uid in
          let law = Stored-write m svc u keyed key in
          (
            λ i. elim (law.0 i) [
              | inl e ↦ absurd (tenant_not_system tenant_id role uid e)
              | inr j ↦ j
            ],
            λ j. law.1 (inr j),
          ),
    )
synced_store-Stored tenant_id uid false m ht hu keyed =
    let key = service-Keyable tenant_id uid ht hu in
    let svc = service_admin tenant_id in
    (
      (λ i. absurd (((Stored-delete m svc svc keyed key).0 i).1 refl), λ e. cc),
      λ role.
          let u = tenant_user_tuple tenant_id role uid in
          let law = Stored-delete m svc u keyed key in
          (λ i. (law.0 i).0, λ j. law.1 (j, tenant_not_system tenant_id role uid)),
    )

-- What a change of the role of a user leaves: the row has the role; the admin's and the owner's tuple of
-- the user are there exactly for that role, and the tuple of the tenant's service principal exactly when
-- the tenant has an admin.
abbrev pub Synced : TenantUser → Text → Directory → Directory → Type 0
Synced tu role s s' =
    (s'.users ≡ update_where (has_user_id tu.id) (with_role role) s.users)
    × (Stored (tenant_admin_tuple tu.tenant_id tu.id) s'.store ↔ (role ≡ role_admin))
    × (Stored (tenant_owner_tuple tu.tenant_id tu.id) s'.store ↔ (role ≡ role_owner))
    × (Stored (service_admin tu.tenant_id) s'.store
        ↔ (ltb 0 (count_where (admin_of tu.tenant_id) s'.users) ≡ true))

role_store-IsKeyed :
    (tu : TenantUser) (role : Text) (m : MemoryStore)
    → NulFree tu.tenant_id
    → NulFree tu.id
    → IsKeyed m
    → IsKeyed (role_store tu role m)
role_store-IsKeyed tu role m ht hu keyed =
    let a = tenant_admin_tuple tu.tenant_id tu.id in
    let o = tenant_owner_tuple tu.tenant_id tu.id in
    let ka = a-Keyable tu.tenant_id tu.id ht hu in
    let ko = o-Keyable tu.tenant_id tu.id ht hu in
    elim (Bool-cases (text_eq role role_admin)) [
      | inl t ↦ rw t (update-IsKeyed (write m a) o (update-IsKeyed m a keyed ka).0 ko).1
      | inr t ↦ elim (Bool-cases (text_eq role role_owner)) [
        | inl w ↦ rw (t, w) (update-IsKeyed (write m o) a (update-IsKeyed m o keyed ko).0 ka).1
        | inr w ↦ rw (t, w) (update-IsKeyed (delete m a) o (update-IsKeyed m a keyed ka).1 ko).1
      ]
    ]

update_body-ok :
    (fails : Call → Bool) (tu : TenantUser) (role : Text) (s s' : Directory)
    → s.wired ≡ true
    → update_body fails tu role s ≡ (ok tt, s')
    → s' ≡ record s {
      users = update_where (has_user_id tu.id) (with_role role) s.users;
      store =
          synced_store tu.tenant_id
            (ltb 0
              (admins tu.tenant_id (update_where (has_user_id tu.id) (with_role role) s.users)))
            (role_store tu role s.store);
    }
unfolding update_body
update_body-ok fails tu role s s' wired h =
    let (s1, p, k) = and_then-ok (update_role_row fails tu.id role s) _ tt s' h in
    let (s2, q, l) = and_then-ok (sync_role_tuples fails tu role s1) _ tt s' k in
    let e1 = update_role_row-ok fails tu.id role s s1 p in
    let e2 = sync_role_tuples-ok fails tu role s1 s2 q in
    let wired2 : s2.wired ≡ true =
      ap (λ (x : Directory). x.wired) e2 ∙ ap (λ (x : Directory). x.wired) e1 ∙ wired in
    let e3 = sync-ok fails tu.tenant_id s2 s' wired2 l in
    let after : Directory → Directory =
      λ x. with_store x (synced_store tu.tenant_id (ltb 0 (admins tu.tenant_id x.users)) x.store) in
    let changed : Directory → Directory = λ x. with_store x (role_store tu role x.store) in
    e3 ∙ ap after (e2 ∙ ap changed e1)

update_body-Synced :
    (fails : Call → Bool) (tu : TenantUser) (role : Text) (s s' : Directory)
    → s.wired ≡ true
    → IsKeyed s.store
    → NulFree tu.tenant_id
    → NulFree tu.id
    → update_body fails tu role s ≡ (ok tt, s')
    → Synced tu role s s'
update_body-Synced fails tu role s s' wired keyed ht hu h =
    let done = update_body-ok fails tu role s s' wired h in
    let users = update_where (has_user_id tu.id) (with_role role) s.users in
    let some_admin = ltb 0 (admins tu.tenant_id users) in
    let (svc, others) =
      synced_store-Stored tu.tenant_id tu.id some_admin (role_store tu role s.store) ht hu
        (role_store-IsKeyed tu role s.store ht hu keyed) in
    let (adm, own) = role_store-Stored tu.tenant_id tu.id ht hu role s.store tu refl refl keyed in
    let law_a = others role_admin in
    let law_o = others role_owner in
    subst (Synced tu role s) (sym done) (
      refl,
      (λ i. adm.0 (law_a.0 i), λ e. law_a.1 (adm.1 e)),
      (λ i. own.0 (law_o.0 i), λ e. law_o.1 (own.1 e)),
      svc,
    )

change_role-Synced :
    (fails : Call → Bool) (tu tu' : TenantUser) (role : Text) (s s' : Directory)
    → s.wired ≡ true
    → IsKeyed s.store
    → NulFree tu.tenant_id
    → NulFree tu.id
    → change_role fails tu role s ≡ (ok tu', s')
    → (tu' ≡ with_role role tu) × Synced tu role s s'
unfolding change_role
change_role-Synced fails tu tu' role s s' wired keyed ht hu h =
    elim (branch (not s.wired) _ _ (ok tu', s') h) [
      | inl (w, k) ↦ absurd (let clash = ap not wired in cc)
      | inr (w, k) ↦
          let (body, same) =
            settle_rows-ok (with_role role tu) tu' s.users (update_body fails tu role s) s' k in
          (sym same, update_body-Synced fails tu role s s' wired keyed ht hu body)
    ]

-- Where the service has a store of tuples, each under its key, and the ids of its users and of their
-- tenants hold no NUL byte: an update of the role of the user with an email that returns no error
-- leaves all as it was if the user had the role, and otherwise leaves the row, the user's tuples and
-- the service principal's as Synced says.
pub update_tenant_user_role-Synced :
    (fails : Call → Bool) (c : Caller) (email role : Text) (s s' : Directory) (tu' : TenantUser)
    → s.wired ≡ true
    → IsKeyed s.store
    → All (λ (u : TenantUser). NulFree u.tenant_id × NulFree u.id) s.users
    → update_tenant_user_role fails c email role s ≡ (ok tu', s')
    → (tu : TenantUser) × (first_where (has_email email) s.users ≡ some tu)
      × (((tu.role ≡ role) × (tu' ≡ tu) × (s' ≡ s))
          ⊎ ((tu.role ≢ role) × (tu' ≡ with_role role tu) × Synced tu role s s'))
unfolding update_tenant_user_role
update_tenant_user_role-Synced fails c email role s s' tu' wired keyed named h =
    let (u, admin, k) = checked-ok s s' (require_admin s c) _ tu' h in
    elim (branch (not (valid_role role)) _ _ (ok tu', s') k) [
      | inl (v, q) ↦ not-ok _ tu' s s' q
      | inr (v, q) ↦
          let (tu, got, l) = checked-ok s s' (resolve_subject_by_email fails email s) _ tu' q in
          let found = resolve-found fails email s tu got in
          let (ht, hu) = first-All _ (has_email email) s.users tu named found in
          (
            tu,
            found,
            elim (branch (text_eq tu.role role) _ _ (ok tu', s') l) [
              | inl (same, z) ↦ inl (
                (eq_iff tu.role role).0 same,
                let y = ap (λ p. p.0) z in cc,
                sym (ap (λ p. p.1) z),
              )
              | inr (differs, z) ↦
                  let (row, synced) =
                    change_role-Synced fails tu tu' role s s' wired keyed ht hu z in
                  inr (ne_of_text_eq tu.role role differs, row, synced)
            ],
          )
    ]
