-- ===== src/Service/Users/Reached.antt =====
-- The states that the operations on access lead to, and what the gate decides in them.
use memory_system.Prelude.{
  ◌≡◌, ◌==◌, ◌||◌, sym, subst, inl, inr, Text, text_eq, Bool, true, not, Option, List, [], ◌∷◌, ok,
  if◌then◌else◌, count_where, update_where, delete_where, first-All, All-delete, All-update,
  All-map,
}
use memory_system.Authz.Store.{new_memory_store, write}
use memory_system.Authz.Store.TupleKey.{NulFree}
use memory_system.Authz.Check.{Node}
use memory_system.Authz.Tuple.{Tuple}
use memory_system.Authz.Model.{Place, At}
use memory_system.Authz.Seed.{tenant_member_tuple, tenant_admin_tuple, tenant_owner_tuple}
use memory_system.Authz.Seed.Reach.{start}
use memory_system.Service.Access.{
  Caller, Tenant, TenantUser, Directory, Call, updating_user, deleting_user, creating_user,
  authorize, engine_of, require_admin, get_tenant,
}
use memory_system.Service.Access.Decides.{CallerHolds, Unfaulted, authorize-Holds}
use memory_system.Service.Grants.{has_email, resolve_subject_by_email, write_tuple, delete_tuple}
use memory_system.Service.Grants.Inverted.{resolve-found}
use memory_system.Service.Grants.Escalation.{Delegation, Slight, Delegation-Slight}
use memory_system.Service.Users.{
  role_member, role_admin, role_owner, valid_role, role_elevated_tuple, write_elevated,
  delete_elevated, has_user_id, with_role, update_role_row, remove_unless, sync_role_tuples,
  update_body, change_role, update_tenant_user_role, delete_user_row, revoke_body,
  revoke_tenant_user, create_user_row, seed_tuple, seed_elevated, room_in_tenant, locked_room,
  grant_body, grant_seeding, grant_tenant_user,
}
use memory_system.Service.Users.Kept.{
  Named, Whole, Sound, Leaves, if-Leaves, and_then-Leaves, checked-Leaves, settle_rows-Leaves,
  seed-Whole, written-Whole, removed-Whole, write_tuple-Leaves, delete_tuple-Leaves, rows-Whole,
  member-Sound, admin-Sound, owner-Sound, elevated-Sound, sync-Leaves,
}

module _ (fails : Call → Bool) where
  create-Leaves :
      (tu : TenantUser) (s : Directory) → Named tu → Whole s → Leaves (create_user_row fails tu s)
  unfolding create_user_row
  create-Leaves tu s n h = if-Leaves (fails creating_user) _ _ h (
      if-Leaves (count_where (has_email tu.email) s.users == 0) _ _
        (rows-Whole (tu ∷ s.users) s (n, h.named) h) h)

  update_row-Leaves :
      (id role : Text) (s : Directory) → Whole s → Leaves (update_role_row fails id role s)
  unfolding update_role_row
  update_row-Leaves id role s h = if-Leaves (fails updating_user) _ _ h (
      rows-Whole (update_where (has_user_id id) (with_role role) s.users) s
        (All-update Named (has_user_id id) (with_role role) s.users (λ u n. n) h.named) h)

  delete_row-Leaves : (id : Text) (s : Directory) → Whole s → Leaves (delete_user_row fails id s)
  unfolding delete_user_row
  delete_row-Leaves id s h = if-Leaves (fails deleting_user) _ _ h (
      rows-Whole (delete_where (has_user_id id) s.users) s
        (All-delete Named (has_user_id id) s.users h.named) h)

  module _ (tu : TenantUser) (n : Named tu) where
    elevated-Leaves :
        (role : Text) (s : Directory)
        → Whole s
        → Leaves (write_elevated fails (role_elevated_tuple tu.tenant_id role tu.id) s)
          × Leaves (delete_elevated fails (role_elevated_tuple tu.tenant_id role tu.id) s)
          × Whole (seed_elevated fails (role_elevated_tuple tu.tenant_id role tu.id) s)
    unfolding write_elevated delete_elevated seed_elevated seed_tuple
    elevated-Leaves role s h =
        elevated-Sound tu.tenant_id tu.id n.0 n.1 role
          (λ o.
            Leaves (write_elevated fails o s)
            × Leaves (delete_elevated fails o s)
            × Whole (seed_elevated fails o s))
          (λ t m. (
            write_tuple-Leaves fails t s m h,
            delete_tuple-Leaves fails t s m.keyable h,
            seed-Whole fails t s m h,
          ))
          (h, h, h)

    remove-Leaves :
        (b : Bool) (t : Tuple) (s : Directory)
        → Sound t
        → Whole s
        → Leaves (remove_unless fails b t s)
    unfolding remove_unless
    remove-Leaves b t s m h = if-Leaves b _ _ h (delete_tuple-Leaves fails t s m.keyable h)

    change-Leaves : (role : Text) (s : Directory) → Whole s → Leaves (change_role fails tu role s)
    unfolding change_role update_body sync_role_tuples
    change-Leaves role s h =
        if-Leaves (not s.wired) _ _
          (settle_rows-Leaves (with_role role tu) s.users (update_role_row fails tu.id role s)
            h.named (update_row-Leaves tu.id role s h))
          (settle_rows-Leaves (with_role role tu) s.users (update_body fails tu role s) h.named (
            and_then-Leaves (update_role_row fails tu.id role s) _
              (update_row-Leaves tu.id role s h)
              (λ s1 h1.
                and_then-Leaves (sync_role_tuples fails tu role s1) _
                  (and_then-Leaves
                    (write_elevated fails (role_elevated_tuple tu.tenant_id role tu.id) s1) _
                    (elevated-Leaves role s1 h1).0
                    (λ s2 h2.
                      and_then-Leaves
                        (remove_unless fails (text_eq role role_admin)
                          (tenant_admin_tuple tu.tenant_id tu.id) s2)
                        _
                        (remove-Leaves (text_eq role role_admin)
                          (tenant_admin_tuple tu.tenant_id tu.id) s2
                          (admin-Sound tu.tenant_id tu.id n.0 n.1) h2)
                        (λ s3 h3.
                          remove-Leaves (text_eq role role_owner)
                            (tenant_owner_tuple tu.tenant_id tu.id) s3
                            (owner-Sound tu.tenant_id tu.id n.0 n.1) h3)))
                  (λ s4 h4. sync-Leaves tu.tenant_id tu.id n.0 n.1 fails s4 h4))))

    revoke-Leaves : (s : Directory) → Whole s → Leaves (revoke_body fails tu s)
    unfolding revoke_body
    revoke-Leaves s h =
        and_then-Leaves (delete_user_row fails tu.id s) _ (delete_row-Leaves tu.id s h) (λ s1 h1.
          and_then-Leaves (delete_tuple fails (tenant_member_tuple tu.tenant_id tu.id) s1) _
            (delete_tuple-Leaves fails (tenant_member_tuple tu.tenant_id tu.id) s1
              (member-Sound tu.tenant_id tu.id n.0 n.1).keyable h1)
            (λ s2 h2.
              and_then-Leaves
                (delete_elevated fails (role_elevated_tuple tu.tenant_id tu.role tu.id) s2) _
                (elevated-Leaves tu.role s2 h2).1
                (λ s3 h3. sync-Leaves tu.tenant_id tu.id n.0 n.1 fails s3 h3)))

    grant-Leaves : (t : Tenant) (s : Directory) → Whole s → Leaves (grant_body fails t tu s)
    unfolding grant_body
    grant-Leaves t s h = checked-Leaves s (locked_room fails t s) _ h (λ u e.
        and_then-Leaves (create_user_row fails tu s) _ (create-Leaves tu s n h) (λ s1 h1.
          and_then-Leaves (write_tuple fails (tenant_member_tuple tu.tenant_id tu.id) s1) _
            (write_tuple-Leaves fails (tenant_member_tuple tu.tenant_id tu.id) s1
              (member-Sound tu.tenant_id tu.id n.0 n.1) h1)
            (λ s2 h2.
              and_then-Leaves
                (write_elevated fails (role_elevated_tuple tu.tenant_id tu.role tu.id) s2) _
                (elevated-Leaves tu.role s2 h2).0
                (λ s3 h3. sync-Leaves tu.tenant_id tu.id n.0 n.1 fails s3 h3))))

    seeding-Leaves : (s : Directory) → Whole s → Leaves (grant_seeding fails tu s)
    unfolding grant_seeding
    seeding-Leaves s h =
        and_then-Leaves (create_user_row fails tu s) _ (create-Leaves tu s n h) (λ s1 h1.
          (elevated-Leaves tu.role (seed_tuple fails (tenant_member_tuple tu.tenant_id tu.id) s1) (
            seed-Whole fails (tenant_member_tuple tu.tenant_id tu.id) s1
              (member-Sound tu.tenant_id tu.id n.0 n.1) h1)).2)

  found-Named :
      (email : Text) (s : Directory) (tu : TenantUser)
      → Whole s
      → resolve_subject_by_email fails email s ≡ ok tu
      → Named tu
  found-Named email s tu h e =
      first-All Named (has_email email) s.users tu h.named (resolve-found fails email s tu e)

  update_tenant_user_role-Leaves :
      (c : Caller) (email role : Text) (s : Directory)
      → Whole s
      → Leaves (update_tenant_user_role fails c email role s)
  unfolding update_tenant_user_role
  update_tenant_user_role-Leaves c email role s h = checked-Leaves s (require_admin s c) _ h (λ u e.
      if-Leaves (not (valid_role role)) _ _ h (
        checked-Leaves s (resolve_subject_by_email fails email s) _ h (λ tu found.
          if-Leaves (text_eq tu.role role) (ok tu, s) _ h
            (change-Leaves tu (found-Named email s tu h found) role s h))))

  revoke_tenant_user-Leaves :
      (c : Caller) (email : Text) (s : Directory)
      → Whole s
      → Leaves (revoke_tenant_user fails c email s)
  unfolding revoke_tenant_user
  revoke_tenant_user-Leaves c email s h = checked-Leaves s (require_admin s c) _ h (λ u e.
      checked-Leaves s (resolve_subject_by_email fails email s) _ h (λ tu found.
        if-Leaves (not s.wired) _ _
          (settle_rows-Leaves tt s.users (delete_user_row fails tu.id s) h.named
            (delete_row-Leaves tu.id s h))
          (settle_rows-Leaves tt s.users (revoke_body fails tu s) h.named
            (revoke-Leaves tu (found-Named email s tu h found) s h))))

  grant_tenant_user-Leaves :
      (in_tx : Bool) (id : Text) (c : Caller) (email tenant_id role : Text) (s : Directory)
      → NulFree tenant_id
      → NulFree id
      → Whole s
      → Leaves (grant_tenant_user fails in_tx id c email tenant_id role s)
  unfolding grant_tenant_user
  grant_tenant_user-Leaves in_tx id c email tenant_id given s ht hu h =
      let role = if text_eq given [] then role_member else given in
      let tu : TenantUser = record { id = id; email = email; tenant_id = tenant_id; role = role } in
      checked-Leaves s (require_admin s c) _ h (λ u e. if-Leaves (not (valid_role role)) _ _ h (
        checked-Leaves s (get_tenant fails tenant_id s) _ h (λ t e'.
          checked-Leaves s (room_in_tenant fails t s) _ h (λ v e''.
            if-Leaves (in_tx || not s.wired) _ _ (seeding-Leaves tu (ht, hu) s h) (
              settle_rows-Leaves tu s.users (grant_body fails t tu s) h.named
                (grant-Leaves tu (ht, hu) t s h))))))

-- The states that these operations lead to from a directory without users and tuples, by whomever they
-- are called, whatever they return and whichever calls fail; what else changes tenants, documents and
-- tuples of the program's constructors may come between, and at any time the reads that fail may change.
pub data Reached : Directory → Type 0 where
  fresh :
      (wired : Bool) (read_fault : Text → Text → Text → Option Text)
      → Reached record {
        wired = wired;
        store = new_memory_store;
        read_fault = read_fault;
        tenants = [];
        users = [];
        documents = [];
      }
  elsewhere :
      {s : Directory} (tenants : List Tenant) (documents : List (Text × Text))
      (read_fault : Text → Text → Text → Option Text)
      → Reached s
      → Reached record s { tenants = tenants; documents = documents; read_fault = read_fault }
  seeded :
      {s : Directory} (t : Tuple)
      → Sound t
      → Reached s
      → Reached record s { store = write s.store t }
  delegated : {s s' : Directory} → Delegation s s' → Reached s → Reached s'
  granted :
      {s : Directory} (fails : Call → Bool) (in_tx : Bool) (id : Text) (c : Caller)
      (email tenant_id role : Text)
      → NulFree tenant_id
      → NulFree id
      → Reached s
      → Reached (grant_tenant_user fails in_tx id c email tenant_id role s).1
  updated :
      {s : Directory} (fails : Call → Bool) (c : Caller) (email role : Text)
      → Reached s
      → Reached (update_tenant_user_role fails c email role s).1
  revoked :
      {s : Directory} (fails : Call → Bool) (c : Caller) (email : Text)
      → Reached s
      → Reached (revoke_tenant_user fails c email s).1

Slight-Whole : {s s' : Directory} → Whole s → Slight s s' → Whole s'
Slight-Whole {s} h (inl e) = subst Whole (sym e) h
Slight-Whole {s} h (inr (t, m, inl e)) =
    subst Whole (sym e) (written-Whole t s record { seeded = m.seeded; keyable = m.keyable } h)
Slight-Whole {s} h (inr (t, m, inr e)) = subst Whole (sym e) (removed-Whole t s m.keyable h)

Reached-Whole : {s : Directory} → Reached s → Whole s
Reached-Whole (fresh wired fault) = record {
  reachable = start;
  keyed = record { entries = tt };
  named = tt;
}
Reached-Whole (elsewhere tenants documents fault r) =
    let h = Reached-Whole r in record { reachable = h.reachable; keyed = h.keyed; named = h.named }
Reached-Whole (seeded {s} t m r) = written-Whole t s m (Reached-Whole r)
Reached-Whole (delegated {s} d r) =
    let h = Reached-Whole r in
    Slight-Whole h (Delegation-Slight (All-map Named _ s.users (λ u n. n.1) h.named) d)
Reached-Whole (granted {s} fails in_tx id c email tenant_id role ht hu r) =
    grant_tenant_user-Leaves fails in_tx id c email tenant_id role s ht hu (Reached-Whole r)
Reached-Whole (updated {s} fails c email role r) =
    update_tenant_user_role-Leaves fails c email role s (Reached-Whole r)
Reached-Whole (revoked {s} fails c email r) =
    revoke_tenant_user-Leaves fails c email s (Reached-Whole r)

-- In every state that the operations on access lead to, however they failed and whichever reads of a check
-- fail, the gate of the service lets a caller through for a relation of the model only when the service has
-- a store, and the caller a subject with an id that holds the relation over the stored tuples: without a
-- store, a subject or an id it denies. Where no read of a check fails, it lets every such caller through.
pub Reached-authorize :
    (s : Directory) (c : Caller) (p : Place) (n : Node)
    → Reached s
    → At p n
    → (authorize (engine_of s) c n ≡ true → (s.wired ≡ true) × CallerHolds s c n)
      × (Unfaulted s → (s.wired ≡ true) × CallerHolds s c n → authorize (engine_of s) c n ≡ true)
Reached-authorize s c p n r a = authorize-Holds s c p n (Reached-Whole r).reachable a
