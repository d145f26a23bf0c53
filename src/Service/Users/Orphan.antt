-- ===== src/Service/Users/Orphan.antt =====
-- A promotion that fails half-way.
use memory_system.Prelude.{
  ◌≡◌, refl, ap, ◌∙◌, Text, text_eq, Bool, true, false, not, err, ok, if◌then◌else◌, update_where,
}
use memory_system.Authz.Store.{write}
use memory_system.Authz.Seed.{tenant_admin_tuple, tenant_owner_tuple}
use memory_system.Service.Access.{
  TenantUser, Directory, Call, updating_user, writing_tuple, deleting_tuple, call_failed,
}
use memory_system.Service.Grants.{write_tuple, delete_tuple}
use memory_system.Service.Users.{
  role_admin, settle_rows, role_elevated_tuple, write_elevated, has_user_id, with_role,
  update_role_row, remove_unless, sync_role_tuples, update_body, change_role,
}

update_role_row-works :
    (fails : Call → Bool) (id role : Text) (s : Directory)
    → fails updating_user ≡ false
    → update_role_row fails id role s
      ≡ (ok tt, record s { users = update_where (has_user_id id) (with_role role) s.users })
unfolding update_role_row
update_role_row-works fails id role s u = rw (u, update_role_row) refl

sync_role_tuples-stuck :
    (fails : Call → Bool) (tu : TenantUser) (s : Directory)
    → fails (writing_tuple (tenant_admin_tuple tu.tenant_id tu.id)) ≡ false
    → fails (deleting_tuple (tenant_owner_tuple tu.tenant_id tu.id)) ≡ true
    → sync_role_tuples fails tu role_admin s ≡ (
      err call_failed,
      record s { store = write s.store (tenant_admin_tuple tu.tenant_id tu.id) },
    )
unfolding sync_role_tuples role_elevated_tuple write_elevated remove_unless write_tuple delete_tuple
    text_eq
sync_role_tuples-stuck fails tu s w d = rw (w, write_tuple, d, delete_tuple) refl

-- Where the row and the admin's tuple are written but the deletion of the owner's tuple fails, a promotion
-- to admin returns an error and takes the row back, but leaves the admin's tuple in the store.
pub change_role-orphan :
    (fails : Call → Bool) (tu : TenantUser) (s : Directory)
    → s.wired ≡ true
    → fails updating_user ≡ false
    → fails (writing_tuple (tenant_admin_tuple tu.tenant_id tu.id)) ≡ false
    → fails (deleting_tuple (tenant_owner_tuple tu.tenant_id tu.id)) ≡ true
    → change_role fails tu role_admin s ≡ (
      err call_failed,
      record s { store = write s.store (tenant_admin_tuple tu.tenant_id tu.id) },
    )
unfolding change_role update_body
change_role-orphan fails tu s wired u w d =
    let s1 = record s { users = update_where (has_user_id tu.id) (with_role role_admin) s.users } in
    ap
      (λ b.
        if not b
        then settle_rows (with_role role_admin tu) s.users
            (update_role_row fails tu.id role_admin s)
        else settle_rows (with_role role_admin tu) s.users (update_body fails tu role_admin s))
      wired
    ∙ (rw (update_role_row-works fails tu.id role_admin s u, sync_role_tuples-stuck fails tu s1 w d)
        refl)
