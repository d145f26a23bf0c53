-- ===== src/Service/Users/Roles.antt =====
-- The tuples of a user follow the user's role.
use memory_system.Prelude.{
  ◌≡◌, ◌↔◌, sym, inl, inr, Text, text_eq, eq_iff, ne_of_text_eq, Bool-cases,
}
use memory_system.Authz.Tuple.{Tuple}
use memory_system.Authz.Store.{MemoryStore}
use memory_system.Authz.Store.TupleKey.{NulFree}
use memory_system.Authz.Store.Laws.{IsKeyed}
use memory_system.Authz.Seed.{tenant_admin_tuple, tenant_owner_tuple}
use memory_system.Service.Access.{TenantUser}
use memory_system.Service.Users.{role_admin, role_owner}
use memory_system.Service.Users.Stored.{Stored, a-Keyable, o-Keyable, a-not_o, swapped, both_gone}
use memory_system.Service.Users.Inverted.{admin_not_owner, role_store}

module _ (tenant_id uid : Text) (ht : NulFree tenant_id) (hu : NulFree uid) where
  abbrev a : Tuple
  a = tenant_admin_tuple tenant_id uid

  abbrev o : Tuple
  o = tenant_owner_tuple tenant_id uid

  pub role_store-Stored :
      (role : Text) (m : MemoryStore) (tu : TenantUser)
      → tu.tenant_id ≡ tenant_id
      → tu.id ≡ uid
      → IsKeyed m
      → (Stored a (role_store tu role m) ↔ (role ≡ role_admin))
        × (Stored o (role_store tu role m) ↔ (role ≡ role_owner))
  role_store-Stored role m tu et eu keyed = elim (Bool-cases (text_eq role role_admin)) [
    | inl t ↦
        let (there, gone) =
          swapped tenant_id uid ht hu m a o keyed (a-Keyable tenant_id uid ht hu)
            (o-Keyable tenant_id uid ht hu) (a-not_o tenant_id uid ht hu) in
        let is_role = (eq_iff role role_admin).0 t in
        let other = ne_of_text_eq role role_owner (admin_not_owner role t) in
        rw (et, eu, t) ((λ i. is_role, λ e. there), (λ i. absurd (gone i), λ e. absurd (other e)))
    | inr t ↦
        let other = ne_of_text_eq role role_admin t in
        elim (Bool-cases (text_eq role role_owner)) [
          | inl w ↦
              let (there, gone) =
                swapped tenant_id uid ht hu m o a keyed (o-Keyable tenant_id uid ht hu)
                  (a-Keyable tenant_id uid ht hu) (λ e. a-not_o tenant_id uid ht hu (sym e)) in
              let is_role = (eq_iff role role_owner).0 w in
              rw (et, eu, t, w)
                ((λ i. absurd (gone i), λ e. absurd (other e)), (λ i. is_role, λ e. there))
          | inr w ↦
              let (no_a, no_o) = both_gone tenant_id uid ht hu m keyed in
              let other' = ne_of_text_eq role role_owner w in
              rw (et, eu, t, w)
                (
                  (λ i. absurd (no_a i), λ e. absurd (other e)),
                  (λ i. absurd (no_o i), λ e. absurd (other' e)),
                )
        ]
  ]
