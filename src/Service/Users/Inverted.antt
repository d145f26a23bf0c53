-- ===== src/Service/Users/Inverted.antt =====
-- What the steps of a change of role did, where they returned no error.
use memory_system.Prelude.{
  ◌≡◌, refl, sym, ap, ◌∙◌, subst, inl, inr, Text, text_eq, eq_iff, Bool, true, false, Option, none,
  some, List, ok, err, Bool-cases, if◌then◌else◌,
}
use memory_system.Authz.Tuple.{Tuple}
use memory_system.Authz.Store.{MemoryStore, write, delete}
use memory_system.Authz.Seed.{tenant_admin_tuple, tenant_owner_tuple}
use memory_system.Service.Access.{TenantUser, Directory, Call}
use memory_system.Service.Grants.{Outcome}
use memory_system.Service.Grants.Inverted.{write_tuple-ok, delete_tuple-ok}
use memory_system.Service.Users.{
  role_admin, role_owner, and_then, settle_rows, role_elevated_tuple, write_elevated, remove_unless,
  sync_role_tuples,
}

pub and_then-ok :
    {A : Type 0} (p : Outcome (Unit {0})) (f : Directory → Outcome A) (a : A) (s' : Directory)
    → and_then p f ≡ (ok a, s')
    → (s1 : Directory) × (p ≡ (ok tt, s1)) × (f s1 ≡ (ok a, s'))
and_then-ok (err e, s) f a s' h = absurd (let clash = ap (λ p. p.0) h in cc)
and_then-ok (ok tt, s) f a s' h = (s, refl, h)

pub settle_rows-ok :
    {A : Type 0} (a b : A) (rows : List TenantUser) (p : Outcome (Unit {0})) (s' : Directory)
    → settle_rows a rows p ≡ (ok b, s')
    → (p ≡ (ok tt, s')) × (a ≡ b)
settle_rows-ok a b rows (err e, s) s' h = absurd (let clash = ap (λ p. p.0) h in cc)
settle_rows-ok a b rows (ok tt, s) s' h =
    (ap (λ (p : Outcome _). (ok tt, p.1)) h, let k = ap (λ p. p.0) h in cc)

remove_unless-ok :
    (fails : Call → Bool) (b : Bool) (t : Tuple) (s s' : Directory)
    → remove_unless fails b t s ≡ (ok tt, s')
    → s' ≡ (if b then s else record s { store = delete s.store t })
unfolding remove_unless
remove_unless-ok fails true t s s' h = sym (ap (λ p. p.1) h)
remove_unless-ok fails false t s s' h = delete_tuple-ok fails t s s' h

write_elevated-ok :
    (fails : Call → Bool) (o : Option Tuple) (s s' : Directory)
    → write_elevated fails o s ≡ (ok tt, s')
    → s' ≡ elim o [ none ↦ s | some t ↦ record s { store = write s.store t } ]
unfolding write_elevated
write_elevated-ok fails none s s' h = sym (ap (λ p. p.1) h)
write_elevated-ok fails (some t) s s' h = write_tuple-ok fails t s s' h

-- the store after the change of a role
abbrev pub role_store : TenantUser → Text → MemoryStore → MemoryStore
role_store tu role m =
    let a = tenant_admin_tuple tu.tenant_id tu.id in
    let o = tenant_owner_tuple tu.tenant_id tu.id in
    if text_eq role role_admin
    then delete (write m a) o
    else if text_eq role role_owner
    then delete (write m o) a
    else delete (delete m a) o

abbrev pub with_store : Directory → MemoryStore → Directory
with_store s m = record s { store = m }

pub admin_not_owner :
    (role : Text) → text_eq role role_admin ≡ true → text_eq role role_owner ≡ false
unfolding text_eq
admin_not_owner role e =
    subst (λ r. text_eq r role_owner ≡ false) (sym ((eq_iff role role_admin).0 e)) refl

role_steps :
    (tu : TenantUser) (role : Text) (s s1 s2 s' : Directory)
    → s1 ≡ elim (role_elevated_tuple tu.tenant_id role tu.id) [
      | none ↦ s
      | some t ↦ record s { store = write s.store t }
    ]
    → s2 ≡ (
        if text_eq role role_admin
        then s1
        else record s1 { store = delete s1.store (tenant_admin_tuple tu.tenant_id tu.id) })
    → s' ≡ (
        if text_eq role role_owner
        then s2
        else record s2 { store = delete s2.store (tenant_owner_tuple tu.tenant_id tu.id) })
    → s' ≡ with_store s (role_store tu role s.store)
unfolding role_elevated_tuple
role_steps tu role s s1 s2 s' e1 e2 e3 =
    let removed : Tuple → Directory → Directory = λ t x. record x { store = delete x.store t } in
    let a = tenant_admin_tuple tu.tenant_id tu.id in
    let o = tenant_owner_tuple tu.tenant_id tu.id in
    elim (Bool-cases (text_eq role role_admin)) [
      | inl t ↦
          let f1 = rw (t, role_elevated_tuple) at e1 in
          let f2 = rw t at e2 in
          let f3 = rw (admin_not_owner role t) at e3 in rw t (f3 ∙ ap (removed o) (f2 ∙ f1))
      | inr t ↦
          let f2 = rw t at e2 in
          elim (Bool-cases (text_eq role role_owner)) [
            | inl w ↦
                let f1 = rw (t, w, role_elevated_tuple) at e1 in
                let f3 = rw w at e3 in rw (t, w) (f3 ∙ f2 ∙ ap (removed a) f1)
            | inr w ↦
                let f1 = rw (t, w, role_elevated_tuple) at e1 in
                let f3 = rw w at e3 in rw (t, w) (f3 ∙ ap (removed o) (f2 ∙ ap (removed a) f1))
          ]
    ]

pub sync_role_tuples-ok :
    (fails : Call → Bool) (tu : TenantUser) (role : Text) (s s' : Directory)
    → sync_role_tuples fails tu role s ≡ (ok tt, s')
    → s' ≡ with_store s (role_store tu role s.store)
unfolding sync_role_tuples
sync_role_tuples-ok fails tu role s s' h =
    let a = tenant_admin_tuple tu.tenant_id tu.id in
    let o = tenant_owner_tuple tu.tenant_id tu.id in
    let elevated = role_elevated_tuple tu.tenant_id role tu.id in
    let (s1, p, k) = and_then-ok (write_elevated fails elevated s) _ tt s' h in
    let (s2, q, l) = and_then-ok (remove_unless fails (text_eq role role_admin) a s1) _ tt s' k in
    role_steps tu role s s1 s2 s' (write_elevated-ok fails elevated s s1 p)
      (remove_unless-ok fails (text_eq role role_admin) a s1 s2 q)
      (remove_unless-ok fails (text_eq role role_owner) o s2 s' l)
