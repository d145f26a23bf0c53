-- ===== src/Service/Grants/Inverted.antt =====
-- What an operation that returned no error did.
use memory_system.Prelude.{
  ◌≡◌, refl, sym, ap, ◌∙◌, inl, inr, Text, Bool, true, not, some, ok, err, Result, ok_inj, guard-ok,
  Bool-cases, Option-cases, if◌then◌else◌, first_where, arith,
}
use memory_system.Authz.Tuple.{Tuple}
use memory_system.Authz.Store.{write, delete}
use memory_system.Service.Access.{
  Caller, TenantUser, Directory, Call, writing_tuple, deleting_tuple, reading_user, AccessError,
  invalid_input, invalid_relation, not_found, not_configured,
}
use memory_system.Service.Grants.{
  Outcome, checked, can_manage_tenant, can_grant_tenant_relation, valid_tenant_grant_relation,
  has_email, resolve_subject_by_email, write_tuple, delete_tuple, shared_tenant, tenant_subject,
  document_subject, valid_document_grant_relation, document_tenant_id,
}

pub checked-ok :
    {A B : Type 0} (s s' : Directory) (m : Result AccessError A) (f : A → Outcome B) (b : B)
    → checked s m f ≡ (ok b, s')
    → (a : A) × (m ≡ ok a) × (f a ≡ (ok b, s'))
checked-ok s s' (ok a) f b h = (a, refl, h)
checked-ok s s' (err e) f b h = absurd (let clash = ap (λ p. p.0) h in cc)

pub write_tuple-ok :
    (fails : Call → Bool) (t : Tuple) (s s' : Directory)
    → write_tuple fails t s ≡ (ok tt, s')
    → s' ≡ record s { store = write s.store t }
unfolding write_tuple
write_tuple-ok fails t s s' h = elim (Bool-cases (fails (writing_tuple t))) [
  | inl f ↦
      let k = rw (f, write_tuple) at h in
      absurd (let clash = ap (λ (p : Outcome (Unit {0})). p.0) k in cc)
  | inr f ↦ let k = rw (f, write_tuple) at h in sym (ap (λ p. p.1) k)
]

pub delete_tuple-ok :
    (fails : Call → Bool) (t : Tuple) (s s' : Directory)
    → delete_tuple fails t s ≡ (ok tt, s')
    → s' ≡ record s { store = delete s.store t }
unfolding delete_tuple
delete_tuple-ok fails t s s' h = elim (Bool-cases (fails (deleting_tuple t))) [
  | inl f ↦
      let k = rw (f, delete_tuple) at h in
      absurd (let clash = ap (λ (p : Outcome (Unit {0})). p.0) k in cc)
  | inr f ↦ let k = rw (f, delete_tuple) at h in sym (ap (λ p. p.1) k)
]

-- An error in the middle of a chain of checks is returned.
pub step-ok :
    {A B : Type 0} (m : Result AccessError A) (f : A → Result AccessError B) (b : B)
    → ◌≡◌ {A = Result AccessError B} (elim m [ err e ↦ err e | ok a ↦ f a ]) (ok b)
    → (a : A) × (m ≡ ok a) × (f a ≡ ok b)
step-ok (ok a) f b h = (a, refl, h)
step-ok (err e) f b h = cc

pub resolve-found :
    (fails : Call → Bool) (email : Text) (s : Directory) (u : TenantUser)
    → resolve_subject_by_email fails email s ≡ ok u
    → first_where (has_email email) s.users ≡ some u
unfolding resolve_subject_by_email
resolve-found fails email s u h =
    let (f, k) = guard-ok (fails reading_user) not_found _ u h in
    elim (Option-cases (first_where (has_email email) s.users)) [
      | inl n ↦ let q = rw n at k in cc
      | inr (v, n) ↦ let q = rw n at k in n ∙ ap some (ok_inj q)
    ]

-- The checks that came before a grant or a revocation on a tenant.
pub tenant_subject-ok :
    (fails : Call → Bool) (granting : Bool) (c : Caller) (id email relation : Text) (s : Directory)
    (tu : TenantUser)
    → tenant_subject fails granting c id email relation s ≡ ok tu
    → (can_grant_tenant_relation s c id relation ≡ true)
      × ((if granting then shared_tenant fails id s else ok tt) ≡ ok tt)
      × (first_where (has_email email) s.users ≡ some tu)
unfolding tenant_subject
tenant_subject-ok fails granting c id email relation s tu h =
    let (valid, k) =
      guard-ok (not (valid_tenant_grant_relation relation)) invalid_relation _ tu h in
    let (may_grant, k') =
      guard-ok (not (can_grant_tenant_relation s c id relation)) invalid_input _ tu k in
    let (u, shared, k'') = step-ok (if granting then shared_tenant fails id s else ok tt) _ tu k' in
    let (v, found, last) = step-ok (resolve_subject_by_email fails email s) _ tu k'' in
    let (wired, same) = guard-ok (not s.wired) not_configured (ok v) tu last in
    (ground arith, shared, resolve-found fails email s v found ∙ ap some (ok_inj same))

pub tenant_subject-found :
    (fails : Call → Bool) (granting : Bool) (c : Caller) (id email relation : Text) (s : Directory)
    (tu : TenantUser)
    → tenant_subject fails granting c id email relation s ≡ ok tu
    → first_where (has_email email) s.users ≡ some tu
tenant_subject-found fails granting c id email relation s tu h =
    let (a, b, found) = tenant_subject-ok fails granting c id email relation s tu h in found

pub document_subject-found :
    (fails : Call → Bool) (c : Caller) (id email relation : Text) (s : Directory) (tu : TenantUser)
    → document_subject fails c id email relation s ≡ ok tu
    → first_where (has_email email) s.users ≡ some tu
unfolding document_subject
document_subject-found fails c id email relation s tu h =
    let (valid, k) =
      guard-ok (not (valid_document_grant_relation relation)) invalid_relation _ tu h in
    let (tenant_id, owned, k') = step-ok (document_tenant_id fails id s) _ tu k in
    let (may_manage, k'') =
      guard-ok (not (can_manage_tenant s c tenant_id)) invalid_input _ tu k' in
    let (v, found, last) = step-ok (resolve_subject_by_email fails email s) _ tu k'' in
    let (wired, same) = guard-ok (not s.wired) not_configured (ok v) tu last in
    resolve-found fails email s v found ∙ ap some (ok_inj same)
