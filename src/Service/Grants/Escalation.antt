-- ===== src/Service/Grants/Escalation.antt =====
-- Grants and revocations make no admins.
use memory_system.Prelude.{
  ◌≡◌, ◌≢◌, ◌⊎◌, refl, sym, subst, inl, inr, Text, text_eq, ne_of_text_eq, Bool, true, false, ok,
  err, Result, Bool-cases, All, first-All, arith,
}
use memory_system.Authz.Tuple.{
  Tuple, rel_admin, rel_system, rel_viewer, rel_manager, rel_editor, type_user,
}
use memory_system.Authz.Store.{write, delete}
use memory_system.Authz.Store.TupleKey.{NulFree, Keyable}
use memory_system.Authz.Seed.{
  tenant_member_tuple, tenant_manager_tuple, tenant_viewer_tuple, document_viewer_tuple,
  document_editor_tuple,
}
use memory_system.Authz.Seed.Reach.{
  Seeded, member, manager, viewer, document_viewer, document_editor,
}
use memory_system.Service.Access.{
  Caller, TenantUser, Directory, Call, writing_tuple, deleting_tuple, AccessError,
}
use memory_system.Service.Grants.{
  Outcome, checked, tenant_grant_tuple, document_grant_tuple, has_email, write_tuple, delete_tuple,
  tenant_subject, grant_tenant_access, revoke_tenant_access, document_subject,
  grant_document_access, revoke_document_access,
}
use memory_system.Service.Grants.Inverted.{tenant_subject-found, document_subject-found}

-- A tuple of the constructors that gives no admin and no edge to the system.
pub record Modest (t : Tuple) : Type 0 where
  pub seeded : Seeded t
  pub keyable : Keyable t
  pub no_admin : t.relation ≢ rel_admin
  pub no_edge : t.relation ≢ rel_system

modest :
    (t : Tuple)
    → Seeded t
    → NulFree t.object_type × NulFree t.object_id × NulFree t.relation × NulFree t.subject_id
    → t.subject_type ≡ type_user
    → text_eq t.relation rel_admin ≡ false
    → text_eq t.relation rel_system ≡ false
    → Modest t
modest t seed (ot, oi, rel, si) user a b = record {
  seeded = seed;
  keyable = record {
    object_type_free = ot;
    object_id_free = oi;
    relation_free = rel;
    subject_type_free = subst NulFree (sym user) (omega arith);
    subject_id_free = si;
  };
  no_admin = ne_of_text_eq t.relation rel_admin a;
  no_edge = ne_of_text_eq t.relation rel_system b;
}

module _ (id uid : Text) (hi : NulFree id) (hu : NulFree uid) where
  tenant_grant-Modest : (relation : Text) → Modest (tenant_grant_tuple id uid relation)
  unfolding tenant_grant_tuple text_eq
  tenant_grant-Modest relation = elim (Bool-cases (text_eq relation rel_viewer)) [
    | inl e ↦ rw e (
        modest (tenant_viewer_tuple id uid) (viewer id uid) (omega arith, hi, omega arith, hu) refl
          refl refl)
    | inr e ↦ elim (Bool-cases (text_eq relation rel_manager)) [
      | inl f ↦
          rw (e, f)
            (modest (tenant_manager_tuple id uid) (manager id uid)
              (omega arith, hi, omega arith, hu) refl refl refl)
      | inr f ↦
          rw (e, f)
            (modest (tenant_member_tuple id uid) (member id uid) (omega arith, hi, omega arith, hu)
              refl refl refl)
    ]
  ]

  document_grant-Modest : (relation : Text) → Modest (document_grant_tuple id uid relation)
  unfolding document_grant_tuple text_eq
  document_grant-Modest relation = elim (Bool-cases (text_eq relation rel_editor)) [
    | inl e ↦ rw e (
        modest (document_editor_tuple id uid) (document_editor id uid)
          (omega arith, hi, omega arith, hu) refl refl refl)
    | inr e ↦ rw e (
        modest (document_viewer_tuple id uid) (document_viewer id uid)
          (omega arith, hi, omega arith, hu) refl refl refl)
  ]

-- The store is as it was, or one modest tuple was written or deleted; all else is as it was.
abbrev pub Slight : Directory → Directory → Type 0
Slight s s' =
    (s' ≡ s)
    ⊎ ((t : Tuple) × Modest t
        × ((s' ≡ record s { store = write s.store t })
            ⊎ (s' ≡ record s { store = delete s.store t })))

write_tuple-Slight :
    (fails : Call → Bool) (t : Tuple) (s : Directory)
    → Modest t
    → Slight s (write_tuple fails t s).1
unfolding write_tuple
write_tuple-Slight fails t s m = elim (Bool-cases (fails (writing_tuple t))) [
  | inl f ↦ inl (rw (f, write_tuple) refl)
  | inr f ↦ inr (t, m, inl (rw (f, write_tuple) refl))
]

delete_tuple-Slight :
    (fails : Call → Bool) (t : Tuple) (s : Directory)
    → Modest t
    → Slight s (delete_tuple fails t s).1
unfolding delete_tuple
delete_tuple-Slight fails t s m = elim (Bool-cases (fails (deleting_tuple t))) [
  | inl f ↦ inl (rw (f, delete_tuple) refl)
  | inr f ↦ inr (t, m, inr (rw (f, delete_tuple) refl))
]

checked-Slight :
    {A B : Type 0} (s : Directory) (r : Result AccessError A) (f : A → Outcome B)
    → ((a : A) → r ≡ ok a → Slight s (f a).1)
    → Slight s (checked s r f).1
checked-Slight s (err e) f h = inl refl
checked-Slight s (ok a) f h = h a refl

-- One grant or revocation, by whomever and with whatever outcome; the ids are free of NUL bytes.
pub data Delegation (s : Directory) : Directory → Type 0 where
  granting :
      (fails : Call → Bool) (c : Caller) (id email relation : Text)
      → NulFree id
      → Delegation s (grant_tenant_access fails c id email relation s).1
  revoking :
      (fails : Call → Bool) (c : Caller) (id email relation : Text)
      → NulFree id
      → Delegation s (revoke_tenant_access fails c id email relation s).1
  sharing :
      (fails : Call → Bool) (c : Caller) (id email relation : Text)
      → NulFree id
      → Delegation s (grant_document_access fails c id email relation s).1
  unsharing :
      (fails : Call → Bool) (c : Caller) (id email relation : Text)
      → NulFree id
      → Delegation s (revoke_document_access fails c id email relation s).1

abbrev pub NamedUsers : Directory → Type 0
NamedUsers s = All (λ (u : TenantUser). NulFree u.id) s.users

pub Delegation-Slight : {s s' : Directory} → NamedUsers s → Delegation s s' → Slight s s'
unfolding grant_tenant_access revoke_tenant_access grant_document_access revoke_document_access
Delegation-Slight {s} h (granting fails c id email relation free) =
    checked-Slight s (tenant_subject fails true c id email relation s) _ (λ tu e.
      let named =
        first-All _ (has_email email) s.users tu h
          (tenant_subject-found fails true c id email relation s tu e) in
      write_tuple-Slight fails (tenant_grant_tuple id tu.id relation) s
        (tenant_grant-Modest id tu.id free named relation))
Delegation-Slight {s} h (revoking fails c id email relation free) =
    checked-Slight s (tenant_subject fails false c id email relation s) _ (λ tu e.
      let named =
        first-All _ (has_email email) s.users tu h
          (tenant_subject-found fails false c id email relation s tu e) in
      delete_tuple-Slight fails (tenant_grant_tuple id tu.id relation) s
        (tenant_grant-Modest id tu.id free named relation))
Delegation-Slight {s} h (sharing fails c id email relation free) =
    checked-Slight s (document_subject fails c id email relation s) _ (λ tu e.
      let named =
        first-All _ (has_email email) s.users tu h
          (document_subject-found fails c id email relation s tu e) in
      write_tuple-Slight fails (document_grant_tuple id tu.id relation) s
        (document_grant-Modest id tu.id free named relation))
Delegation-Slight {s} h (unsharing fails c id email relation free) =
    checked-Slight s (document_subject fails c id email relation s) _ (λ tu e.
      let named =
        first-All _ (has_email email) s.users tu h
          (document_subject-found fails c id email relation s tu e) in
      delete_tuple-Slight fails (document_grant_tuple id tu.id relation) s
        (document_grant-Modest id tu.id free named relation))
