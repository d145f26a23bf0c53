-- ===== src/Service/Users/Kept.antt =====
-- The steps of the operations on users keep a state whole.
use memory_system.Prelude.{
  ◌≡◌, refl, inl, inr, Text, text_eq, Bool, true, false, not, Option, none, some, List, All, Result,
  err, ok, Bool-cases, if◌then◌else◌, ltb, count_where, arith,
}
use memory_system.Authz.Tuple.{Tuple, service_principal_id}
use memory_system.Authz.Store.{write, delete}
use memory_system.Authz.Store.TupleKey.{NulFree, Keyable}
use memory_system.Authz.Store.Laws.{IsKeyed, update-IsKeyed}
use memory_system.Authz.Seed.{tenant_member_tuple, tenant_admin_tuple, tenant_owner_tuple}
use memory_system.Authz.Seed.Reach.{
  Seeded, member, admin, owner, global_admin, Reachable, wrote, deleted,
}
use memory_system.Service.Access.{
  TenantUser, Directory, Call, AccessError, writing_tuple, deleting_tuple, counting_admins,
}
use memory_system.Service.Grants.{Outcome, checked, write_tuple, delete_tuple}
use memory_system.Service.Users.{
  role_admin, role_owner, and_then, settle_rows, role_elevated_tuple, admin_of, service_admin,
  sync_service_principal_admin, seed_tuple,
}
use memory_system.Service.Users.Stored.{a-Keyable, o-Keyable, service-Keyable}

-- The ids of a user hold no NUL byte.
abbrev pub Named : TenantUser → Type 0
Named u = NulFree u.tenant_id × NulFree u.id

-- The program's writers made the tuples, each under its key, and the users are named.
pub record Whole (s : Directory) : Type 0 where
  pub reachable : Reachable s.store
  pub keyed : IsKeyed s.store
  pub named : All Named s.users

-- A tuple that a write may add.
pub record Sound (t : Tuple) : Type 0 where
  pub seeded : Seeded t
  pub keyable : Keyable t

pub written-Whole :
    (t : Tuple) (s : Directory) → Sound t → Whole s → Whole record s { store = write s.store t }
written-Whole t s m h = record {
  reachable = wrote h.reachable m.seeded;
  keyed = (update-IsKeyed s.store t h.keyed m.keyable).0;
  named = h.named;
}

pub removed-Whole :
    (t : Tuple) (s : Directory) → Keyable t → Whole s → Whole record s { store = delete s.store t }
removed-Whole t s k h = record {
  reachable = deleted t h.reachable;
  keyed = (update-IsKeyed s.store t h.keyed k).1;
  named = h.named;
}

pub rows-Whole :
    (rows : List TenantUser) (s : Directory)
    → All Named rows
    → Whole s
    → Whole record s { users = rows }
rows-Whole rows s n h = record { reachable = h.reachable; keyed = h.keyed; named = n }

-- An operation that leaves a whole state.
abbrev pub Leaves : {A : Type 0} → Outcome A → Type 0
Leaves p = Whole p.1

pub if-Leaves :
    {A : Type 0} (b : Bool) (p q : Outcome A) → Leaves p → Leaves q → Leaves (if b then p else q)
if-Leaves true p q h k = h
if-Leaves false p q h k = k

pub and_then-Leaves :
    {A : Type 0} (p : Outcome (Unit {0})) (f : Directory → Outcome A)
    → Leaves p
    → ((x : Directory) → Whole x → Leaves (f x))
    → Leaves (and_then p f)
and_then-Leaves (err e, s) f h k = h
and_then-Leaves (ok u, s) f h k = k s h

pub checked-Leaves :
    {A B : Type 0} (s : Directory) (r : Result AccessError A) (f : A → Outcome B)
    → Whole s
    → ((a : A) → r ≡ ok a → Leaves (f a))
    → Leaves (checked s r f)
checked-Leaves s (err e) f h k = h
checked-Leaves s (ok a) f h k = k a refl

pub settle_rows-Leaves :
    {A : Type 0} (a : A) (rows : List TenantUser) (p : Outcome (Unit {0}))
    → All Named rows
    → Leaves p
    → Leaves (settle_rows a rows p)
settle_rows-Leaves a rows (err e, s) n h = rows-Whole rows s n h
settle_rows-Leaves a rows (ok u, s) n h = h

pub write_tuple-Leaves :
    (fails : Call → Bool) (t : Tuple) (s : Directory)
    → Sound t
    → Whole s
    → Leaves (write_tuple fails t s)
unfolding write_tuple
write_tuple-Leaves fails t s m h = if-Leaves (fails (writing_tuple t)) _ _ h (written-Whole t s m h)

pub delete_tuple-Leaves :
    (fails : Call → Bool) (t : Tuple) (s : Directory)
    → Keyable t
    → Whole s
    → Leaves (delete_tuple fails t s)
unfolding delete_tuple
delete_tuple-Leaves fails t s k h =
    if-Leaves (fails (deleting_tuple t)) _ _ h (removed-Whole t s k h)

module _ (tenant_id uid : Text) (ht : NulFree tenant_id) (hu : NulFree uid) where
  pub member-Sound : Sound (tenant_member_tuple tenant_id uid)
  member-Sound = record {
    seeded = member tenant_id uid;
    keyable = record {
      object_type_free = omega arith;
      object_id_free = ht;
      relation_free = omega arith;
      subject_type_free = omega arith;
      subject_id_free = hu;
    };
  }

  pub admin-Sound : Sound (tenant_admin_tuple tenant_id uid)
  admin-Sound = record { seeded = admin tenant_id uid; keyable = a-Keyable tenant_id uid ht hu }

  pub owner-Sound : Sound (tenant_owner_tuple tenant_id uid)
  owner-Sound = record { seeded = owner tenant_id uid; keyable = o-Keyable tenant_id uid ht hu }

  pub service-Sound : Sound (service_admin tenant_id)
  service-Sound = record {
    seeded = global_admin (service_principal_id tenant_id);
    keyable = service-Keyable tenant_id uid ht hu;
  }

  -- Every elevated tuple of a role is sound.
  pub elevated-Sound :
      (role : Text) (P : Option Tuple → Type 0)
      → ((t : Tuple) → Sound t → P (some t))
      → P none
      → P (role_elevated_tuple tenant_id role uid)
  unfolding role_elevated_tuple
  elevated-Sound role P k n = elim (Bool-cases (text_eq role role_admin)) [
    | inl e ↦ rw (e, role_elevated_tuple) (k (tenant_admin_tuple tenant_id uid) admin-Sound)
    | inr e ↦ elim (Bool-cases (text_eq role role_owner)) [
      | inl f ↦ rw (e, f, role_elevated_tuple) (k (tenant_owner_tuple tenant_id uid) owner-Sound)
      | inr f ↦ rw (e, f, role_elevated_tuple) n
    ]
  ]

  pub sync-Leaves :
      (fails : Call → Bool) (s : Directory)
      → Whole s
      → Leaves (sync_service_principal_admin fails tenant_id s)
  unfolding sync_service_principal_admin
  sync-Leaves fails s h = if-Leaves (not s.wired) _ _ h (
      if-Leaves (fails counting_admins) _ _ h (
        if-Leaves (ltb 0 (count_where (admin_of tenant_id) s.users)) _ _
          (write_tuple-Leaves fails (service_admin tenant_id) s service-Sound h)
          (delete_tuple-Leaves fails (service_admin tenant_id) s service-Sound.keyable h)))

either-Whole : (b : Bool) (s x : Directory) → Whole s → Whole x → Whole (if b then s else x)
either-Whole true s x h k = h
either-Whole false s x h k = k

pub seed-Whole :
    (fails : Call → Bool) (t : Tuple) (s : Directory)
    → Sound t
    → Whole s
    → Whole (seed_tuple fails t s)
unfolding seed_tuple
seed-Whole fails t s m h = either-Whole (not s.wired) s _ h (write_tuple-Leaves fails t s m h)
