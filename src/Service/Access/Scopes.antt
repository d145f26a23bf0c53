-- ===== src/Service/Access/Scopes.antt =====
-- The tenants that a read spans.
use memory_system.Prelude.{
  first_where, is_seen, NoRepeat, append-NoRepeat, append-All, ◌≡◌, ◌⊎◌, refl, sym, subst, inl, inr,
  Text, text_eq, eq_iff, Bool, true, ◌||◌, not, Option, none, some, List, [], ◌∷◌, All, Result, ok,
  ok_inj, if-ok, guard-ok, Bool-cases, Option-cases, if◌then◌else◌, arith,
}
use memory_system.Authz.Tuple.{Tuple, type_tenant, rel_viewer}
use memory_system.Authz.Model.{tenant_viewer}
use memory_system.Authz.Store.{read_by_subject}
use memory_system.Authz.Seed.{bootstrap_tenant_id}
use memory_system.Authz.Seed.Reach.{Reachable}
use memory_system.Service.Access.{
  Tenant, is_admin, Caller, Directory, Call, AccessError, reading_tuples, invalid_input, may,
  nil_uuid, add_tenant, readable_step, readable_loop, readable_of_subject, readable_tenants,
  read_scope,
}
use memory_system.Service.Access.Decides.{CallerHolds, authorize-Holds}

-- The tenant is the caller's own, the common pool, or one of which the caller is a viewer.
abbrev pub Readable : Directory → Caller → Text → Type 0
Readable s c id =
    (id ≡ c.tenant_id)
    ⊎ ((id ≡ bootstrap_tenant_id)
        ⊎ ((s.wired ≡ true)
            × CallerHolds s c
                record { object_type = type_tenant; object_id = id; relation = rel_viewer }))

-- The scope of a read with an override is the override's tenant, or empty.
abbrev pub Narrowed : Option Text → List Text → Type 0
Narrowed none ids = Unit
Narrowed (some id) ids = (ids ≡ id ∷ []) ⊎ (ids ≡ [])

module _ (s : Directory) (c : Caller) where
  abbrev Scoped : List Text → Type 0
  Scoped ids = All (Readable s c) ids × NoRepeat ids

  add_tenant-Scoped :
      (id : Text) (out : List Text) → Readable s c id → Scoped out → Scoped (add_tenant id out)
  unfolding add_tenant
  add_tenant-Scoped id out r h = elim (Bool-cases (is_seen id out)) [
    | inl e ↦ rw e h
    | inr e ↦ rw e (append-All (Readable s c) id out r h.0, append-NoRepeat id out e h.1)
  ]

  viewer-Readable :
      (id : Text) → Reachable s.store → may s c type_tenant id rel_viewer ≡ true → Readable s c id
  viewer-Readable id r t = inr (
      inr (
        (authorize-Holds s c tenant_viewer
            record { object_type = type_tenant; object_id = id; relation = rel_viewer } r
            record { at_type = refl; at_relation = refl }).0
          t))

  readable_step-Scoped :
      (parse : Text → Option Text) (t : Tuple) (out : List Text)
      → Reachable s.store
      → Scoped out
      → Scoped (readable_step s c parse t out)
  unfolding readable_step
  readable_step-Scoped parse t out r h = elim (Bool-cases (text_eq t.object_type type_tenant)) [
    | inr e ↦ rw (e, readable_step) h
    | inl e ↦ elim (Option-cases (parse t.object_id)) [
      | inl n ↦ rw (e, n, readable_step) h
      | inr (id, n) ↦ elim (Bool-cases (is_seen id out)) [
        | inl z ↦ rw (e, n, z, readable_step) h
        | inr z ↦ elim (Bool-cases (may s c type_tenant id rel_viewer)) [
          | inr m ↦ rw (e, n, z, m, readable_step) h
          | inl m ↦
              rw (e, n, z, m, readable_step)
                (
                  append-All (Readable s c) id out (viewer-Readable id r m) h.0,
                  append-NoRepeat id out z h.1,
                )
        ]
      ]
    ]
  ]

  readable_loop-Scoped :
      (parse : Text → Option Text) (ts : List Tuple) (out : List Text)
      → Reachable s.store
      → Scoped out
      → Scoped (readable_loop s c parse ts out)
  unfolding readable_loop
  readable_loop-Scoped parse [] out r h = h
  readable_loop-Scoped parse (t ∷ ts) out r h =
      readable_loop-Scoped parse ts (readable_step s c parse t out) r
        (readable_step-Scoped parse t out r h)

  readable_of_subject-Scoped :
      (fails : Call → Bool) (parse : Text → Option Text) (base ids : List Text)
      → Reachable s.store
      → Scoped base
      → readable_of_subject fails s c parse base ≡ ok ids
      → Scoped ids
  unfolding readable_of_subject
  readable_of_subject-Scoped fails parse base ids r h e = elim (Option-cases c.subject) [
    | inl n ↦ let k = rw (n, readable_of_subject) at e in subst Scoped (ok_inj k) h
    | inr (subj, n) ↦ elim (Bool-cases (text_eq subj.subject_id [])) [
      | inl z ↦ let k = rw (n, z, readable_of_subject) at e in subst Scoped (ok_inj k) h
      | inr z ↦ elim (Bool-cases (fails reading_tuples)) [
        | inl f ↦ let k = rw (n, z, f, readable_of_subject) at e in absurd (cc)
        | inr f ↦
            let k = rw (n, z, f, readable_of_subject) at e in
            subst Scoped (ok_inj k) (
              readable_loop-Scoped parse (read_by_subject s.store subj.subject_type subj.subject_id)
                base r h)
      ]
    ]
  ]

  base-Scoped : Scoped (add_tenant bootstrap_tenant_id (add_tenant c.tenant_id []))
  base-Scoped =
      add_tenant-Scoped bootstrap_tenant_id (add_tenant c.tenant_id []) (inr (inl refl))
        (add_tenant-Scoped c.tenant_id [] (inl refl) (tt, tt))

  readable_tenants-Scoped :
      (fails : Call → Bool) (parse : Text → Option Text) (ids : List Text)
      → Reachable s.store
      → readable_tenants fails s c parse ≡ ok ids
      → Scoped ids
  unfolding readable_tenants
  readable_tenants-Scoped fails parse ids r e =
      let (home, k) = guard-ok (text_eq c.tenant_id nil_uuid) invalid_input _ ids e in
      elim (if-ok (not s.wired) _ _ ids k) [
        | inl (w, q) ↦ subst Scoped (ok_inj q) base-Scoped
        | inr (w, q) ↦ readable_of_subject-Scoped fails parse _ ids r base-Scoped q
      ]

  narrow_scope :
      (id : Text) (ids : List Text)
      → Reachable s.store
      → ◌≡◌ {A = Result AccessError (List Text)}
          (if text_eq id c.tenant_id || text_eq id bootstrap_tenant_id
            then ok (id ∷ [])
            else if may s c type_tenant id rel_viewer
            then ok (id ∷ [])
            else ok [])
          (ok ids)
      → Scoped ids × Narrowed (some id) ids
  unfolding is_seen
  narrow_scope id ids r e =
      let one : Readable s c id → Scoped (id ∷ []) = λ p. ((p, tt), (refl, tt)) in
      elim (if-ok (text_eq id c.tenant_id || text_eq id bootstrap_tenant_id) _ _ ids e) [
        | inl (w, q) ↦
            let either : (text_eq id c.tenant_id ≡ true) ⊎ (text_eq id bootstrap_tenant_id ≡ true) =
              ground arith in
            let own : Readable s c id = elim either [
              | inl t ↦ inl ((eq_iff id c.tenant_id).0 t)
              | inr t ↦ inr (inl ((eq_iff id bootstrap_tenant_id).0 t))
            ] in
            (subst Scoped (ok_inj q) (one own), inl (sym (ok_inj q)))
        | inr (w, q) ↦ elim (if-ok (may s c type_tenant id rel_viewer) _ _ ids q) [
          | inl (m, k) ↦
              (subst Scoped (ok_inj k) (one (viewer-Readable id r m)), inl (sym (ok_inj k)))
          | inr (m, k) ↦ (subst Scoped (ok_inj k) (tt, tt), inr (sym (ok_inj k)))
        ]
      ]

-- In a state whose tuples the program's writers made, a read spans, each once, only the caller's own
-- tenant, the common pool and tenants of which the caller holds viewer; with an override it spans that
-- tenant or none.
pub read_scope-Readable :
    (fails : Call → Bool) (s : Directory) (c : Caller) (parse : Text → Option Text)
    (override : Option Text) (ids : List Text)
    → Reachable s.store
    → read_scope fails s c parse override ≡ ok ids
    → All (Readable s c) ids × NoRepeat ids × Narrowed override ids
unfolding read_scope
read_scope-Readable fails s c parse none ids r e =
    let h = readable_tenants-Scoped s c fails parse ids r e in (h.0, h.1, tt)
read_scope-Readable fails s c parse (some id) ids r e =
    let (home, k) = guard-ok (text_eq c.tenant_id nil_uuid) invalid_input _ ids e in
    let (h, n) = narrow_scope s c id ids r k in (h.0, h.1, n)

-- What a write of another tenant takes: it exists, and the caller passes the admin gate or the floor's.
abbrev pub Writable : Directory → Caller → Text → Text → Type 0
Writable s c floor id =
    ((is_admin s c ≡ true) ⊎ (may s c type_tenant id floor ≡ true))
    × ((t : Tenant) × (first_where (λ (x : Tenant). text_eq x.id id) s.tenants ≡ some t))
