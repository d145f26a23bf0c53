-- ===== src/Staleness/Valid.antt =====
-- Every snapshot that is ever served is valid: an error on the way leaves the last one in place.
use memory_system.Prelude.{
  some_inj, ◌≡◌, inl, inr, refl, sym, ◌∙◌, subst, Text, text, text_eq, eq_iff, Bool, false, Option,
  none, some, List, [], ◌∷◌, Memᴰ, All, All-find, find, set, find-set, find-set_other, ok, >>=-ok,
  ok_inj, Bool-cases, Option-cases, Result-cases,
}
use memory_system.Models.Slug.{doc_type_reference, valid_doc_types}
use memory_system.Models.Policy.{
  DocTypePolicy, ChainPrevious, EffectivePolicy, valid_write_modes, validate_effective,
  one_of_texts, is_negative, overlay,
}
use memory_system.Models.Policy.Valid.{ValidPolicy, validate_effective_iff}
use memory_system.Models.Policy.Rows.{
  Policies, by_type, wrap, resolve_row, effective_from_reference, resolve_rows,
  resolve_doc_type_policies, handoff_rules, default_doc_type_policies, parse_rules, must_set,
}
use memory_system.Staleness.{
  PolicyStore, Call, reading, upserting, reloading, effective_for, policy_for, validate_all,
  checked, load, upsert, persist, merged_rows, set_doc_type_policy, default_effective_policies,
  new_policy_store,
}

abbrev Has {ℓ} : {V : Type ℓ} → Text → List (Text × V) → Type ℓ
Has k m = (v : _) × (find k m ≡ some v)

-- Every policy is valid and the reference type has one.
abbrev pub Served : Policies → Type 0
Served m = All (λ (e : Text × EffectivePolicy). ValidPolicy e.1) m × Has doc_type_reference m

set-Has :
    {V W : Type 0} (k j : Text) (v : V) (w : W) (m : List (Text × V)) (out : List (Text × W))
    → (Has k m → Has k out)
    → Has k (set j v m)
    → Has k (set j w out)
set-Has k j v w m out f h = elim (Bool-cases (text_eq j k)) [
  | inl e ↦
      let same : j ≡ k = (eq_iff j k).0 e in
      (w, subst (λ i. find i (set j w out) ≡ some w) same (find-set j w out))
  | inr e ↦
      let (x, p) = f (h.0, sym (find-set_other k j v m e) ∙ h.1) in
      (x, find-set_other k j w out e ∙ p)
]

validate_all-Valid :
    (m : Policies) → validate_all m ≡ none → All (λ (e : Text × EffectivePolicy). ValidPolicy e.1) m
unfolding validate_all
validate_all-Valid [] h = tt
validate_all-Valid ((t, p) ∷ m) h = elim (Option-cases (validate_effective t p)) [
  | inl e ↦ (
    (validate_effective_iff t p).0 e,
    validate_all-Valid m (let k = rw (e, validate_all) at h in k),
  )
  | inr (x, e) ↦ let k = rw (e, validate_all) at h in cc
]

module _ (unmarshal_object : Text → Option (List (Text × Text)))
    (unmarshal_chain : Text → Option ChainPrevious) where
  resolve_rows-Has :
      (k : Text) (rows : List DocTypePolicy) (m : List (Text × DocTypePolicy))
      (base : EffectivePolicy) (out0 out : Policies)
      → (Has k m → Has k out0)
      → Has k (by_type rows m)
      → resolve_rows unmarshal_object unmarshal_chain rows base out0 ≡ ok out
      → Has k out
  unfolding resolve_rows by_type
  resolve_rows-Has k [] m base out0 out f h e = subst (Has k) (ok_inj e) (f h)
  resolve_rows-Has k (r ∷ rows) m base out0 out f h e =
      let (eff, one, rest) =
        >>=-ok (wrap r.doc_type (resolve_row unmarshal_object unmarshal_chain r base)) _ out e in
      resolve_rows-Has k rows (set r.doc_type r m) base (set r.doc_type eff out0) out
        (set-Has k r.doc_type r eff m out0 f) h rest

  resolve-Has :
      (rows : List DocTypePolicy) (out : Policies)
      → resolve_doc_type_policies unmarshal_object unmarshal_chain rows ≡ ok out
      → Has doc_type_reference out
  unfolding resolve_doc_type_policies
  resolve-Has rows out h = elim (Option-cases (find doc_type_reference (by_type rows []))) [
    | inl e ↦ let k = rw (e, resolve_doc_type_policies) at h in cc
    | inr (ref, e) ↦
        let k = rw (e, resolve_doc_type_policies) at h in
        let (base, p, rest) =
          >>=-ok (effective_from_reference unmarshal_object unmarshal_chain ref) _ out k in
        resolve_rows-Has doc_type_reference rows [] base [] out
          (λ q. let (v, n) = q in unfold find in cc) (ref, e) rest
  ]

  module _ (fails : Call → Bool) where
    -- What passes the checks resolves, and serves.
    checked-Served :
        (rows : List DocTypePolicy) (out : Policies)
        → checked unmarshal_object unmarshal_chain fails rows ≡ ok out
        → Served out
    unfolding checked
    checked-Served rows out h =
        elim (Result-cases (resolve_doc_type_policies unmarshal_object unmarshal_chain rows)) [
          | inl (e, p) ↦ let k = rw (p, checked) at h in cc
          | inr (eff, p) ↦ elim (Option-cases (validate_all eff)) [
            | inl v ↦
                let k = rw (p, v, checked) at h in
                subst Served (ok_inj k) (validate_all-Valid eff v, resolve-Has rows eff p)
            | inr (x, v) ↦ let k = rw (p, v, checked) at h in cc
          ]
        ]

    load-Served :
        (call : Call) (s : PolicyStore)
        → Served s.snap
        → Served (load unmarshal_object unmarshal_chain fails call s).0.snap
    unfolding load
    load-Served call s h = elim (Bool-cases (fails call)) [
      | inl e ↦ rw e h
      | inr e ↦ elim (Result-cases (checked unmarshal_object unmarshal_chain fails s.table)) [
        | inl (x, p) ↦ rw (e, p) h
        | inr (eff, p) ↦ rw (e, p) (checked-Served s.table eff p)
      ]
    ]

    persist-Served :
        (row : DocTypePolicy) (s : PolicyStore)
        → Served s.snap
        → Served (persist unmarshal_object unmarshal_chain fails row s).0.snap
    unfolding persist upsert
    persist-Served row s h =
        elim (Result-cases
          (checked unmarshal_object unmarshal_chain fails (merged_rows row s.table))) [
            | inl (x, p) ↦ rw (p, persist) h
            | inr (eff, p) ↦ elim (Bool-cases (fails upserting)) [
              | inl e ↦ rw (p, e, persist, upsert) h
              | inr e ↦ rw (p, e, persist, upsert) (load-Served reloading _ h)
            ]
          ]

  -- The store after the service's operation, which is nil only if it was.
  set-Served :
      (fails : Call → Bool) (is_admin : Bool) (patch : DocTypePolicy) (s s' : PolicyStore)
      → Served s.snap
      → (set_doc_type_policy unmarshal_object unmarshal_chain fails is_admin patch (some s)).0
        ≡ some s'
      → Served s'.snap
  unfolding set_doc_type_policy
  set-Served fails is_admin patch s s' h e = elim (Bool-cases is_admin) [
    | inl a ↦ elim (Bool-cases (one_of_texts valid_doc_types patch.doc_type)) [
      | inl b ↦ elim (Bool-cases (fails reading)) [
        | inl c ↦
            let k = rw (a, b, c, set_doc_type_policy) at e in
            subst (λ (x : PolicyStore). Served x.snap) (some_inj k) h
        | inr c ↦
            let k = rw (a, b, c, set_doc_type_policy) at e in
            subst (λ (x : PolicyStore). Served x.snap) (some_inj k) (persist-Served fails _ s h)
      ]
      | inr b ↦
          let k = rw (a, b, set_doc_type_policy) at e in
          subst (λ (x : PolicyStore). Served x.snap) (some_inj k) h
    ]
    | inr a ↦
        let k = rw (a, set_doc_type_policy) at e in
        subst (λ (x : PolicyStore). Served x.snap) (some_inj k) h
  ]

  -- The decoder reads the rules of the default handoff row.
  abbrev pub DecodesDefault : Type 0
  DecodesDefault =
      (raw : List (Text × Text)) × (v : Text) × (cp : ChainPrevious) × (unmarshal_object
          handoff_rules
        ≡ some raw)
      × (find (text "chain_previous") raw ≡ some v)
      × (unmarshal_chain v ≡ some cp)

  default-checked :
      (fails : Call → Bool)
      → DecodesDefault
      → checked unmarshal_object unmarshal_chain fails default_doc_type_policies
        ≡ ok (default_effective_policies unmarshal_object unmarshal_chain fails)
  unfolding default_effective_policies checked resolve_doc_type_policies by_type
      effective_from_reference resolve_rows resolve_row parse_rules must_set overlay set find
      text_eq validate_all validate_effective one_of_texts is_negative
  default-checked fails (raw, v, cp, h1, h2, h3) = rw (h1, h2, h3) refl

  -- The stores that a fresh one becomes by loads, by the service's operation and by other writers of the
  -- table, whichever calls of the database fail.
  pub data Reachable : PolicyStore → Type 0 where
    fresh :
        (fails : Call → Bool) (table : List DocTypePolicy)
        → Reachable (new_policy_store unmarshal_object unmarshal_chain fails table)
    loaded :
        (fails : Call → Bool) (call : Call) (s : PolicyStore)
        → Reachable s
        → Reachable (load unmarshal_object unmarshal_chain fails call s).0
    patched :
        (fails : Call → Bool) (is_admin : Bool) (patch : DocTypePolicy) (s s' : PolicyStore)
        → Reachable s
        → (set_doc_type_policy unmarshal_object unmarshal_chain fails is_admin patch (some s)).0
          ≡ some s'
        → Reachable s'
    written :
        (s : PolicyStore) (table : List DocTypePolicy)
        → Reachable s
        → Reachable (record s { table = table })

  Reachable-Served : DecodesDefault → (s : PolicyStore) → Reachable s → Served s.snap
  Reachable-Served d s (fresh fails table) =
      unfold new_policy_store in
      checked-Served fails default_doc_type_policies _ (default-checked fails d)
  Reachable-Served d z (loaded fails call s r) = load-Served fails call s (Reachable-Served d s r)
  Reachable-Served d z (patched fails is_admin patch s s' r e) =
      set-Served fails is_admin patch s s' (Reachable-Served d s r) e
  Reachable-Served d z (written s table r) = Reachable-Served d s r

mode-ne : (p : EffectivePolicy) → ValidPolicy p → text_eq p.write_mode [] ≡ false
mode-ne p v = elim (Bool-cases (text_eq p.write_mode [])) [
  | inr e ↦ e
  | inl e ↦
      let empty : Memᴰ [] valid_write_modes =
        subst (λ m. Memᴰ m valid_write_modes) ((eq_iff p.write_mode []).0 e) v.0 in
      absurd (no_empty empty)
]
  where
    no_empty : ¬ Memᴰ [] valid_write_modes
    no_empty (Memᴰ.head q) = cc
    no_empty (Memᴰ.tail (Memᴰ.head q)) = cc
    no_empty (Memᴰ.tail (Memᴰ.tail (Memᴰ.head q))) = cc
    no_empty (Memᴰ.tail (Memᴰ.tail (Memᴰ.tail i))) = elim i [ ]

Served-effective_for :
    (s : PolicyStore) (t : Text) → Served s.snap → ValidPolicy (effective_for s t)
unfolding effective_for
Served-effective_for s t (all, (ref, e)) = elim (Option-cases (find t s.snap)) [
  | inr (p, f) ↦ rw f (All-find ValidPolicy t s.snap p all f)
  | inl f ↦ rw (f, e) (All-find ValidPolicy doc_type_reference s.snap ref all e)
]

used :
    (s : PolicyStore) (t : Text)
    → ValidPolicy (effective_for s t)
    → policy_for (some s) t ≡ effective_for s t
unfolding policy_for
used s t valid = rw (mode-ne (effective_for s t) valid) refl

-- Where the decoder reads the rules of the default rows: in every store that a fresh one becomes, by
-- loads, by the service's operation and by other writes to the table, whichever calls fail, each type's
-- policy is valid, known or not; and the service uses it, never the default that it keeps for when
-- there is no store.
pub effective_for-ValidPolicy :
    (unmarshal_object : Text → Option (List (Text × Text)))
    (unmarshal_chain : Text → Option ChainPrevious)
    → DecodesDefault unmarshal_object unmarshal_chain
    → (s : PolicyStore) → Reachable unmarshal_object unmarshal_chain s
    → (t : Text) → ValidPolicy (effective_for s t) × (policy_for (some s) t ≡ effective_for s t)
effective_for-ValidPolicy uo uc d s r t =
    let valid = Served-effective_for s t (Reachable-Served uo uc d s r) in (valid, used s t valid)
