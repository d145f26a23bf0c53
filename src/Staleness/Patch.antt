-- ===== src/Staleness/Patch.antt =====
-- What a patch of a policy leaves in the table and in the snapshot.
pub mod Row
use memory_system.Prelude.{
  some_inj, text, if◌then◌else◌, ◌≡◌, ◌≢◌, ◌⊎◌, inl, inr, refl, sym, ap, ◌∙◌, subst, Text, text_eq,
  eq_iff, eq_refl, Bool, true, false, Option, none, some, List, [], ◌∷◌, ok, Bool-cases,
  Result-cases,
}
use memory_system.Models.Slug.{valid_doc_types}
use memory_system.Models.Policy.{DocTypePolicy, ChainPrevious, one_of_texts}
use memory_system.Staleness.Patch.Row.{
  RowLaidOver, apply_policy_patch-RowLaidOver, row_for-doc_type, row_for-upsert_row,
  row_for-upsert_row_other,
}
use memory_system.Staleness.{
  PolicyStore, Call, reading, upserting, reloading, StoreError, with_rules, patched, upsert_row,
  row_for, apply_policy_patch, merged_rows, checked, load, upsert, persist, set_doc_type_policy,
}

module _ (unmarshal_object : Text → Option (List (Text × Text)))
    (unmarshal_chain : Text → Option ChainPrevious) (fails : Call → Bool) where
  abbrev do_load : Call → PolicyStore → PolicyStore × Option StoreError
  do_load = load unmarshal_object unmarshal_chain fails

  -- A load gives the checked snapshot of the table, or an error and the store as it was.
  load-cases :
      (call : Call) (s : PolicyStore)
      → (((do_load call s).1 ≡ none)
          × ((do_load call s).0.table ≡ s.table)
          × (checked unmarshal_object unmarshal_chain fails s.table ≡ ok (do_load call s).0.snap))
        ⊎ (((do_load call s).1 ≢ none) × ((do_load call s).0 ≡ s))
  unfolding load
  load-cases call s = elim (Bool-cases (fails call)) [
    | inl e ↦ inr (rw e (λ q. cc), rw e refl)
    | inr e ↦ elim (Result-cases (checked unmarshal_object unmarshal_chain fails s.table)) [
      | inl (x, p) ↦ inr (rw (e, p) (λ q. cc), rw (e, p) refl)
      | inr (eff, p) ↦ inl (rw (e, p) refl, rw (e, p) refl, rw (e, p) refl)
    ]
  ]

  abbrev Done : DocTypePolicy → PolicyStore → PolicyStore → Type 0
  Done row s s' =
      (s'.table ≡ upsert_row (with_rules row) s.table)
      × (checked unmarshal_object unmarshal_chain fails s'.table ≡ ok s'.snap)

  abbrev Stopped : DocTypePolicy → PolicyStore → PolicyStore → Type 0
  Stopped row s s' = (s' ≡ s) ⊎ (s' ≡ record s { table = upsert_row (with_rules row) s.table })

  abbrev do_persist : DocTypePolicy → PolicyStore → PolicyStore × Option StoreError
  do_persist = persist unmarshal_object unmarshal_chain fails

  persist-cases :
      (row : DocTypePolicy) (s : PolicyStore)
      → (((do_persist row s).1 ≡ none) × Done row s (do_persist row s).0)
        ⊎ (((do_persist row s).1 ≢ none) × Stopped row s (do_persist row s).0)
  unfolding persist upsert
  persist-cases row s =
      elim (Result-cases
        (checked unmarshal_object unmarshal_chain fails (merged_rows row s.table))) [
          | inl (x, p) ↦ inr (rw (p, persist) (λ q. cc), inl (rw (p, persist) refl))
          | inr (eff, p) ↦ elim (Bool-cases (fails upserting)) [
            | inl e ↦
                inr (rw (p, e, persist, upsert) (λ q. cc), inl (rw (p, e, persist, upsert) refl))
            | inr e ↦
                elim (load-cases reloading
                  (record s { table = upsert_row (with_rules row) s.table })) [
                    | inl (a, b, c) ↦ inl (
                      rw (p, e, persist, upsert) a,
                      (
                        rw (p, e, persist, upsert) b,
                        rw (p, e, persist, upsert)
                            (ap (checked unmarshal_object unmarshal_chain fails) b ∙ c),
                      ),
                    )
                    | inr (a, b) ↦
                        inr (rw (p, e, persist, upsert) a, inr (rw (p, e, persist, upsert) b))
                  ]
          ]
        ]

  abbrev do_set : Bool → DocTypePolicy → PolicyStore → Option PolicyStore × Option StoreError
  do_set is_admin patch s =
      set_doc_type_policy unmarshal_object unmarshal_chain fails is_admin patch (some s)

  abbrev new_row : DocTypePolicy → PolicyStore → DocTypePolicy
  new_row patch s = apply_policy_patch (row_for patch.doc_type s.table) patch

  -- The operation stops with an error and the store as it was, or is the write of the patched row.
  set-cases :
      (is_admin : Bool) (patch : DocTypePolicy) (s : PolicyStore)
      → ((do_set is_admin patch s).0 ≡ some s) × ((do_set is_admin patch s).1 ≢ none)
        ⊎ (is_admin ≡ true)
          × (one_of_texts valid_doc_types patch.doc_type ≡ true)
          × ((do_set is_admin patch s).0 ≡ some (do_persist (new_row patch s) s).0)
          × ((do_set is_admin patch s).1 ≡ (do_persist (new_row patch s) s).1)
  unfolding set_doc_type_policy
  set-cases is_admin patch s = elim (Bool-cases is_admin) [
    | inr a ↦ inl (rw a refl, rw a (λ q. cc))
    | inl a ↦ elim (Bool-cases (one_of_texts valid_doc_types patch.doc_type)) [
      | inr b ↦ inl (rw (a, b) refl, rw (a, b) (λ q. cc))
      | inl b ↦ elim (Bool-cases (fails reading)) [
        | inl c ↦ inl (rw (a, b, c) refl, rw (a, b, c) (λ q. cc))
        | inr c ↦ inr (a, b, rw (a, b, c) refl, rw (a, b, c) refl)
      ]
    ]
  ]

  new_row-doc_type :
      (patch : DocTypePolicy) (s : PolicyStore)
      → (with_rules (new_row patch s)).doc_type ≡ patch.doc_type
  unfolding apply_policy_patch
  new_row-doc_type patch s = row_for-doc_type patch.doc_type s.table

  -- What a patch that is accepted leaves.
  abbrev pub Patched : DocTypePolicy → PolicyStore → PolicyStore → Type 0
  Patched patch s s' =
      RowLaidOver patch (row_for patch.doc_type s.table) (row_for patch.doc_type s'.table)
      × ((k : Text) → text_eq patch.doc_type k ≡ false → row_for k s'.table ≡ row_for k s.table)
      × (checked unmarshal_object unmarshal_chain fails s'.table ≡ ok s'.snap)

  Done-Patched :
      (patch : DocTypePolicy) (s s' : PolicyStore)
      → Done (new_row patch s) s s'
      → Patched patch s s'
  Done-Patched patch s s' (t, c) =
      let same = new_row-doc_type patch s in
      let row_is : row_for patch.doc_type s'.table ≡ with_rules (new_row patch s) =
        subst (λ k. row_for k s'.table ≡ with_rules (new_row patch s)) same
          (ap (row_for (with_rules (new_row patch s)).doc_type) t
            ∙ row_for-upsert_row (with_rules (new_row patch s)) s.table) in
      (
        subst (RowLaidOver patch (row_for patch.doc_type s.table)) (sym row_is)
            (apply_policy_patch-RowLaidOver patch (row_for patch.doc_type s.table)),
        (λ k n.
            ap (row_for k) t
            ∙ row_for-upsert_row_other k (with_rules (new_row patch s)) s.table
                (subst (λ j. text_eq j k ≡ false) (sym same) n)),
        c,
      )

-- A patch that returns no error was the instance admin's and of a known type. The table then has, for
-- that type, the old row with the patch's fields laid over it, and the rows of all other types as they
-- were; and the snapshot is the table's resolution, which passed the validation.
pub set_doc_type_policy-Patched :
    (unmarshal_object : Text → Option (List (Text × Text)))
    (unmarshal_chain : Text → Option ChainPrevious) (fails : Call → Bool) (is_admin : Bool)
    (patch : DocTypePolicy) (s s' : PolicyStore)
    → set_doc_type_policy unmarshal_object unmarshal_chain fails is_admin patch (some s)
      ≡ (some s', none)
    → (is_admin ≡ true)
      × (one_of_texts valid_doc_types patch.doc_type ≡ true)
      × Patched unmarshal_object unmarshal_chain fails patch s s'
set_doc_type_policy-Patched uo uc fails is_admin patch s s' h =
    elim (set-cases uo uc fails is_admin patch s) [
      | inl (e, n) ↦ absurd (n (ap (λ r. r.1) h))
      | inr (a, b, e, f) ↦ elim (persist-cases uo uc fails (new_row uo uc fails patch s) s) [
        | inr (n, x) ↦ absurd (n (sym f ∙ ap (λ r. r.1) h))
        | inl (n, d) ↦
            let q : (persist uo uc fails (new_row uo uc fails patch s) s).0 ≡ s' =
              some_inj (sym e ∙ ap (λ r. r.0) h) in
            (
              a,
              b,
              Done-Patched uo uc fails patch s s'
                  (subst (Done uo uc fails (new_row uo uc fails patch s) s) q d),
            )
      ]
    ]

-- A patch that returns an error leaves the store as it was, or as it was with the patched row put into
-- its table.
pub set_doc_type_policy-err :
    (unmarshal_object : Text → Option (List (Text × Text)))
    (unmarshal_chain : Text → Option ChainPrevious) (fails : Call → Bool) (is_admin : Bool)
    (patch : DocTypePolicy) (s s' : PolicyStore) (x : StoreError)
    → set_doc_type_policy unmarshal_object unmarshal_chain fails is_admin patch (some s)
      ≡ (some s', some x)
    → (s' ≡ s)
      ⊎ (s' ≡ record s {
        table =
            upsert_row
              (with_rules (apply_policy_patch (row_for patch.doc_type s.table) patch))
              s.table;
      })
set_doc_type_policy-err uo uc fails is_admin patch s s' x h =
    elim (set-cases uo uc fails is_admin patch s) [
      | inl (e, n) ↦ inl (sym (some_inj (sym e ∙ ap (λ r. r.0) h)))
      | inr (a, b, e, f) ↦
          let q : (persist uo uc fails (new_row uo uc fails patch s) s).0 ≡ s' =
            some_inj (sym e ∙ ap (λ r. r.0) h) in
          elim (persist-cases uo uc fails (new_row uo uc fails patch s) s) [
            | inr (n, st) ↦ subst (Stopped uo uc fails (new_row uo uc fails patch s) s) q st
            | inl (n, d) ↦ let clash : none ≡ some x = sym n ∙ sym f ∙ ap (λ r. r.1) h in cc
          ]
    ]
