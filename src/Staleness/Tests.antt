-- ===== src/Staleness/Tests.antt =====
-- The theorems on the policy store at a store that is freshly seeded, with a decoder that knows the rules
-- of the default rows.
use memory_system.Prelude.{
  pos, ◌≡◌, ◌⊎◌, refl, Text, text, text_eq, Bool, true, false, Option, none, some, List, [], ◌∷◌,
  find, set,
}
use memory_system.Models.Slug.{doc_type_journal, valid_doc_types}
use memory_system.Models.Policy.{
  DocTypePolicy, ChainPrevious, unset_row, overlay, one_of_texts, is_negative, validate_effective,
}
use memory_system.Models.Policy.Valid.{ValidPolicy}
use memory_system.Models.Policy.Rows.{
  default_doc_type_policies, by_type, effective_from_reference, resolve_rows, resolve_row,
  parse_rules, must_set, resolve_doc_type_policies,
}
use memory_system.Staleness.{
  PolicyStore, Call, reading, upserting, reloading, database_failed, effective_for, policy_for,
  validate_all, with_rules, upsert_row, row_for, apply_policy_patch, merged_rows, replace_rows,
  has_row, checked, load, upsert, persist, set_doc_type_policy, new_policy_store,
  default_effective_policies,
}
use memory_system.Staleness.Valid.{DecodesDefault, fresh, effective_for-ValidPolicy}
use memory_system.Staleness.Patch.{Patched, set_doc_type_policy-Patched, set_doc_type_policy-err}

abbrev decode : Text → Option (List (Text × Text))
decode t = some ((text "chain_previous", text "{}") ∷ [])

abbrev decode_chain : Text → Option ChainPrevious
decode_chain t = some record { scope = text "subcategory"; edge_type = text "continues_from" }

decodes : DecodesDefault decode decode_chain
unfolding find text_eq
decodes = ((text "chain_previous", text "{}") ∷ [], text "{}", _, refl, refl, refl)

abbrev none_fails : Call → Bool
none_fails call = false

abbrev reload_fails : Call → Bool
reload_fails reading = false
reload_fails upserting = false
reload_fails reloading = true

abbrev seeded : PolicyStore
seeded = new_policy_store decode decode_chain none_fails default_doc_type_policies

effective_for-ValidPolicy_example :
    ValidPolicy (effective_for seeded (text "unknown"))
    × (policy_for (some seeded) (text "unknown") ≡ effective_for seeded (text "unknown"))
effective_for-ValidPolicy_example =
    effective_for-ValidPolicy decode decode_chain decodes seeded
      (fresh none_fails default_doc_type_policies) (text "unknown")

abbrev longer_journal : DocTypePolicy
longer_journal = record (unset_row doc_type_journal) { expiration_age_days = some (pos 60) }

abbrev store_of : Option PolicyStore → PolicyStore
store_of none = seeded
store_of (some s) = s

abbrev after : PolicyStore
after =
    store_of
      (set_doc_type_policy decode decode_chain none_fails true longer_journal (some seeded)).0

accepted :
    set_doc_type_policy decode decode_chain none_fails true longer_journal (some seeded)
    ≡ (some after, none)
unfolding set_doc_type_policy row_for apply_policy_patch persist upsert upsert_row merged_rows
    replace_rows has_row load checked validate_all new_policy_store default_effective_policies
    resolve_doc_type_policies by_type effective_from_reference resolve_rows resolve_row parse_rules
    must_set overlay set find text_eq validate_effective one_of_texts is_negative
accepted = refl

set_doc_type_policy-Patched_example :
    (true ≡ true)
    × (one_of_texts valid_doc_types doc_type_journal ≡ true)
    × Patched decode decode_chain none_fails longer_journal seeded after
set_doc_type_policy-Patched_example =
    set_doc_type_policy-Patched decode decode_chain none_fails true longer_journal seeded after
      accepted

abbrev half_done : PolicyStore
half_done =
    store_of
      (set_doc_type_policy decode decode_chain reload_fails true longer_journal (some seeded)).0

not_reloaded :
    set_doc_type_policy decode decode_chain reload_fails true longer_journal (some seeded)
    ≡ (some half_done, some (database_failed reloading))
unfolding set_doc_type_policy row_for apply_policy_patch persist upsert upsert_row merged_rows
    replace_rows has_row load checked validate_all new_policy_store default_effective_policies
    resolve_doc_type_policies by_type effective_from_reference resolve_rows resolve_row parse_rules
    must_set overlay set find text_eq validate_effective one_of_texts is_negative
not_reloaded = refl

set_doc_type_policy-err_example :
    (half_done ≡ seeded)
    ⊎ (half_done ≡ record seeded {
      table =
          upsert_row
            (with_rules (apply_policy_patch (row_for doc_type_journal seeded.table) longer_journal))
            seeded.table;
    })
set_doc_type_policy-err_example =
    set_doc_type_policy-err decode decode_chain reload_fails true longer_journal seeded half_done
      (database_failed reloading) not_reloaded
