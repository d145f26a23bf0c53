-- ===== src/Models/Policy/Rows.antt =====
-- The resolution of rows of internal/models/doc_type_policy.go. The JSON decoder is a parameter:
-- `unmarshal_object` gives the members of an object, each with its raw text, and `unmarshal_chain`
-- reads a chain_previous.
use memory_system.Prelude.{
  pos, Text, text, true, false, Option, none, some, List, [], ◌∷◌, find, set, Result, err, ok,
  ◌>>=◌,
}
use memory_system.Models.Slug.{
  slug_format_any, slug_format_date, doc_type_reference, doc_type_project_state, doc_type_audit,
  doc_type_learning, doc_type_preference, doc_type_tool, doc_type_journal, doc_type_handoff,
  doc_type_prompt,
}
use memory_system.Models.Policy.{
  DocTypePolicy, ChainPrevious, EffectivePolicy, PolicyError, reference_must_set, rules_not_object,
  chain_previous_malformed, no_reference_row, of_doc_type, overlay, unset_row, write_mode_replace,
  write_mode_merge_sections, subcategory_optional, subcategory_required, subcategory_forbidden,
}

abbrev pub Policies : Type 0
Policies = List (Text × EffectivePolicy)

abbrev pub handoff_rules : Text
handoff_rules =
    text "{\"chain_previous\":{\"scope\":\"subcategory\",\"edge_type\":\"continues_from\"}}"

abbrev pub default_doc_type_policies : List DocTypePolicy
default_doc_type_policies =
    record (unset_row doc_type_reference) {
      duplicate_guard = some true;
      cleanup_scan = some true;
      lint_stale_check = some true;
      embed = some true;
      default_search = some true;
      prunable = some false;
      expiration_age_days = some (pos 30);
      write_mode = some write_mode_replace;
      slug_format = some slug_format_any;
      subcategory = some subcategory_optional;
    }
    ∷ unset_row doc_type_project_state
    ∷ unset_row doc_type_audit
    ∷ unset_row doc_type_learning
    ∷ unset_row doc_type_preference
    ∷ unset_row doc_type_tool
    ∷ record (unset_row doc_type_journal) {
      duplicate_guard = some false;
      cleanup_scan = some false;
      lint_stale_check = some false;
      default_search = some false;
      prunable = some true;
      expiration_age_days = some (pos 30);
      write_mode = some write_mode_merge_sections;
      slug_format = some slug_format_date;
      subcategory = some subcategory_forbidden;
    }
    ∷ record (unset_row doc_type_handoff) {
      duplicate_guard = some false;
      cleanup_scan = some false;
      lint_stale_check = some false;
      default_search = some false;
      prunable = some true;
      expiration_age_days = some (pos 90);
      subcategory = some subcategory_required;
      rules = handoff_rules;
    }
    ∷ record (unset_row doc_type_prompt) {
      duplicate_guard = some false;
      cleanup_scan = some false;
      lint_stale_check = some false;
      prunable = some false;
      embed = some false;
      default_search = some false;
      expiration_age_days = some (pos 0);
      write_mode = some write_mode_replace;
      subcategory = some subcategory_required;
    }
    ∷ []

-- the switch over the fields of the reference row, at one of them
unfoldable pub must_set {ℓ} : {A : Type ℓ} → Text → Option A → Result PolicyError A
must_set field none = err (reference_must_set field)
must_set field (some a) = ok a

-- byType[r.DocType] = r, row by row
unfoldable pub by_type :
    List DocTypePolicy → List (Text × DocTypePolicy) → List (Text × DocTypePolicy)
unfolding set
by_type [] m = m
by_type (r ∷ rows) m = by_type rows (set r.doc_type r m)

abbrev pub wrap {ℓ} : {A : Type ℓ} → Text → Result PolicyError A → Result PolicyError A
wrap t (err e) = err (of_doc_type t e)
wrap t (ok a) = ok a

module _ (unmarshal_object : Text → Option (List (Text × Text)))
    (unmarshal_chain : Text → Option ChainPrevious) where
  abbrev chain_of : List (Text × Text) → Result PolicyError (Option ChainPrevious)
  chain_of raw = elim (find (text "chain_previous") raw) [
    | none ↦ ok none
    | some v ↦ elim (unmarshal_chain v) [
      | none ↦ err chain_previous_malformed
      | some cp ↦ ok (some cp)
    ]
  ]

  unfoldable pub parse_rules : Text → Result PolicyError (List (Text × Text) × Option ChainPrevious)
  unfolding find
  parse_rules [] = ok ([], none)
  parse_rules (b ∷ js) = elim (unmarshal_object (b ∷ js)) [
    | none ↦ err rules_not_object
    | some raw ↦ do chain ← chain_of raw; ok (raw, chain)
  ]

  unfoldable pub resolve_row : DocTypePolicy → EffectivePolicy → Result PolicyError EffectivePolicy
  unfolding overlay parse_rules
  resolve_row r base = do
    rules ← parse_rules r.rules
    ok record {
      expiration_age_days = overlay r.expiration_age_days base.expiration_age_days;
      duplicate_guard = overlay r.duplicate_guard base.duplicate_guard;
      cleanup_scan = overlay r.cleanup_scan base.cleanup_scan;
      lint_stale_check = overlay r.lint_stale_check base.lint_stale_check;
      embed = overlay r.embed base.embed;
      default_search = overlay r.default_search base.default_search;
      prunable = overlay r.prunable base.prunable;
      write_mode = overlay r.write_mode base.write_mode;
      slug_format = overlay r.slug_format base.slug_format;
      subcategory = overlay r.subcategory base.subcategory;
      chain_previous = rules.1;
      raw_rules = rules.0;
    }

  unfoldable pub effective_from_reference : DocTypePolicy → Result PolicyError EffectivePolicy
  unfolding must_set overlay resolve_row
  effective_from_reference ref = do
    guard ← must_set (text "duplicate_guard") ref.duplicate_guard
    scan ← must_set (text "cleanup_scan") ref.cleanup_scan
    lint ← must_set (text "lint_stale_check") ref.lint_stale_check
    emb ← must_set (text "embed") ref.embed
    search ← must_set (text "default_search") ref.default_search
    prune ← must_set (text "prunable") ref.prunable
    mode ← must_set (text "write_mode") ref.write_mode
    format ← must_set (text "slug_format") ref.slug_format
    sub ← must_set (text "subcategory") ref.subcategory
    resolve_row ref record {
      expiration_age_days = overlay ref.expiration_age_days (pos 0);
      duplicate_guard = guard;
      cleanup_scan = scan;
      lint_stale_check = lint;
      embed = emb;
      default_search = search;
      prunable = prune;
      write_mode = mode;
      slug_format = format;
      subcategory = sub;
      chain_previous = none;
      raw_rules = [];
    }

  -- the loop that fills `out`
  unfoldable pub resolve_rows :
      List DocTypePolicy → EffectivePolicy → Policies → Result PolicyError Policies
  unfolding set resolve_row
  resolve_rows [] base out = ok out
  resolve_rows (r ∷ rows) base out = do
    eff ← wrap r.doc_type (resolve_row r base)
    resolve_rows rows base (set r.doc_type eff out)

  unfoldable pub resolve_doc_type_policies : List DocTypePolicy → Result PolicyError Policies
  unfolding find by_type effective_from_reference resolve_rows
  resolve_doc_type_policies rows = elim (find doc_type_reference (by_type rows [])) [
    | none ↦ err no_reference_row
    | some ref ↦ do base ← effective_from_reference ref; resolve_rows rows base []
  ]
