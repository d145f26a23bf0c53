-- ===== src/Models/Tests.antt =====
-- The theorems on paths, slugs and policies at concrete inputs.
use memory_system.Prelude.{
  ◌≤◌, ◌≡◌, ◌↔◌, refl, Text, text, true, false, Option, none, some, List, [], ◌∷◌, Memᴰ, All,
  length, split, find, Result, ok, err, text_eq, set,
}
use memory_system.Models.Path.{
  build_path, parse_path, validate_document_path, validate_subcategory_path, valid_path_segment,
  first_bad_segment, is_alnum, is_segment_byte, all_bytes,
}
use memory_system.Models.Path.Valid.{Segment, OptionalSubcategory, validate_document_path_iff}
use memory_system.Models.Path.RoundTrip.{parse_path-build_path}
use memory_system.Models.Slug.{kebab_slug, contains_fold, doc_type_reference, doc_type_audit}
use memory_system.Models.Slug.Kebab.{Piece, kebab_slug_iff}
use memory_system.Models.Slug.Fold.{ContainsFold, contains_fold_iff}
use memory_system.Models.Policy.{
  DocTypePolicy, ChainPrevious, EffectivePolicy, PolicyError, validate_effective,
  default_effective_policy, unset_row, overlay, write_mode_append_only,
}
use memory_system.Models.Policy.Valid.{ValidPolicy, validate_effective_iff}
use memory_system.Models.Policy.Rows.{
  Policies, resolve_doc_type_policies, by_type, effective_from_reference, resolve_rows, resolve_row,
  parse_rules, must_set,
}
use memory_system.Models.Policy.Resolve.{Unique, Inherits, resolve_doc_type_policies-Inherits}

nested_valid :
    validate_document_path (text "projects") (text "state") (some (text "infra/k8s")) ≡ none
unfolding validate_document_path validate_subcategory_path valid_path_segment first_bad_segment
    is_alnum is_segment_byte all_bytes split
nested_valid = refl

parse_path-build_path_example :
    parse_path (build_path (text "projects") (some (text "infra/k8s")) (text "state")) ≡ record {
      category = text "projects";
      subcategory = some (text "infra/k8s");
      slug = text "state";
    }
parse_path-build_path_example =
    parse_path-build_path (text "projects") (text "state") (some (text "infra/k8s")) nested_valid

validate_document_path_iff_example :
    (validate_document_path (text "projects") (text "state") (some (text "a//b")) ≡ none) ↔ (
      (length (text "projects") ≤ 50)
      × Segment (text "projects")
      × (length (text "state") ≤ 100)
      × Segment (text "state")
      × OptionalSubcategory (some (text "a//b")))
validate_document_path_iff_example =
    validate_document_path_iff (text "projects") (text "state") (some (text "a//b"))

kebab_slug_iff_example :
    (kebab_slug (text "a-b--1") ≡ true) ↔ All Piece (split b'-' (text "a-b--1"))
kebab_slug_iff_example = kebab_slug_iff (text "a-b--1")

contains_fold_iff_example :
    (contains_fold (text "2024-AUDIT") (text "audit") ≡ true)
    ↔ ContainsFold (text "2024-AUDIT") (text "audit")
contains_fold_iff_example = contains_fold_iff (text "2024-AUDIT") (text "audit")

abbrev guarded_append : EffectivePolicy
guarded_append = record default_effective_policy { write_mode = write_mode_append_only }

validate_effective_iff_example :
    (validate_effective (text "audit") guarded_append ≡ none) ↔ ValidPolicy guarded_append
validate_effective_iff_example = validate_effective_iff (text "audit") guarded_append

abbrev decode : Text → Option (List (Text × Text))
decode t = some []

abbrev decode_chain : Text → Option ChainPrevious
decode_chain t = none

abbrev audit_row : DocTypePolicy
audit_row = record (unset_row doc_type_audit) {
  duplicate_guard = some false;
  write_mode = some write_mode_append_only;
}

abbrev reference_row : DocTypePolicy
reference_row = record (unset_row doc_type_reference) {
  duplicate_guard = some true;
  cleanup_scan = some true;
  lint_stale_check = some true;
  embed = some true;
  default_search = some true;
  prunable = some false;
  write_mode = some (text "replace");
  slug_format = some (text "any");
  subcategory = some (text "optional");
}

abbrev two_rows : List DocTypePolicy
two_rows = audit_row ∷ reference_row ∷ []

abbrev ok_or_none : Result PolicyError Policies → Policies
ok_or_none (err e) = []
ok_or_none (ok m) = m

abbrev two_policies : Policies
two_policies = ok_or_none (resolve_doc_type_policies decode decode_chain two_rows)

two_rows-Unique : Unique two_rows
unfolding text_eq
two_rows-Unique = ((refl, tt), (tt, tt))

two_resolve : resolve_doc_type_policies decode decode_chain two_rows ≡ ok two_policies
unfolding resolve_doc_type_policies by_type effective_from_reference resolve_rows resolve_row
    parse_rules must_set overlay set find text_eq
two_resolve = refl

resolve_doc_type_policies-Inherits_example :
    (eff : EffectivePolicy) × (find doc_type_audit two_policies ≡ some eff)
    × Inherits decode decode_chain reference_row audit_row eff
resolve_doc_type_policies-Inherits_example =
    resolve_doc_type_policies-Inherits decode decode_chain two_rows two_policies reference_row
      audit_row two_rows-Unique (Memᴰ.tail (Memᴰ.head refl)) refl (Memᴰ.head refl) two_resolve
