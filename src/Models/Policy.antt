-- ===== src/Models/Policy.antt =====
-- internal/models/doc_type_policy.go: the rules of a document type, a row of which inherits what it does
-- not set from the row of the reference type. An error keeps what its message says besides the decoder's own words.
pub mod Valid
pub mod Rows
pub mod Resolve
use memory_system.Prelude.{
  ℕ, ℤ, pos, negsuc, Text, text, text_eq, Bool, true, false, not, ◌&&◌, ◌||◌, Option, none, some,
  List, [], ◌∷◌, ◌++◌, if◌then◌else◌,
}
use memory_system.Models.Slug.{
  slug_format_any, slug_format_date, slug_format_datetime, slug_format_kebab, doc_type_reference,
  doc_type_project_state, doc_type_audit, doc_type_learning, doc_type_preference, doc_type_tool,
  doc_type_journal, doc_type_handoff, doc_type_prompt,
}

abbrev pub write_mode_replace : Text
write_mode_replace = text "replace"

abbrev pub write_mode_merge_sections : Text
write_mode_merge_sections = text "merge_sections"

abbrev pub write_mode_append_only : Text
write_mode_append_only = text "append_only"

abbrev pub subcategory_optional : Text
subcategory_optional = text "optional"

abbrev pub subcategory_required : Text
subcategory_required = text "required"

abbrev pub subcategory_forbidden : Text
subcategory_forbidden = text "forbidden"

-- `none` is NULL; an empty `rules` is the text of length 0
pub record DocTypePolicy : Type 0 where
  pub doc_type : Text
  pub expiration_age_days : Option ℤ
  pub duplicate_guard : Option Bool
  pub cleanup_scan : Option Bool
  pub lint_stale_check : Option Bool
  pub embed : Option Bool
  pub default_search : Option Bool
  pub prunable : Option Bool
  pub write_mode : Option Text
  pub slug_format : Option Text
  pub subcategory : Option Text
  pub rules : Text

pub record ChainPrevious : Type 0 where
  pub scope : Text
  pub edge_type : Text

pub record EffectivePolicy : Type 0 where
  pub expiration_age_days : ℤ
  pub duplicate_guard : Bool
  pub cleanup_scan : Bool
  pub lint_stale_check : Bool
  pub embed : Bool
  pub default_search : Bool
  pub prunable : Bool
  pub write_mode : Text
  pub slug_format : Text
  pub subcategory : Text
  pub chain_previous : Option ChainPrevious
  pub raw_rules : List (Text × Text)

pub data PolicyError : Type 0 where
  no_reference_row : PolicyError
  reference_must_set : Text → PolicyError
  rules_not_object chain_previous_malformed : PolicyError
  of_doc_type : Text → PolicyError → PolicyError
  invalid_write_mode invalid_slug_format invalid_subcategory : Text → PolicyError
  negative_expiration : ℤ → PolicyError
  search_requires_embed : PolicyError
  guard_requires_replace : Text → PolicyError

-- if the pointer is not nil, what it points to
unfoldable pub overlay {ℓ} : {A : Type ℓ} → Option A → A → A
overlay none base = base
overlay (some a) base = a

abbrev ptr_or_zero : Option ℤ → ℤ
ptr_or_zero o = overlay o (pos 0)

unfoldable pub default_effective_policy : EffectivePolicy
default_effective_policy = record {
  expiration_age_days = pos 30;
  duplicate_guard = true;
  cleanup_scan = true;
  lint_stale_check = true;
  embed = true;
  default_search = true;
  prunable = false;
  write_mode = write_mode_replace;
  slug_format = slug_format_any;
  subcategory = subcategory_optional;
  chain_previous = none;
  raw_rules = [];
}

unfoldable pub one_of_texts : List Text → Text → Bool
unfolding text_eq
one_of_texts [] t = false
one_of_texts (x ∷ xs) t = text_eq x t || one_of_texts xs t

abbrev pub valid_write_modes : List Text
valid_write_modes = write_mode_replace ∷ write_mode_merge_sections ∷ write_mode_append_only ∷ []

abbrev pub valid_slug_formats : List Text
valid_slug_formats =
    slug_format_any ∷ slug_format_date ∷ slug_format_datetime ∷ slug_format_kebab ∷ []

abbrev pub valid_subcategory_rules : List Text
valid_subcategory_rules = subcategory_optional ∷ subcategory_required ∷ subcategory_forbidden ∷ []

unfoldable pub is_negative : ℤ → Bool
is_negative (pos n) = false
is_negative (negsuc n) = true

-- `none` is the nil error
unfoldable pub validate_effective : Text → EffectivePolicy → Option PolicyError
unfolding one_of_texts text_eq is_negative
validate_effective doc_type eff =
    if not (one_of_texts valid_write_modes eff.write_mode)
    then some (of_doc_type doc_type (invalid_write_mode eff.write_mode))
    else if not (one_of_texts valid_slug_formats eff.slug_format)
    then some (of_doc_type doc_type (invalid_slug_format eff.slug_format))
    else if not (one_of_texts valid_subcategory_rules eff.subcategory)
    then some (of_doc_type doc_type (invalid_subcategory eff.subcategory))
    else if is_negative eff.expiration_age_days
    then some (of_doc_type doc_type (negative_expiration eff.expiration_age_days))
    else if eff.default_search && not eff.embed
    then some (of_doc_type doc_type search_requires_embed)
    else if eff.duplicate_guard && not (text_eq eff.write_mode write_mode_replace)
    then some (of_doc_type doc_type (guard_requires_replace eff.write_mode))
    else none

-- a row that sets nothing
abbrev pub unset_row : Text → DocTypePolicy
unset_row t = record {
  doc_type = t;
  expiration_age_days = none;
  duplicate_guard = none;
  cleanup_scan = none;
  lint_stale_check = none;
  embed = none;
  default_search = none;
  prunable = none;
  write_mode = none;
  slug_format = none;
  subcategory = none;
  rules = [];
}
