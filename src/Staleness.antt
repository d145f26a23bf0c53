-- ===== src/Staleness.antt =====
-- internal/staleness/staleness.go, the store of effective policies, and the policy operations of
-- internal/service/write_path.go. The table of rows is the database's; `snap` is the snapshot behind the
-- atomic pointer. The JSON decoder is a parameter, as it is for the resolution, and so is which of the
-- database's calls fail.
pub mod Valid
pub mod Patch
mod Tests
use memory_system.Prelude.{
  ℕ, ℤ, pos, Text, text, text_eq, Bool, true, false, not, ◌&&◌, ◌||◌, Option, none, some, List, [],
  ◌∷◌, ◌++◌, if◌then◌else◌, find, Result, err, ok,
}
use memory_system.Models.Slug.{doc_type_reference, valid_doc_types}
use memory_system.Models.Policy.{
  DocTypePolicy, ChainPrevious, EffectivePolicy, PolicyError, default_effective_policy,
  validate_effective, one_of_texts, unset_row, overlay,
}
use memory_system.Models.Policy.Rows.{
  Policies, resolve_doc_type_policies, default_doc_type_policies,
}

pub record PolicyStore : Type 0 where
  pub table : List DocTypePolicy
  pub snap : Policies

-- the calls of the database that may fail
pub data Call : Type 0 where
  reading upserting reloading : Call

pub data StoreError : Type 0 where
  database_failed : Call → StoreError
  refused : PolicyError → StoreError
  not_admin store_unavailable : StoreError
  unknown_doc_type : Text → StoreError

-- the zero value of the struct, which a map gives for a missing key
abbrev pub zero_policy : EffectivePolicy
zero_policy = record {
  expiration_age_days = pos 0;
  duplicate_guard = false;
  cleanup_scan = false;
  lint_stale_check = false;
  embed = false;
  default_search = false;
  prunable = false;
  write_mode = [];
  slug_format = [];
  subcategory = [];
  chain_previous = none;
  raw_rules = [];
}

abbrev found_or {ℓ} : {A : Type ℓ} → Option A → A → A
found_or none a = a
found_or (some b) a = b

unfoldable pub effective_for : PolicyStore → Text → EffectivePolicy
unfolding find
effective_for s doc_type =
    found_or (find doc_type s.snap) (found_or (find doc_type_reference s.snap) zero_policy)

-- thresholds, the service's pointer to its store, may be nil
unfoldable pub policy_for : Option PolicyStore → Text → EffectivePolicy
unfolding effective_for default_effective_policy text_eq
policy_for none doc_type = default_effective_policy
policy_for (some s) doc_type =
    if text_eq (effective_for s doc_type).write_mode []
    then default_effective_policy
    else effective_for s doc_type

-- the loop that returns the first error
unfoldable pub validate_all : Policies → Option PolicyError
validate_all [] = none
validate_all ((t, p) ∷ m) = elim (validate_effective t p) [
  | none ↦ validate_all m
  | some e ↦ some e
]

-- row.Rules of length 0 becomes {}
abbrev pub with_rules : DocTypePolicy → DocTypePolicy
with_rules row = record row { rules = if text_eq row.rules [] then text "{}" else row.rules }

-- ON CONFLICT (doc_type) DO UPDATE of every column
unfoldable pub upsert_row : DocTypePolicy → List DocTypePolicy → List DocTypePolicy
unfolding text_eq
upsert_row row [] = row ∷ []
upsert_row row (r ∷ rows) =
    let rest = upsert_row row rows in
    if text_eq r.doc_type row.doc_type then row ∷ rows else r ∷ rest

-- the row of the type, or a fresh one
unfoldable pub row_for : Text → List DocTypePolicy → DocTypePolicy
unfolding text_eq
row_for t [] = unset_row t
row_for t (r ∷ rows) = let rest = row_for t rows in if text_eq r.doc_type t then r else rest

-- a field of the patch that is not nil
abbrev pub patched {ℓ} : {A : Type ℓ} → Option A → Option A → Option A
patched none base = base
patched (some a) base = some a

unfoldable pub apply_policy_patch : DocTypePolicy → DocTypePolicy → DocTypePolicy
unfolding text_eq
apply_policy_patch base p = record {
  doc_type = base.doc_type;
  expiration_age_days = patched p.expiration_age_days base.expiration_age_days;
  duplicate_guard = patched p.duplicate_guard base.duplicate_guard;
  cleanup_scan = patched p.cleanup_scan base.cleanup_scan;
  lint_stale_check = patched p.lint_stale_check base.lint_stale_check;
  embed = patched p.embed base.embed;
  default_search = patched p.default_search base.default_search;
  prunable = patched p.prunable base.prunable;
  write_mode = patched p.write_mode base.write_mode;
  slug_format = patched p.slug_format base.slug_format;
  subcategory = patched p.subcategory base.subcategory;
  rules = if text_eq p.rules [] then base.rules else p.rules;
}

-- the loop over the rows, and the append of a row that replaced none
unfoldable pub replace_rows : DocTypePolicy → List DocTypePolicy → List DocTypePolicy
unfolding text_eq
replace_rows row [] = []
replace_rows row (r ∷ rows) =
    let rest = replace_rows row rows in (if text_eq r.doc_type row.doc_type then row else r) ∷ rest

unfoldable pub has_row : Text → List DocTypePolicy → Bool
unfolding text_eq
has_row t [] = false
has_row t (r ∷ rows) = text_eq r.doc_type t || has_row t rows

unfoldable pub merged_rows : DocTypePolicy → List DocTypePolicy → List DocTypePolicy
unfolding replace_rows has_row
merged_rows row rows =
    if has_row row.doc_type rows then replace_rows row rows else replace_rows row rows ++ (row ∷ [])

module _ (unmarshal_object : Text → Option (List (Text × Text)))
    (unmarshal_chain : Text → Option ChainPrevious) (fails : Call → Bool) where
  abbrev resolve : List DocTypePolicy → Result PolicyError Policies
  resolve = resolve_doc_type_policies unmarshal_object unmarshal_chain

  -- a snapshot that resolves and validates, or the error
  unfoldable pub checked : List DocTypePolicy → Result PolicyError Policies
  unfolding validate_all
  checked rows = elim (resolve rows) [
    | err e ↦ err e
    | ok eff ↦ elim (validate_all eff) [ none ↦ ok eff | some e ↦ err e ]
  ]

  unfoldable pub load : Call → PolicyStore → PolicyStore × Option StoreError
  unfolding checked
  load call s = if fails call then (s, some (database_failed call)) else elim (checked s.table) [
    | err e ↦ (s, some (refused e))
    | ok eff ↦ (record s { snap = eff }, none)
  ]

  unfoldable pub upsert : DocTypePolicy → PolicyStore → PolicyStore × Option StoreError
  unfolding upsert_row
  upsert row s =
      if fails upserting
      then (s, some (database_failed upserting))
      else (record s { table = upsert_row (with_rules row) s.table }, none)

  abbrev then_load : PolicyStore × Option StoreError → PolicyStore × Option StoreError
  then_load (s, some e) = (s, some e)
  then_load (s, none) = load reloading s

  -- the checks of the patched table, and the write
  unfoldable pub persist : DocTypePolicy → PolicyStore → PolicyStore × Option StoreError
  unfolding checked merged_rows upsert load
  persist row s = elim (checked (merged_rows row s.table)) [
    | err e ↦ (s, some (refused e))
    | ok eff ↦ then_load (upsert row s)
  ]

  unfoldable pub set_doc_type_policy :
      Bool → DocTypePolicy → Option PolicyStore → Option PolicyStore × Option StoreError
  unfolding one_of_texts text_eq row_for apply_policy_patch persist
  set_doc_type_policy is_admin patch none =
      (none, some (if is_admin then store_unavailable else not_admin))
  set_doc_type_policy is_admin patch (some s) =
      if not is_admin
      then (some s, some not_admin)
      else if not (one_of_texts valid_doc_types patch.doc_type)
      then (some s, some (unknown_doc_type patch.doc_type))
      else if fails reading
      then (some s, some (database_failed reading))
      else (let r = persist (apply_policy_patch (row_for patch.doc_type s.table) patch) s in
          (some r.0, r.1))

  -- DefaultEffectivePolicies; the panic on an error is the empty map, which no theorem below reaches
  unfoldable pub default_effective_policies : Policies
  unfolding resolve_doc_type_policies
  default_effective_policies = elim (resolve default_doc_type_policies) [
    | err e ↦ []
    | ok eff ↦ eff
  ]

  unfoldable pub new_policy_store : List DocTypePolicy → PolicyStore
  new_policy_store table = record { table = table; snap = default_effective_policies }
