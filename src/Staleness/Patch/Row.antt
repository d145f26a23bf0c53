-- ===== src/Staleness/Patch/Row.antt =====
-- A patch laid over a row, and the row of a type after an upsert.
use memory_system.Prelude.{
  text, if◌then◌else◌, ◌≡◌, ◌≢◌, ◌⊎◌, inl, inr, refl, sym, subst, Text, text_eq, eq_iff, eq_refl,
  false, Option, none, some, List, [], ◌∷◌, Bool-cases,
}
use memory_system.Models.Policy.{DocTypePolicy}
use memory_system.Staleness.{with_rules, patched, upsert_row, row_for, apply_policy_patch}

-- A field of the patch that is set replaces the old one; one that is not leaves it.
abbrev pub LaidOver {ℓ} : {A : Type ℓ} → Option A → Option A → Option A → Type ℓ
LaidOver p old new = ((p ≡ none) × (new ≡ old)) ⊎ ((p ≢ none) × (new ≡ p))

-- The same of the rules, which are set where they are not empty; empty ones are stored as {}.
abbrev pub RulesLaidOver : Text → Text → Text → Type 0
RulesLaidOver p old new =
    ((p ≢ []) × (new ≡ p))
    ⊎ ((p ≡ []) × (old ≢ []) × (new ≡ old))
    ⊎ ((p ≡ []) × (old ≡ []) × (new ≡ text "{}"))

abbrev pub RowLaidOver : DocTypePolicy → DocTypePolicy → DocTypePolicy → Type 0
RowLaidOver patch old new =
    (new.doc_type ≡ old.doc_type)
    × LaidOver patch.expiration_age_days old.expiration_age_days new.expiration_age_days
    × LaidOver patch.duplicate_guard old.duplicate_guard new.duplicate_guard
    × LaidOver patch.cleanup_scan old.cleanup_scan new.cleanup_scan
    × LaidOver patch.lint_stale_check old.lint_stale_check new.lint_stale_check
    × LaidOver patch.embed old.embed new.embed
    × LaidOver patch.default_search old.default_search new.default_search
    × LaidOver patch.prunable old.prunable new.prunable
    × LaidOver patch.write_mode old.write_mode new.write_mode
    × LaidOver patch.slug_format old.slug_format new.slug_format
    × LaidOver patch.subcategory old.subcategory new.subcategory
    × RulesLaidOver patch.rules old.rules new.rules

patched-LaidOver {ℓ} : {A : Type ℓ} (p old : Option A) → LaidOver p old (patched p old)
patched-LaidOver none old = inl (refl, refl)
patched-LaidOver (some a) old = inr (λ e. cc, refl)

rules-LaidOver :
    (p old : Text)
    → RulesLaidOver p old (
        if text_eq (if text_eq p [] then old else p) []
        then text "{}"
        else (if text_eq p [] then old else p))
unfolding text_eq
rules-LaidOver [] [] = inr (inr (refl, refl, refl))
rules-LaidOver [] (b ∷ old) = inr (inl (refl, (λ e. cc), refl))
rules-LaidOver (b ∷ p) old = inl ((λ e. cc), refl)

pub apply_policy_patch-RowLaidOver :
    (patch old : DocTypePolicy) → RowLaidOver patch old (with_rules (apply_policy_patch old patch))
unfolding apply_policy_patch
apply_policy_patch-RowLaidOver patch old = (
  refl,
  patched-LaidOver patch.expiration_age_days old.expiration_age_days,
  patched-LaidOver patch.duplicate_guard old.duplicate_guard,
  patched-LaidOver patch.cleanup_scan old.cleanup_scan,
  patched-LaidOver patch.lint_stale_check old.lint_stale_check,
  patched-LaidOver patch.embed old.embed,
  patched-LaidOver patch.default_search old.default_search,
  patched-LaidOver patch.prunable old.prunable,
  patched-LaidOver patch.write_mode old.write_mode,
  patched-LaidOver patch.slug_format old.slug_format,
  patched-LaidOver patch.subcategory old.subcategory,
  rules-LaidOver patch.rules old.rules,
)

pub row_for-doc_type : (t : Text) (rows : List DocTypePolicy) → (row_for t rows).doc_type ≡ t
unfolding row_for
row_for-doc_type t [] = refl
row_for-doc_type t (r ∷ rows) = elim (Bool-cases (text_eq r.doc_type t)) [
  | inl e ↦ rw e ((eq_iff r.doc_type t).0 e)
  | inr e ↦ rw e (row_for-doc_type t rows)
]

pub row_for-upsert_row :
    (row : DocTypePolicy) (rows : List DocTypePolicy)
    → row_for row.doc_type (upsert_row row rows) ≡ row
unfolding row_for upsert_row
row_for-upsert_row row [] = rw (eq_refl row.doc_type) refl
row_for-upsert_row row (r ∷ rows) = elim (Bool-cases (text_eq r.doc_type row.doc_type)) [
  | inl e ↦ rw (e, eq_refl row.doc_type) refl
  | inr e ↦ rw (e, e) (row_for-upsert_row row rows)
]

pub row_for-upsert_row_other :
    (k : Text) (row : DocTypePolicy) (rows : List DocTypePolicy)
    → text_eq row.doc_type k ≡ false
    → row_for k (upsert_row row rows) ≡ row_for k rows
unfolding row_for upsert_row
row_for-upsert_row_other k row [] n = rw n refl
row_for-upsert_row_other k row (r ∷ rows) n = elim (Bool-cases (text_eq r.doc_type row.doc_type)) [
  | inl e ↦
      let other : text_eq r.doc_type k ≡ false =
        subst (λ j. text_eq j k ≡ false) (sym ((eq_iff r.doc_type row.doc_type).0 e)) n in
      rw (e, n, other) refl
  | inr e ↦ rw e (elim (Bool-cases (text_eq r.doc_type k)) [
    | inl f ↦ rw f refl
    | inr f ↦ rw f (row_for-upsert_row_other k row rows n)
  ])
]
