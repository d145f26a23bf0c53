-- ===== src/Models/Policy/Resolve.antt =====
-- What the resolution of rows gives: each field is the row's own or, where that is NULL, the reference's.
use memory_system.Prelude.{
  ℤ, pos, ◌≡◌, ◌⊎◌, inl, inr, refl, sym, ap, ◌∙◌, Text, text, text_eq, false, Option, none, some,
  List, [], ◌∷◌, Memᴰ, mem-cons, All, find, set, find-set, find-set_other, Result, err, ok, >>=-ok,
  subst, ok_inj,
}
use memory_system.Models.Slug.{doc_type_reference}
use memory_system.Models.Policy.{
  DocTypePolicy, ChainPrevious, EffectivePolicy, PolicyError, overlay,
}
use memory_system.Models.Policy.Rows.{
  Policies, must_set, by_type, wrap, parse_rules, resolve_row, effective_from_reference,
  resolve_rows, resolve_doc_type_policies,
}

-- No two rows are of one type, which the primary key of the table gives.
abbrev pub Unique : List DocTypePolicy → Type 0
Unique [] = Unit
Unique (r ∷ rows) =
    All (λ (s : DocTypePolicy). text_eq s.doc_type r.doc_type ≡ false) rows × Unique rows

-- The value is the row's own or, where the row has none, the reference's.
abbrev Field {ℓ} : {A : Type ℓ} → Option A → Option A → A → Type ℓ
Field own reference v = (own ≡ some v) ⊎ ((own ≡ none) × (reference ≡ some v))

-- The same with a value for when neither has one.
abbrev FieldOr {ℓ} : {A : Type ℓ} → A → Option A → Option A → A → Type ℓ
FieldOr otherwise own reference v =
    Field own reference v ⊎ ((own ≡ none) × (reference ≡ none) × (v ≡ otherwise))

module _ (unmarshal_object : Text → Option (List (Text × Text)))
    (unmarshal_chain : Text → Option ChainPrevious) where
  abbrev parse : Text → Result PolicyError (List (Text × Text) × Option ChainPrevious)
  parse = parse_rules unmarshal_object unmarshal_chain

  abbrev resolve : List DocTypePolicy → Result PolicyError Policies
  resolve = resolve_doc_type_policies unmarshal_object unmarshal_chain

  -- The policy has the row's fields, and the reference's where the row has none; its rules are the row's.
  abbrev pub Inherits : DocTypePolicy → DocTypePolicy → EffectivePolicy → Type 0
  Inherits ref r eff =
      FieldOr (pos 0) r.expiration_age_days ref.expiration_age_days eff.expiration_age_days
      × Field r.duplicate_guard ref.duplicate_guard eff.duplicate_guard
      × Field r.cleanup_scan ref.cleanup_scan eff.cleanup_scan
      × Field r.lint_stale_check ref.lint_stale_check eff.lint_stale_check
      × Field r.embed ref.embed eff.embed
      × Field r.default_search ref.default_search eff.default_search
      × Field r.prunable ref.prunable eff.prunable
      × Field r.write_mode ref.write_mode eff.write_mode
      × Field r.slug_format ref.slug_format eff.slug_format
      × Field r.subcategory ref.subcategory eff.subcategory
      × (parse r.rules ≡ ok (eff.raw_rules, eff.chain_previous))

  -- The base has what the reference row sets.
  abbrev Base : DocTypePolicy → EffectivePolicy → Type 0
  Base ref base =
      (base.expiration_age_days ≡ overlay ref.expiration_age_days (pos 0))
      × (ref.duplicate_guard ≡ some base.duplicate_guard)
      × (ref.cleanup_scan ≡ some base.cleanup_scan)
      × (ref.lint_stale_check ≡ some base.lint_stale_check)
      × (ref.embed ≡ some base.embed)
      × (ref.default_search ≡ some base.default_search)
      × (ref.prunable ≡ some base.prunable)
      × (ref.write_mode ≡ some base.write_mode)
      × (ref.slug_format ≡ some base.slug_format)
      × (ref.subcategory ≡ some base.subcategory)

  own_or {ℓ} :
      {A : Type ℓ} (own ref : Option A) (base : A)
      → ref ≡ some base
      → Field own ref (overlay own base)
  unfolding overlay
  own_or none ref base h = inr (refl, h)
  own_or (some a) ref base h = inl refl

  own_or_zero :
      (own ref : Option ℤ) (base : ℤ)
      → base ≡ overlay ref (pos 0)
      → FieldOr (pos 0) own ref (overlay own base)
  unfolding overlay
  own_or_zero none none base h = inr (refl, refl, h)
  own_or_zero none (some x) base h = inl (inr (refl, ap some (sym h)))
  own_or_zero (some a) ref base h = inl (inl refl)

  resolve_row-Inherits :
      (ref r : DocTypePolicy) (base eff : EffectivePolicy)
      → Base ref base
      → resolve_row unmarshal_object unmarshal_chain r base ≡ ok eff
      → Inherits ref r eff
  unfolding resolve_row
  resolve_row-Inherits ref r base eff b h =
      let (rules, parsed, e) = >>=-ok (parse r.rules) _ eff h in
      subst (Inherits ref r) (ok_inj e) (
        own_or_zero r.expiration_age_days ref.expiration_age_days base.expiration_age_days b.0,
        own_or r.duplicate_guard ref.duplicate_guard base.duplicate_guard b.1,
        own_or r.cleanup_scan ref.cleanup_scan base.cleanup_scan b.2,
        own_or r.lint_stale_check ref.lint_stale_check base.lint_stale_check b.3,
        own_or r.embed ref.embed base.embed b.4,
        own_or r.default_search ref.default_search base.default_search b.5,
        own_or r.prunable ref.prunable base.prunable b.6,
        own_or r.write_mode ref.write_mode base.write_mode b.7,
        own_or r.slug_format ref.slug_format base.slug_format b.8,
        own_or r.subcategory ref.subcategory base.subcategory b.9,
        parsed,
      )

  must_set-ok :
      {A : Type 0} (field : Text) (o : Option A) (a : A) → must_set field o ≡ ok a → o ≡ some a
  unfolding must_set
  must_set-ok field none a h = cc
  must_set-ok field (some b) a h = ap some (ok_inj h)

  overlay-some : {A : Type 0} (o : Option A) (a : A) → o ≡ some a → overlay o a ≡ a
  unfolding overlay
  overlay-some none a h = refl
  overlay-some (some b) a h = cc

  overlay-twice : {A : Type 0} (o : Option A) (a : A) → overlay o (overlay o a) ≡ overlay o a
  unfolding overlay
  overlay-twice none a = refl
  overlay-twice (some b) a = refl

  set_to :
      {A : Type 0} (f : Text) (o : Option A) (a : A) → must_set f o ≡ ok a → o ≡ some (overlay o a)
  set_to f o a q = let k = must_set-ok f o a q in k ∙ ap some (sym (overlay-some o a k))

  reference-Base :
      (ref : DocTypePolicy) (base : EffectivePolicy)
      → effective_from_reference unmarshal_object unmarshal_chain ref ≡ ok base
      → Base ref base
  unfolding effective_from_reference resolve_row
  reference-Base ref base h =
      let (guard, h1, k1) =
        >>=-ok (must_set (text "duplicate_guard") ref.duplicate_guard) _ base h in
      let (scan, h2, k2) = >>=-ok (must_set (text "cleanup_scan") ref.cleanup_scan) _ base k1 in
      let (lint, h3, k3) =
        >>=-ok (must_set (text "lint_stale_check") ref.lint_stale_check) _ base k2 in
      let (emb, h4, k4) = >>=-ok (must_set (text "embed") ref.embed) _ base k3 in
      let (search, h5, k5) =
        >>=-ok (must_set (text "default_search") ref.default_search) _ base k4 in
      let (prune, h6, k6) = >>=-ok (must_set (text "prunable") ref.prunable) _ base k5 in
      let (mode, h7, k7) = >>=-ok (must_set (text "write_mode") ref.write_mode) _ base k6 in
      let (format, h8, k8) = >>=-ok (must_set (text "slug_format") ref.slug_format) _ base k7 in
      let (sub, h9, k9) = >>=-ok (must_set (text "subcategory") ref.subcategory) _ base k8 in
      let (rules, parsed, e) = >>=-ok (parse ref.rules) _ base k9 in
      subst (Base ref) (ok_inj e) (
        overlay-twice ref.expiration_age_days (pos 0),
        set_to _ ref.duplicate_guard guard h1,
        set_to _ ref.cleanup_scan scan h2,
        set_to _ ref.lint_stale_check lint h3,
        set_to _ ref.embed emb h4,
        set_to _ ref.default_search search h5,
        set_to _ ref.prunable prune h6,
        set_to _ ref.write_mode mode h7,
        set_to _ ref.slug_format format h8,
        set_to _ ref.subcategory sub h9,
      )

  -- The resolution of the rows leaves the entries of other types, and gives each row its own.
  resolve_rows-other :
      (k : Text) (rows : List DocTypePolicy) (base : EffectivePolicy) (out0 out : Policies)
      → All (λ (s : DocTypePolicy). text_eq s.doc_type k ≡ false) rows
      → resolve_rows unmarshal_object unmarshal_chain rows base out0 ≡ ok out
      → find k out ≡ find k out0
  unfolding resolve_rows
  resolve_rows-other k [] base out0 out n h = ap (find k) (sym (ok_inj h))
  resolve_rows-other k (r ∷ rows) base out0 out n h =
      let (eff, one, rest) =
        >>=-ok (wrap r.doc_type (resolve_row unmarshal_object unmarshal_chain r base)) _ out h in
      resolve_rows-other k rows base (set r.doc_type eff out0) out n.1 rest
      ∙ find-set_other k r.doc_type eff out0 n.0

  wrap-ok : {A : Type 0} (t : Text) (m : Result PolicyError A) (a : A) → wrap t m ≡ ok a → m ≡ ok a
  wrap-ok t (err e) a h = cc
  wrap-ok t (ok b) a h = h

  resolve_rows-find :
      (r : DocTypePolicy) (rows : List DocTypePolicy) (base : EffectivePolicy) (out0 out : Policies)
      → Unique rows
      → Memᴰ r rows
      → resolve_rows unmarshal_object unmarshal_chain rows base out0 ≡ ok out
      → (eff : EffectivePolicy) × (find r.doc_type out ≡ some eff)
        × (resolve_row unmarshal_object unmarshal_chain r base ≡ ok eff)
  unfolding resolve_rows
  resolve_rows-find r [] base out0 out u i h = elim i [ ]
  resolve_rows-find r (s ∷ rows) base out0 out u i h =
      let (eff, one, rest) =
        >>=-ok (wrap s.doc_type (resolve_row unmarshal_object unmarshal_chain s base)) _ out h in
      elim (mem-cons i) [
        | inl e ↦
            subst
              (λ (q : DocTypePolicy).
                (eff : EffectivePolicy) × (find q.doc_type out ≡ some eff)
                × (resolve_row unmarshal_object unmarshal_chain q base ≡ ok eff))
              (sym e)
              (
                eff,
                resolve_rows-other s.doc_type rows base (set s.doc_type eff out0) out u.0 rest
                    ∙ find-set s.doc_type eff out0,
                wrap-ok s.doc_type _ eff one,
              )
        | inr j ↦ resolve_rows-find r rows base (set s.doc_type eff out0) out u.1 j rest
      ]

  by_type-other :
      (k : Text) (rows : List DocTypePolicy) (m : List (Text × DocTypePolicy))
      → All (λ (s : DocTypePolicy). text_eq s.doc_type k ≡ false) rows
      → find k (by_type rows m) ≡ find k m
  unfolding by_type
  by_type-other k [] m n = refl
  by_type-other k (r ∷ rows) m n =
      by_type-other k rows (set r.doc_type r m) n.1 ∙ find-set_other k r.doc_type r m n.0

  by_type-find :
      (r : DocTypePolicy) (rows : List DocTypePolicy) (m : List (Text × DocTypePolicy))
      → Unique rows
      → Memᴰ r rows
      → find r.doc_type (by_type rows m) ≡ some r
  unfolding by_type
  by_type-find r [] m u i = elim i [ ]
  by_type-find r (s ∷ rows) m u i = elim (mem-cons i) [
    | inl e ↦
        subst (λ (q : DocTypePolicy). find q.doc_type (by_type rows (set s.doc_type s m)) ≡ some q)
          (sym e) (by_type-other s.doc_type rows (set s.doc_type s m) u.0 ∙ find-set s.doc_type s m)
    | inr j ↦ by_type-find r rows (set s.doc_type s m) u.1 j
  ]

-- Where rows of which no two are of one type, one of them the reference row, resolve: each row's type has
-- a policy in which every field is the row's own or, where that is NULL, the reference row's, and the
-- rules are the row's; the expiration, which the reference may leave NULL, is then 0.
pub resolve_doc_type_policies-Inherits :
    (unmarshal_object : Text → Option (List (Text × Text)))
    (unmarshal_chain : Text → Option ChainPrevious) (rows : List DocTypePolicy) (out : Policies)
    (ref r : DocTypePolicy)
    → Unique rows
    → Memᴰ ref rows
    → ref.doc_type ≡ doc_type_reference
    → Memᴰ r rows
    → resolve_doc_type_policies unmarshal_object unmarshal_chain rows ≡ ok out
    → (eff : EffectivePolicy) × (find r.doc_type out ≡ some eff)
      × Inherits unmarshal_object unmarshal_chain ref r eff
unfolding resolve_doc_type_policies
resolve_doc_type_policies-Inherits uo uc rows out ref r u i t j h =
    let found : find doc_type_reference (by_type rows []) ≡ some ref =
      subst (λ k. find k (by_type rows []) ≡ some ref) t (by_type-find uo uc ref rows [] u i) in
    let k = rw (found, resolve_doc_type_policies) at h in
    let (base, e, rest) = >>=-ok (effective_from_reference uo uc ref) _ out k in
    let (eff, f, one) = resolve_rows-find uo uc r rows base [] out u j rest in
    (eff, f, resolve_row-Inherits uo uc ref r base eff (reference-Base uo uc ref base e) one)
