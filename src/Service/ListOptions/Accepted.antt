-- ===== src/Service/ListOptions/Accepted.antt =====
-- What the browse parameters are once they are accepted.
use memory_system.Prelude.{ℕ, ℤ, pos, ◌<◌, ◌≡◌, ◌⊎◌, Text, text, true, Option, none, some, [], ◌∷◌}
use memory_system.Models.Path.{validate_subcategory_path}
use memory_system.Service.ListOptions.{
  ListOptions, escape_like_prefix, prefix_or_empty, is_order_column,
}

-- A parameter that is nil or empty leaves the default; any other is taken as it is, and satisfies P.
abbrev Taken : (Text → Type 0) → Text → Option Text → Text → Type 0
Taken P otherwise none v = v ≡ otherwise
Taken P otherwise (some []) v = v ≡ otherwise
Taken P otherwise (some (b ∷ s)) v = P (b ∷ s) × (v ≡ b ∷ s)

abbrev Counted : Option ℤ → ℕ → Type 0
Counted none n = n ≡ 0
Counted (some z) n = z ≡ pos n

abbrev Prefixed : Option Text → Text → Type 0
Prefixed none v = v ≡ []
Prefixed (some []) v = v ≡ []
Prefixed (some (b ∷ s)) v =
    (validate_subcategory_path (b ∷ s) ≡ none) × (v ≡ escape_like_prefix (b ∷ s))

abbrev Direction : Text → Type 0
Direction t = (t ≡ text "asc") ⊎ (t ≡ text "desc")

-- What each field of accepted options is.
abbrev pub Accepted :
    Option Text
    → Option Text
    → Option Text
    → Option Text
    → Option ℤ
    → Option ℤ
    → ListOptions
    → Type 0
Accepted slug_prefix subcategory_prefix order_by order limit offset o =
    (o.slug_prefix ≡ prefix_or_empty slug_prefix)
    × Prefixed subcategory_prefix o.subcategory_prefix
    × Taken (λ t. is_order_column t ≡ true) [] order_by o.order_by
    × Taken Direction (text "asc") order o.order
    × Counted limit o.limit
    × Counted offset o.offset
    × (0 < o.offset → 0 < o.limit)
