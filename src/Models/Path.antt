-- ===== src/Models/Path.antt =====
-- internal/models/validation.go, and the paths of internal/models/document.go.
pub mod RoundTrip
pub mod Valid
use memory_system.Prelude.{
  ℕ, Text, text, ltb, leb, ◌==◌, Bool, true, false, ◌&&◌, ◌||◌, Option, none, some, List, [], ◌∷◌,
  ◌++◌, length, if◌then◌else◌, text_eq, split, join, trim,
}

abbrev pub max_category_len : ℕ
max_category_len = 50

abbrev pub max_subcategory_len : ℕ
max_subcategory_len = 100

abbrev pub max_slug_len : ℕ
max_slug_len = 100

pub data PathError : Type 0 where
  category_too_long slug_too_long subcategory_too_long : PathError
  category_invalid : Text → PathError
  slug_invalid : Text → PathError
  subcategory_invalid : Text → Text → PathError

abbrev pub between : ℕ → ℕ → ℕ → Bool
between lo hi b = leb lo b && leb b hi

-- [a-zA-Z0-9]
unfoldable pub is_alnum : ℕ → Bool
is_alnum b = between b'a' b'z' b || (between b'A' b'Z' b || between b'0' b'9' b)

-- [a-zA-Z0-9._-]
unfoldable pub is_segment_byte : ℕ → Bool
unfolding is_alnum
is_segment_byte b = is_alnum b || (b == b'.' || (b == b'_' || b == b'-'))

unfoldable pub all_bytes : (ℕ → Bool) → Text → Bool
all_bytes p [] = true
all_bytes p (b ∷ t) = p b && all_bytes p t

-- ^[a-zA-Z0-9][a-zA-Z0-9._-]*$
unfoldable pub valid_path_segment : Text → Bool
unfolding is_alnum is_segment_byte all_bytes
valid_path_segment [] = false
valid_path_segment (b ∷ t) = is_alnum b && all_bytes is_segment_byte t

-- the loop over the segments, which returns at the first bad one
unfoldable pub first_bad_segment : Text → List Text → Option PathError
unfolding valid_path_segment
first_bad_segment subcategory [] = none
first_bad_segment subcategory (seg ∷ segs) =
    let rest = first_bad_segment subcategory segs in
    if valid_path_segment seg then rest else some (subcategory_invalid subcategory seg)

-- `none` is the nil error
unfoldable pub validate_subcategory_path : Text → Option PathError
unfolding first_bad_segment split
validate_subcategory_path subcategory =
    if ltb max_subcategory_len (length subcategory)
    then some subcategory_too_long
    else first_bad_segment subcategory (split b'/' subcategory)

abbrev validate_optional_subcategory : Option Text → Option PathError
validate_optional_subcategory none = none
validate_optional_subcategory (some s) = validate_subcategory_path s

unfoldable pub validate_document_path : Text → Text → Option Text → Option PathError
unfolding valid_path_segment validate_subcategory_path
validate_document_path category slug subcategory =
    if ltb max_category_len (length category)
    then some category_too_long
    else if valid_path_segment category
    then (if ltb max_slug_len (length slug)
        then some slug_too_long
        else if valid_path_segment slug
        then validate_optional_subcategory subcategory
        else some (slug_invalid slug))
    else some (category_invalid category)

unfoldable pub build_path : Text → Option Text → Text → Text
build_path category (some subcategory) slug = category ++ (b'/' ∷ subcategory ++ (b'/' ∷ slug))
build_path category none slug = category ++ (b'/' ∷ slug)

pub record ParsedPath : Type 0 where
  pub category : Text
  pub subcategory : Option Text
  pub slug : Text

-- parts[len(parts)-1], of a part and those behind it
unfoldable pub last_part : Text → List Text → Text
last_part x [] = x
last_part x (y ∷ ys) = last_part y ys

-- parts[:len(parts)-1]
unfoldable pub but_last : Text → List Text → List Text
but_last x [] = []
but_last x (y ∷ ys) = x ∷ but_last y ys

unfoldable pub of_parts : List Text → ParsedPath
unfolding last_part but_last join
of_parts [] = record { category = text "misc"; subcategory = none; slug = [] }
of_parts (a ∷ []) = record { category = text "misc"; subcategory = none; slug = a }
of_parts (a ∷ b ∷ []) = record { category = a; subcategory = none; slug = b }
of_parts (a ∷ b ∷ c ∷ []) = record { category = a; subcategory = some b; slug = c }
of_parts (a ∷ b ∷ c ∷ d ∷ rest) = record {
  category = a;
  subcategory = some (join b'/' (but_last b (c ∷ d ∷ rest)));
  slug = last_part b (c ∷ d ∷ rest);
}

unfoldable pub parse_path : Text → ParsedPath
unfolding of_parts trim split
parse_path path =
    let t = trim b'/' path in
    if text_eq t []
    then record { category = text "misc"; subcategory = none; slug = t }
    else of_parts (split b'/' t)
