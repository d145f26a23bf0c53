-- ===== src/Service/ListOptions.antt =====
-- internal/service/list_options.go: the browse parameters, and the escaping of a prefix for LIKE.
pub mod Escape
pub mod Accepted
use memory_system.Prelude.{
  ℕ, ℤ, pos, negsuc, Text, text, text_eq, Bool, true, false, not, ◌&&◌, ◌||◌, ltb, ◌==◌, Option,
  none, some, List, [], ◌∷◌, ◌++◌, if◌then◌else◌, Result, err, ok, ◌>>=◌,
}
use memory_system.Models.Path.{PathError, validate_subcategory_path}

pub record ListOptions : Type 0 where
  pub slug_prefix : Text
  pub subcategory_prefix : Text
  pub order_by : Text
  pub order : Text
  pub limit : ℕ
  pub offset : ℕ

pub data ListError : Type 0 where
  subcategory_refused : PathError → ListError
  invalid_order_by invalid_order : Text → ListError
  negative_limit negative_offset offset_requires_limit : ListError

-- strings.ReplaceAll of a byte by a backslash and the byte
unfoldable pub escape_byte : ℕ → Text → Text
escape_byte c [] = []
escape_byte c (b ∷ t) = let rest = escape_byte c t in if b == c then b'\\' ∷ b ∷ rest else b ∷ rest

unfoldable pub escape_like_prefix : Text → Text
unfolding escape_byte
escape_like_prefix s = escape_byte b'_' (escape_byte b'%' (escape_byte b'\\' s))

unfoldable pub is_order_column : Text → Bool
unfolding text_eq
is_order_column t =
    text_eq t (text "slug")
    || text_eq t (text "created_at")
    || text_eq t (text "updated_at")
    || text_eq t (text "title")

abbrev pub prefix_or_empty : Option Text → Text
prefix_or_empty none = []
prefix_or_empty (some s) = escape_like_prefix s

abbrev refused_or : Text → Option PathError → Result ListError Text
refused_or s none = ok (escape_like_prefix s)
refused_or s (some e) = err (subcategory_refused e)

-- nil or the empty text asks for nothing
unfoldable pub subcategory_option : Option Text → Result ListError Text
subcategory_option none = ok []
subcategory_option (some []) = ok []
subcategory_option (some (b ∷ s)) = refused_or (b ∷ s) (validate_subcategory_path (b ∷ s))

unfoldable pub order_by_option : Option Text → Result ListError Text
order_by_option none = ok []
order_by_option (some []) = ok []
order_by_option (some (b ∷ s)) =
    if is_order_column (b ∷ s) then ok (b ∷ s) else err (invalid_order_by (b ∷ s))

unfoldable pub order_option : Option Text → Result ListError Text
unfolding text_eq
order_option none = ok (text "asc")
order_option (some []) = ok (text "asc")
order_option (some (b ∷ s)) =
    if text_eq (b ∷ s) (text "asc") || text_eq (b ∷ s) (text "desc")
    then ok (b ∷ s)
    else err (invalid_order (b ∷ s))

-- nil leaves the zero value
unfoldable pub count_option : ListError → Option ℤ → Result ListError ℕ
count_option e none = ok 0
count_option e (some (pos n)) = ok n
count_option e (some (negsuc n)) = err e

unfoldable pub validate_list_options :
    Option Text
    → Option Text
    → Option Text
    → Option Text
    → Option ℤ
    → Option ℤ
    → Result ListError ListOptions
unfolding subcategory_option order_by_option order_option count_option
validate_list_options slug_prefix subcategory_prefix order_by order limit offset = do
  sub ← subcategory_option subcategory_prefix
  by ← order_by_option order_by
  direction ← order_option order
  most ← count_option negative_limit limit
  skipped ← count_option negative_offset offset
  (if ltb 0 skipped && (most == 0)
      then err offset_requires_limit
      else ok record {
        slug_prefix = prefix_or_empty slug_prefix;
        subcategory_prefix = sub;
        order_by = by;
        order = direction;
        limit = most;
        offset = skipped;
      })
