-- ===== src/Models/Path/Valid.antt =====
-- What the validation of a document's path accepts.
use memory_system.Prelude.{
  ℕ, ◌≤◌, ◌≡◌, ◌↔◌, ◌⊎◌, refl, Text, true, Option, none, some, List, [], ◌∷◌, length, All, arith,
  split,
}
use memory_system.Models.Path.{
  is_alnum, is_segment_byte, all_bytes, valid_path_segment, first_bad_segment,
  validate_subcategory_path, validate_document_path,
}

abbrev pub Between : ℕ → ℕ → ℕ → Type 0
Between lo hi b = (lo ≤ b) × (b ≤ hi)

abbrev pub Alnum : ℕ → Type 0
Alnum b = Between b'a' b'z' b ⊎ Between b'A' b'Z' b ⊎ Between b'0' b'9' b

abbrev pub SegmentByte : ℕ → Type 0
SegmentByte b = Alnum b ⊎ (b ≡ b'.') ⊎ (b ≡ b'_') ⊎ (b ≡ b'-')

-- A letter or a digit, then letters, digits, dots, underscores and dashes.
abbrev pub Segment : Text → Type 0
Segment [] = ⊥
Segment (b ∷ t) = Alnum b × All SegmentByte t

is_alnum_iff : (b : ℕ) → (is_alnum b ≡ true) ↔ Alnum b
unfolding is_alnum
is_alnum_iff b = ground arith

is_segment_byte_iff : (b : ℕ) → (is_segment_byte b ≡ true) ↔ SegmentByte b
unfolding is_segment_byte
is_segment_byte_iff b = ground (arith, is_alnum_iff b)

all_bytes_iff : (t : Text) → (all_bytes is_segment_byte t ≡ true) ↔ All SegmentByte t
unfolding all_bytes
all_bytes_iff [] = ground arith
all_bytes_iff (b ∷ t) = ground (arith, is_segment_byte_iff b, all_bytes_iff t)

pub Segment-iff : (t : Text) → (valid_path_segment t ≡ true) ↔ Segment t
unfolding valid_path_segment
Segment-iff [] = (λ e. cc, λ h. absurd h)
Segment-iff (b ∷ t) = ground (arith, is_alnum_iff b, all_bytes_iff t)

-- Every segment between the slashes is one.
abbrev pub Segments : Text → Type 0
Segments t = All Segment (split b'/' t)

first_bad_segment_iff :
    (s : Text) (segs : List Text) → (first_bad_segment s segs ≡ none) ↔ All Segment segs
unfolding first_bad_segment
first_bad_segment_iff s [] = (λ e. tt, λ h. refl)
first_bad_segment_iff s (seg ∷ segs) = ground (arith, Segment-iff seg, first_bad_segment_iff s segs)

abbrev pub OptionalSubcategory : Option Text → Type 0
OptionalSubcategory none = Unit
OptionalSubcategory (some s) = (length s ≤ 100) × Segments s

-- A subcategory is accepted exactly when it is at most 100 bytes long and every segment between its
-- slashes is a path segment; so no segment is empty.
pub validate_subcategory_path_iff :
    (s : Text) → (validate_subcategory_path s ≡ none) ↔ ((length s ≤ 100) × Segments s)
unfolding validate_subcategory_path
validate_subcategory_path_iff s = ground (arith, first_bad_segment_iff s (split b'/' s))

-- A document's path is accepted exactly when the category is a segment of at most 50 bytes, the slug
-- one of at most 100, and the subcategory, if there is one, is accepted too.
pub validate_document_path_iff :
    (category slug : Text) (subcategory : Option Text)
    → (validate_document_path category slug subcategory ≡ none) ↔ (
        (length category ≤ 50)
        × Segment category
        × (length slug ≤ 100)
        × Segment slug
        × OptionalSubcategory subcategory)
unfolding validate_document_path
validate_document_path_iff category slug none =
    ground (arith, Segment-iff category, Segment-iff slug)
validate_document_path_iff category slug (some s) =
    ground (arith, Segment-iff category, Segment-iff slug, validate_subcategory_path_iff s)
