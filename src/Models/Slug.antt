-- ===== src/Models/Slug.antt =====
-- The slug formats of internal/models/doc_type_policy.go, the document types of
-- internal/models/document.go, and the classification of internal/models/staleness.go. A regular
-- expression is a matcher over bytes.
pub mod Kebab
pub mod Fold
use memory_system.Prelude.{
  ℕ, Text, text, ltb, leb, ◌==◌, ◌+◌, Bool, true, false, not, ◌&&◌, ◌||◌, Option, none, some, List,
  [], ◌∷◌, length, if◌then◌else◌, text_eq,
}

-- One byte of a pattern: \d, a fixed byte, or one of two.
pub data ByteClass : Type 0 where
  digit : ByteClass
  byte : ℕ → ByteClass
  one_of : ℕ → ℕ → ByteClass

abbrev pub is_digit : ℕ → Bool
is_digit b = leb b'0' b && leb b b'9'

unfoldable pub fits_byte : ByteClass → ℕ → Bool
fits_byte digit b = is_digit b
fits_byte (byte c) b = b == c
fits_byte (one_of c d) b = b == c || b == d

-- the whole text, byte by byte
unfoldable pub fits : List ByteClass → Text → Bool
unfolding fits_byte
fits [] [] = true
fits [] (b ∷ t) = false
fits (c ∷ cs) [] = false
fits (c ∷ cs) (b ∷ t) = fits_byte c b && fits cs t

-- \d{4}-\d{2}-\d{2}, before what follows
abbrev date_then : List ByteClass → List ByteClass
date_then rest =
    digit ∷ digit ∷ digit ∷ digit ∷ byte b'-' ∷ digit ∷ digit ∷ byte b'-' ∷ digit ∷ digit ∷ rest

unfoldable pub date_slug : Text → Bool
unfolding fits
date_slug = fits (date_then [])

-- [T ]\d{2}:\d{2}, and the optional (:\d{2})?
unfoldable pub datetime_slug : Text → Bool
unfolding fits
datetime_slug t =
    fits (date_then (one_of b'T' b' ' ∷ digit ∷ digit ∷ byte b':' ∷ digit ∷ digit ∷ [])) t
    || fits
        (date_then (
          one_of b'T' b' '
          ∷ digit
          ∷ digit
          ∷ byte b':'
          ∷ digit
          ∷ digit
          ∷ byte b':'
          ∷ digit
          ∷ digit
          ∷ []))
        t

-- [a-z0-9]
unfoldable pub is_kebab_byte : ℕ → Bool
is_kebab_byte b = (leb b'a' b && leb b b'z') || is_digit b

-- ^[a-z0-9]+(-[a-z0-9]+)*$, `open` telling whether the present group has a byte
unfoldable pub kebab_from : Bool → Text → Bool
unfolding is_kebab_byte
kebab_from begun [] = begun
kebab_from begun (b ∷ t) =
    let group = kebab_from true t in
    let next = kebab_from false t in
    if is_kebab_byte b then group else if b == b'-' && begun then next else false

unfoldable pub kebab_slug : Text → Bool
unfolding kebab_from
kebab_slug = kebab_from false

abbrev pub slug_format_any : Text
slug_format_any = text "any"

abbrev pub slug_format_date : Text
slug_format_date = text "date"

abbrev pub slug_format_datetime : Text
slug_format_datetime = text "datetime"

abbrev pub slug_format_kebab : Text
slug_format_kebab = text "kebab"

pub data SlugError : Type 0 where
  not_date not_datetime not_kebab : Text → SlugError

-- a format that is none of the four, or `any`, rejects nothing
unfoldable pub validate_slug_format : Text → Text → Option SlugError
unfolding date_slug datetime_slug kebab_slug text_eq
validate_slug_format format slug =
    if text_eq format slug_format_date
    then (if date_slug slug then none else some (not_date slug))
    else if text_eq format slug_format_datetime
    then (if datetime_slug slug then none else some (not_datetime slug))
    else if text_eq format slug_format_kebab
    then (if kebab_slug slug then none else some (not_kebab slug))
    else none

-- 'A'..'Z' to 'a'..'z', byte by byte
unfoldable pub to_lower : ℕ → ℕ
to_lower b = if leb b'A' b && leb b b'Z' then b + 32 else b

-- the inner loop of containsFold: the text begins with the other, up to case
unfoldable pub prefix_fold : Text → Text → Bool
unfolding to_lower
prefix_fold t [] = true
prefix_fold [] (c ∷ sub) = false
prefix_fold (b ∷ t) (c ∷ sub) = to_lower b == to_lower c && prefix_fold t sub

-- the outer loop, over the suffixes that are long enough
unfoldable pub scan_fold : Text → Text → Bool
unfolding prefix_fold
scan_fold [] sub = leb (length sub) 0 && prefix_fold [] sub
scan_fold (b ∷ t) sub =
    let rest = scan_fold t sub in
    if leb (length sub) (length (b ∷ t)) then (prefix_fold (b ∷ t) sub || rest) else false

unfoldable pub contains_fold : Text → Text → Bool
unfolding scan_fold
contains_fold s sub = if ltb (length s) (length sub) then false else scan_fold s sub

abbrev pub doc_type_project_state : Text
doc_type_project_state = text "project_state"

abbrev pub doc_type_audit : Text
doc_type_audit = text "audit"

abbrev pub doc_type_learning : Text
doc_type_learning = text "learning"

abbrev pub doc_type_preference : Text
doc_type_preference = text "preference"

abbrev pub doc_type_tool : Text
doc_type_tool = text "tool"

abbrev pub doc_type_reference : Text
doc_type_reference = text "reference"

abbrev pub doc_type_journal : Text
doc_type_journal = text "journal"

abbrev pub doc_type_handoff : Text
doc_type_handoff = text "handoff"

abbrev pub doc_type_prompt : Text
doc_type_prompt = text "prompt"

abbrev pub valid_doc_types : List Text
valid_doc_types =
    doc_type_project_state ∷ doc_type_audit ∷ doc_type_learning ∷ doc_type_preference
    ∷ doc_type_tool ∷ doc_type_reference ∷ doc_type_journal ∷ doc_type_handoff ∷ doc_type_prompt
    ∷ []

-- the loop over the markers of an audit
unfoldable pub has_marker : Text → List Text → Bool
unfolding contains_fold
has_marker slug [] = false
has_marker slug (marker ∷ markers) = contains_fold slug marker || has_marker slug markers

-- a switch over the category
unfoldable pub first_match : Text → List (Text × Text) → Text → Text
first_match category [] otherwise = otherwise
first_match category ((k, v) ∷ cases) otherwise =
    if text_eq category k then v else first_match category cases otherwise

-- the subcategory is not read
unfoldable pub infer_doc_type : Text → Option Text → Text → Text
unfolding has_marker first_match text_eq
infer_doc_type category subcategory slug =
    if text_eq category (text "projects")
    then (if text_eq slug (text "state")
        then doc_type_project_state
        else if has_marker slug (text "audit" ∷ text "plan" ∷ text "design" ∷ text "backlog" ∷ [])
        then doc_type_audit
        else doc_type_reference)
    else first_match category
        ((text "learnings", doc_type_learning)
          ∷ (text "preferences", doc_type_preference)
          ∷ (text "tools", doc_type_tool)
          ∷ (text "journal", doc_type_journal)
          ∷ (text "handoffs", doc_type_handoff)
          ∷ (text "prompts", doc_type_prompt)
          ∷ [])
        doc_type_reference
