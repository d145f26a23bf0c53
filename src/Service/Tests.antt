-- ===== src/Service/Tests.antt =====
-- The theorems on the service's helpers at concrete inputs.
use memory_system.Models.Policy.{
  write_mode_replace, write_mode_merge_sections, write_mode_append_only,
}
use memory_system.Service.Sections.{
  Section, SectionCall, SectionError, stored, write_sections, merge_loop, insert_rows, group,
  at_index, next_ordinal, update_section_content, final_sections,
}
use memory_system.Service.Sections.Kept.{Kept, write_sections-Kept, write_sections-append}
use memory_system.Prelude.{
  NoRepeat, All, Result, err, none, Bool, true, find, set, ◌||◌, ℕ, pos, ◌≤◌, ◌≡◌, refl, Text, text,
  text_eq, false, Option, some, List, [], ◌∷◌, ◌++◌, map, length, if◌then◌else◌, ok,
}
use memory_system.Service.ListOptions.{ListOptions, escape_like_prefix}
use memory_system.Service.ListOptions.Escape.{literal, like_parts, escape_like_prefix-literal}
use memory_system.Service.ListOptions.Accepted.{Accepted}
use memory_system.Service.Handoff.{EdgeListItem, walk_handoff_chain, edge_continues_from}
use memory_system.Service.Handoff.Chain.{Fresh, Linked, walk_handoff_chain-Linked}
use memory_system.Service.Snippet.{Runes, snippet_start_sel, snippet_stop_sel, snippet_window}
use memory_system.Service.Includes.{
  IncludeEdge, IncludeStatus, edge_includes, max_include_nodes, resolve_includes,
}
use memory_system.Service.Includes.Bounded.{ids, Read, resolve_includes-NoRepeat}
use memory_system.Service.Snippet.Window.{Clean, snippet_window-Clean}

escape_like_prefix-literal_example :
    like_parts false (escape_like_prefix (text "50%_off") ++ text "%")
    ≡ map literal (text "50%_off") ++ like_parts false (text "%")
escape_like_prefix-literal_example = escape_like_prefix-literal (text "50%_off") (text "%")

abbrev page : ListOptions
page = record {
  slug_prefix = escape_like_prefix (text "a_b");
  subcategory_prefix = escape_like_prefix (text "infra/k8s");
  order_by = text "title";
  order = text "desc";
  limit = 10;
  offset = 20;
}

abbrev edge_to : Text → EdgeListItem
edge_to t = record {
  edge_type = edge_continues_from;
  direction = text "outgoing";
  other_document_id = t;
  other_document_path = t;
  other_document_title = t;
  other_document_archived = false;
}

-- two handoffs that continue from each other
abbrev in_a_circle : Text → Option (List EdgeListItem)
in_a_circle t = some (edge_to (if text_eq t (text "h1") then text "h2" else text "h1") ∷ [])

walk_handoff_chain-Linked_example :
    (length (walk_handoff_chain in_a_circle (text "h1") 5) ≤ 5)
    × Fresh (text "h1" ∷ []) (walk_handoff_chain in_a_circle (text "h1") 5)
    × Linked in_a_circle (text "h1") (walk_handoff_chain in_a_circle (text "h1") 5)
walk_handoff_chain-Linked_example = walk_handoff_chain-Linked in_a_circle (text "h1") 5

abbrev marked : Runes
marked =
    text "a long way to the "
    ++ (snippet_start_sel ∷ text "match")
    ++ (snippet_stop_sel ∷ text " and on")

snippet_window-Clean_example :
    (length (snippet_window marked (pos 8)) ≤ 8) × Clean (snippet_window marked (pos 8))
snippet_window-Clean_example = snippet_window-Clean marked 8

abbrev section_of : Text → ℕ → Text → Text → Section ℕ
section_of i n h c = record {
  id = i;
  document_id = text "d1";
  ordinal = n;
  heading = some h;
  content = c;
  embedding = none;
}

abbrev stored_sections : List (Section ℕ)
stored_sections =
    section_of (text "s1") 0 (text "Goals") (text "ship")
    ∷ section_of (text "s2") 1 (text "Log") (text "day 1")
    ∷ []

abbrev incoming_log : List (Section ℕ)
incoming_log =
    section_of [] 0 (text "Log") (text "day 2") ∷ section_of [] 1 (text "Next") (text "rest") ∷ []

abbrev incoming_next : List (Section ℕ)
incoming_next = section_of [] 0 (text "Next") (text "rest") ∷ []

abbrev none_fails : SectionCall → Bool
none_fails call = false

abbrev longer_id : List (Section ℕ) → Text
longer_id table = b'n' ∷ map (λ s. b'1') table

abbrev answer_of :
    Result SectionError (List (Section ℕ) × List (Section ℕ)) → List (Section ℕ) × List (Section ℕ)
answer_of (err e) = ([], [])
answer_of (ok a) = a

abbrev merged : List (Section ℕ) × List (Section ℕ)
merged = answer_of (
    write_sections none_fails longer_id write_mode_merge_sections true stored_sections incoming_log
      (text "d1") stored_sections)

merge_mode :
    (text_eq write_mode_merge_sections write_mode_replace || text_eq write_mode_merge_sections [])
    ≡ false
unfolding text_eq
merge_mode = refl

merged_ok :
    write_sections none_fails longer_id write_mode_merge_sections true stored_sections incoming_log
      (text "d1")
      stored_sections
    ≡ ok (merged.0, merged.1)
unfolding write_sections merge_loop insert_rows group at_index next_ordinal update_section_content
    final_sections find set text_eq
merged_ok = refl

write_sections-Kept_example :
    Kept true stored_sections incoming_log (text "d1") stored_sections merged.0 merged.1
write_sections-Kept_example =
    write_sections-Kept none_fails longer_id write_mode_merge_sections true stored_sections
      incoming_log (text "d1") stored_sections merged.0 merged.1 merge_mode merged_ok

abbrev grown : List (Section ℕ) × List (Section ℕ)
grown = answer_of (
    write_sections none_fails longer_id write_mode_append_only true stored_sections incoming_next
      (text "d1") stored_sections)

grown_ok :
    write_sections none_fails longer_id write_mode_append_only true stored_sections incoming_next
      (text "d1")
      stored_sections
    ≡ ok (grown.0, grown.1)
unfolding write_sections merge_loop insert_rows group at_index next_ordinal update_section_content
    final_sections find set text_eq
grown_ok = refl

write_sections-append_example :
    (new : List (Section ℕ)) × (grown.0 ≡ stored_sections ++ new)
    × (grown.1 ≡ stored_sections ++ map (stored true) new)
write_sections-append_example =
    write_sections-append none_fails longer_id true stored_sections incoming_next (text "d1")
      stored_sections grown.0 grown.1 grown_ok

-- a root that includes itself and one document, which includes the root
abbrev include_edge : Text → IncludeEdge
include_edge id = record {
  edge_id = text "e";
  edge_type = edge_includes;
  direction = text "outgoing";
  other_document_id = id;
  created_at = 1;
}

abbrev cyclic : Text → Option (List IncludeEdge)
cyclic id = some (include_edge (text "r") ∷ include_edge (text "d") ∷ [])

abbrev read_target : Text → Result IncludeStatus ℕ
read_target id = ok 7

abbrev resolved : List (Text × ℕ)
resolved = (resolve_includes cyclic read_target (text "r")).included

resolve_includes-NoRepeat_example :
    NoRepeat (text "r" ∷ ids resolved)
    × (length resolved ≤ max_include_nodes)
    × All (Read cyclic read_target (text "r")) resolved
resolve_includes-NoRepeat_example = resolve_includes-NoRepeat cyclic read_target (text "r")
