-- ===== src/Service/Handoff.antt =====
-- walkHandoffChain and priorHandoffEdge of internal/service/memory.go. The edges of a document, as the
-- caller may read them, are a parameter: `none` is a query that failed.
pub mod Chain
use memory_system.Prelude.{
  is_seen, ℕ, zero, suc, Text, text, text_eq, Bool, true, false, ◌&&◌, ◌||◌, Option, none, some,
  List, [], ◌∷◌, if◌then◌else◌,
}

abbrev pub edge_continues_from : Text
edge_continues_from = text "continues_from"

pub record EdgeListItem : Type 0 where
  pub edge_type : Text
  pub direction : Text
  pub other_document_id : Text
  pub other_document_path : Text
  pub other_document_title : Text
  pub other_document_archived : Bool

pub record HandoffRef : Type 0 where
  pub id : Text
  pub path : Text
  pub title : Text
  pub archived : Bool

unfoldable pub prior_handoff_edge : List EdgeListItem → Option EdgeListItem
unfolding text_eq
prior_handoff_edge [] = none
prior_handoff_edge (e ∷ edges) =
    if text_eq e.edge_type edge_continues_from && text_eq e.direction (text "outgoing")
    then some e
    else prior_handoff_edge edges

abbrev pub handoff_ref : EdgeListItem → HandoffRef
handoff_ref e = record {
  id = e.other_document_id;
  path = e.other_document_path;
  title = e.other_document_title;
  archived = e.other_document_archived;
}

module _ (list_by_document : Text → Option (List EdgeListItem)) where
  -- the loop, with the number of references that still fit
  unfoldable pub walk : ℕ → List Text → Text → List HandoffRef
  unfolding prior_handoff_edge is_seen
  walk zero seen current = []
  walk (suc room) seen current = elim (list_by_document current) [
    | none ↦ []
    | some edges ↦ elim (prior_handoff_edge edges) [
      | none ↦ []
      | some prior ↦ elim (is_seen prior.other_document_id seen) [
        | true ↦ []
        | false ↦
            handoff_ref prior ∷ walk room (prior.other_document_id ∷ seen) prior.other_document_id
      ]
    ]
  ]

  unfoldable pub walk_handoff_chain : Text → ℕ → List HandoffRef
  unfolding walk
  walk_handoff_chain start_id max_refs = walk max_refs (start_id ∷ []) start_id
