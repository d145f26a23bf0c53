-- ===== src/Service/Includes.antt =====
-- internal/service/includes.go: the walk over the outgoing includes edges of a document. The edges of a
-- document and the reading of one target, through the caller's scope and the document's condition, are
-- parameters; a time is a number.
use memory_system.Prelude.{
  is_seen, NoRepeat, append-NoRepeat, ℕ, zero, suc, ◌==◌, ltb, leb, Text, text, text_eq, Bool, true,
  false, not, ◌&&◌, ◌||◌, Option, none, some, List, [], ◌∷◌, ◌++◌, length, Result, err, ok,
  if◌then◌else◌, rows_where, delete_where,
}
pub mod Bounded

abbrev pub edge_includes : Text
edge_includes = text "includes"

abbrev pub default_include_depth : ℕ
default_include_depth = 10

abbrev pub max_include_nodes : ℕ
max_include_nodes = 500

abbrev pub max_include_visits : ℕ
max_include_visits = 2000

pub data IncludeStatus : Type 0 where
  included_status : IncludeStatus
  skipped_scope : IncludeStatus
  skipped_cycle : IncludeStatus
  skipped_depth : IncludeStatus
  skipped_missing : IncludeStatus

pub record IncludeRef : Type 0 where
  pub document_id : Text
  pub via_document_id : Text
  pub status : IncludeStatus

-- The fields of an edge that the walk reads.
pub record IncludeEdge : Type 0 where
  pub edge_id : Text
  pub edge_type : Text
  pub direction : Text
  pub other_document_id : Text
  pub created_at : ℕ

-- e.Direction == "outgoing" && e.EdgeType == models.EdgeIncludes
abbrev pub is_include : IncludeEdge → Bool
is_include e = text_eq e.direction (text "outgoing") && text_eq e.edge_type edge_includes

-- the order of Go strings
unfoldable pub text_before : Text → Text → Bool
text_before a [] = false
text_before [] (d ∷ b) = true
text_before (c ∷ a) (d ∷ b) = if c == d then text_before a b else ltb c d

-- the order of the links
unfoldable pub edge_before : IncludeEdge → IncludeEdge → Bool
unfolding text_before
edge_before a b =
    if not (a.created_at == b.created_at)
    then ltb a.created_at b.created_at
    else text_before a.edge_id b.edge_id

-- sort.SliceStable
unfoldable pub insert_edge : IncludeEdge → List IncludeEdge → List IncludeEdge
unfolding edge_before
insert_edge e [] = e ∷ []
insert_edge e (x ∷ xs) =
    let rest = insert_edge e xs in if edge_before x e then x ∷ rest else e ∷ x ∷ xs

unfoldable pub sort_edges : List IncludeEdge → List IncludeEdge
unfolding insert_edge
sort_edges [] = []
sort_edges (e ∷ edges) = insert_edge e (sort_edges edges)

-- The resolver; a view stands with the id by which it was read, and `seen` and `on_path` are the keys that
-- the source maps to true.
pub record Resolver (V : Type 0) : Type 0 where
  pub seen : List Text
  pub on_path : List Text
  pub included : List (Text × V)
  pub manifest : List IncludeRef
  pub visits : ℕ

module _ {V : Type 0} (list_by_document : Text → Option (List IncludeEdge))
    (resolve_one : Text → Result IncludeStatus V) where
  abbrev pub note : Text → Text → IncludeStatus → Resolver V → Resolver V
  note tid doc_id status r = record r {
    manifest =
        r.manifest
        ++ (record { document_id = tid; via_document_id = doc_id; status = status } ∷ []);
  }

  -- r.onPath[tid] = false
  abbrev pub leave : Text → Resolver V → Resolver V
  leave tid r = record r { on_path = delete_where (λ x. text_eq x tid) r.on_path }

  abbrev pub enter : Text → V → Resolver V → Resolver V
  enter tid view r = record r {
    seen = r.seen ++ (tid ∷ []);
    included = r.included ++ ((tid, view) ∷ []);
    on_path = tid ∷ r.on_path;
  }

  -- the target that is read; `recurse` is the walk one level down
  unfoldable pub resolve_target :
      (Text → Resolver V → Resolver V) → Text → Text → Resolver V → Resolver V
  unfolding delete_where text_eq
  resolve_target recurse tid doc_id r = elim (resolve_one tid) [
    | err status ↦ note tid doc_id status r
    | ok view ↦ leave tid (recurse tid (enter tid view (note tid doc_id included_status r)))
  ]

  -- depth <= 0 || len(r.included) >= maxIncludeNodes || r.visits > maxIncludeVisits
  abbrev pub out_of_budget : ℕ → Resolver V → Bool
  out_of_budget depth r =
      depth == 0 || leb max_include_nodes (length r.included) || ltb max_include_visits r.visits

  unfoldable pub visit :
      (Text → Resolver V → Resolver V) → ℕ → Text → IncludeEdge → Resolver V → Resolver V
  unfolding resolve_target is_seen
  visit recurse depth doc_id e before =
      let tid = e.other_document_id in
      let r = record before { visits = suc before.visits } in
      if is_seen tid r.on_path
      then note tid doc_id skipped_cycle r
      else if is_seen tid r.seen
      then note tid doc_id included_status r
      else if out_of_budget depth r
      then note tid doc_id skipped_depth r
      else resolve_target recurse tid doc_id r

  unfoldable pub visit_all :
      (Text → Resolver V → Resolver V) → ℕ → Text → List IncludeEdge → Resolver V → Resolver V
  unfolding visit
  visit_all recurse depth doc_id [] r = r
  visit_all recurse depth doc_id (e ∷ edges) r =
      visit_all recurse depth doc_id edges (visit recurse depth doc_id e r)

  unfoldable pub visit_document :
      (Text → Resolver V → Resolver V) → ℕ → Text → Resolver V → Resolver V
  unfolding visit_all sort_edges rows_where text_eq
  visit_document recurse depth doc_id r = elim (list_by_document doc_id) [
    | none ↦ r
    | some edges ↦ visit_all recurse depth doc_id (sort_edges (rows_where is_include edges)) r
  ]

  -- At depth 0 no target is read, so that nothing is walked further.
  unfoldable pub walk_includes : ℕ → Text → Resolver V → Resolver V
  unfolding visit_document
  walk_includes zero doc_id r = visit_document (λ tid s. s) zero doc_id r
  walk_includes (suc depth) doc_id r = visit_document (walk_includes depth) (suc depth) doc_id r

  unfoldable pub resolve_includes : Text → Resolver V
  unfolding walk_includes
  resolve_includes root =
      walk_includes default_include_depth root
        record { seen = root ∷ []; on_path = root ∷ []; included = []; manifest = []; visits = 0 }
