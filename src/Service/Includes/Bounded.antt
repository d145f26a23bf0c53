-- ===== src/Service/Includes/Bounded.antt =====
-- What the walk collects.
use memory_system.Prelude.{
  is_seen, NoRepeat, append-NoRepeat, ℕ, zero, suc, ◌≤◌, ◌<◌, leb, ◌≡◌, refl, sym, ap, ◌∙◌, subst,
  inl, inr, Text, false, List, [], ◌∷◌, ◌++◌, length, length-append, map, All, Result, ok,
  Bool-cases, Result-cases, Option, Option-cases, rows_where, arith,
}
use memory_system.Service.Includes.{
  IncludeStatus, included_status, skipped_cycle, skipped_depth, IncludeEdge, is_include, sort_edges,
  Resolver, note, leave, enter, resolve_target, out_of_budget, visit, visit_all, visit_document,
  walk_includes, resolve_includes, default_include_depth, max_include_nodes,
}

abbrev pub ids : {V : Type 0} → List (Text × V) → List Text
ids included = map (λ p. p.0) included

ids-append :
    {V : Type 0} (xs : List (Text × V)) (id : Text) (v : V)
    → ids (xs ++ ((id, v) ∷ [])) ≡ ids xs ++ (id ∷ [])
ids-append [] id v = refl
ids-append (x ∷ xs) id v = ap (◌∷◌ x.0) (ids-append xs id v)

module _ {V : Type 0} (list_by_document : Text → Option (List IncludeEdge))
    (resolve_one : Text → Result IncludeStatus V) (root : Text) where
  -- Each view is that of the id it stands under.
  abbrev pub Read : Text × V → Type 0
  Read p = resolve_one p.0 ≡ ok p.1

  record Good (r : Resolver V) : Type 0 where
    seen_included : r.seen ≡ root ∷ ids r.included
    distinct : NoRepeat r.seen
    few : length r.included ≤ max_include_nodes
    all_read : All Read r.included

  All-append :
      (xs : List (Text × V)) (p : Text × V) → All Read xs → Read p → All Read (xs ++ (p ∷ []))
  All-append [] p h q = (q, tt)
  All-append (x ∷ xs) p h q = (h.0, All-append xs p h.1 q)

  -- What has the same sequence of views and the same set of ids is as good.
  same-Good : (r s : Resolver V) → s.seen ≡ r.seen → s.included ≡ r.included → Good r → Good s
  same-Good r s e f g = record {
    seen_included = e ∙ g.seen_included ∙ ap (λ xs. root ∷ ids xs) (sym f);
    distinct = subst NoRepeat (sym e) g.distinct;
    few = subst (λ xs. length xs ≤ max_include_nodes) (sym f) g.few;
    all_read = subst (All Read) (sym f) g.all_read;
  }

  enter-Good :
      (tid : Text) (view : V) (r : Resolver V)
      → Good r
      → is_seen tid r.seen ≡ false
      → leb max_include_nodes (length r.included) ≡ false
      → resolve_one tid ≡ ok view
      → Good (enter list_by_document resolve_one tid view r)
  enter-Good tid view r g fresh room e = record {
    seen_included =
        ap (λ xs. xs ++ (tid ∷ [])) g.seen_included
        ∙ ap (◌∷◌ root) (sym (ids-append r.included tid view));
    distinct = append-NoRepeat tid r.seen fresh g.distinct;
    few =
        let one_more = length-append r.included ((tid, view) ∷ []) in
        let less : length r.included < max_include_nodes = ground arith in omega arith;
    all_read = All-append r.included (tid, view) g.all_read e;
  }

  resolve_target-Good :
      (recurse : Text → Resolver V → Resolver V) (tid doc_id : Text) (r : Resolver V)
      → ((t : Text) (s : Resolver V) → Good s → Good (recurse t s))
      → Good r
      → is_seen tid r.seen ≡ false
      → leb max_include_nodes (length r.included) ≡ false
      → Good (resolve_target list_by_document resolve_one recurse tid doc_id r)
  unfolding resolve_target
  resolve_target-Good recurse tid doc_id r deeper g fresh room =
      elim (Result-cases (resolve_one tid)) [
        | inl (status, e) ↦
            rw (e, resolve_target)
              (same-Good r (note list_by_document resolve_one tid doc_id status r) refl refl g)
        | inr (view, e) ↦
            let noted = note list_by_document resolve_one tid doc_id included_status r in
            let entered = enter list_by_document resolve_one tid view noted in
            let walked = recurse tid entered in
            let walked-Good =
              deeper tid entered
                (enter-Good tid view noted (same-Good r noted refl refl g) fresh room e) in
            rw (e, resolve_target)
              (same-Good walked (leave list_by_document resolve_one tid walked) refl refl
                walked-Good)
      ]

  visit-Good :
      (recurse : Text → Resolver V → Resolver V) (depth : ℕ) (doc_id : Text) (e : IncludeEdge)
      (before : Resolver V)
      → ((t : Text) (s : Resolver V) → Good s → Good (recurse t s))
      → Good before
      → Good (visit list_by_document resolve_one recurse depth doc_id e before)
  unfolding visit
  visit-Good recurse depth doc_id e before deeper g =
      let tid = e.other_document_id in
      let r = record before { visits = suc before.visits } in
      let g' = same-Good before r refl refl g in
      elim (Bool-cases (is_seen tid before.on_path)) [
        | inl c ↦
            rw (c, visit)
              (same-Good r (note list_by_document resolve_one tid doc_id skipped_cycle r) refl refl
                g')
        | inr c ↦ elim (Bool-cases (is_seen tid before.seen)) [
          | inl d ↦
              rw (c, d, visit)
                (same-Good r (note list_by_document resolve_one tid doc_id included_status r) refl
                  refl g')
          | inr d ↦ elim (Bool-cases (out_of_budget list_by_document resolve_one depth r)) [
            | inl b ↦
                rw (c, d, b, visit)
                  (same-Good r (note list_by_document resolve_one tid doc_id skipped_depth r) refl
                    refl g')
            | inr b ↦
                let room : leb max_include_nodes (length before.included) ≡ false = ground arith in
                rw (c, d, b, visit) (resolve_target-Good recurse tid doc_id r deeper g' d room)
          ]
        ]
      ]

  visit_all-Good :
      (recurse : Text → Resolver V → Resolver V) (depth : ℕ) (doc_id : Text)
      (edges : List IncludeEdge) (r : Resolver V)
      → ((t : Text) (s : Resolver V) → Good s → Good (recurse t s))
      → Good r
      → Good (visit_all list_by_document resolve_one recurse depth doc_id edges r)
  unfolding visit_all
  visit_all-Good recurse depth doc_id [] r deeper g = g
  visit_all-Good recurse depth doc_id (e ∷ edges) r deeper g =
      visit_all-Good recurse depth doc_id edges
        (visit list_by_document resolve_one recurse depth doc_id e r) deeper
        (visit-Good recurse depth doc_id e r deeper g)

  visit_document-Good :
      (recurse : Text → Resolver V → Resolver V) (depth : ℕ) (doc_id : Text) (r : Resolver V)
      → ((t : Text) (s : Resolver V) → Good s → Good (recurse t s))
      → Good r
      → Good (visit_document list_by_document resolve_one recurse depth doc_id r)
  unfolding visit_document
  visit_document-Good recurse depth doc_id r deeper g =
      elim (Option-cases (list_by_document doc_id)) [
        | inl n ↦ rw (n, visit_document) g
        | inr (edges, n) ↦
            rw (n, visit_document)
              (visit_all-Good recurse depth doc_id (sort_edges (rows_where is_include edges)) r
                deeper g)
      ]

  walk_includes-Good :
      (depth : ℕ) (doc_id : Text) (r : Resolver V)
      → Good r
      → Good (walk_includes list_by_document resolve_one depth doc_id r)
  unfolding walk_includes
  walk_includes-Good zero doc_id r g = visit_document-Good (λ tid s. s) zero doc_id r (λ t s h. h) g
  walk_includes-Good (suc depth) doc_id r g =
      visit_document-Good (walk_includes list_by_document resolve_one depth) (suc depth) doc_id r
        (walk_includes-Good depth) g

-- Whatever the edges are, cycles included: the documents that the walk from a root collects are at most
-- 500, none of them twice and none the root, and the view under each id is what reading it gave.
pub resolve_includes-NoRepeat :
    {V : Type 0} (list_by_document : Text → Option (List IncludeEdge))
    (resolve_one : Text → Result IncludeStatus V) (root : Text)
    → NoRepeat (root ∷ ids (resolve_includes list_by_document resolve_one root).included)
      × (length (resolve_includes list_by_document resolve_one root).included ≤ max_include_nodes)
      × All
          (Read list_by_document resolve_one root)
          (resolve_includes list_by_document resolve_one root).included
unfolding resolve_includes is_seen
resolve_includes-NoRepeat {V} list_by_document resolve_one root =
    let start : Resolver V = record {
      seen = root ∷ [];
      on_path = root ∷ [];
      included = [];
      manifest = [];
      visits = 0;
    } in
    let g =
      walk_includes-Good list_by_document resolve_one root default_include_depth root start
        record { seen_included = refl; distinct = (refl, tt); few = omega arith; all_read = tt } in
    (subst NoRepeat g.seen_included g.distinct, g.few, g.all_read)
