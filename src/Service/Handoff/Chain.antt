-- ===== src/Service/Handoff/Chain.antt =====
-- The chain of prior handoffs is bounded, follows edges and names no document twice.
use memory_system.Prelude.{
  is_seen, some_inj, ℕ, zero, suc, ◌≤◌, ◌≡◌, ◌≢◌, refl, sym, subst, ne_of_text_eq, Text, text,
  text_eq, eq_iff, Bool, true, false, Option, some, List, [], ◌∷◌, Memᴰ, All, length, Bool-cases,
  Option-cases, arith, inl, inr, ◌&&◌,
}
use memory_system.Service.Handoff.{
  EdgeListItem, HandoffRef, edge_continues_from, prior_handoff_edge, handoff_ref, walk,
  walk_handoff_chain,
}

-- An outgoing edge to the handoff that the document continues from.
abbrev pub ContinuesTo : EdgeListItem → Text → Type 0
ContinuesTo e t =
    (e.edge_type ≡ edge_continues_from)
    × (e.direction ≡ text "outgoing")
    × (e.other_document_id ≡ t)

-- No id of the references is among those seen, or stands twice.
abbrev pub Fresh : List Text → List HandoffRef → Type 0
Fresh seen [] = Unit
Fresh seen (r ∷ chain) = All (λ t. t ≢ r.id) seen × Fresh (r.id ∷ seen) chain

both : (a b : Bool) → (a && b) ≡ true → (a ≡ true) × (b ≡ true)
both a b h = ground arith

prior-ContinuesTo :
    (edges : List EdgeListItem) (e : EdgeListItem)
    → prior_handoff_edge edges ≡ some e
    → Memᴰ e edges × ContinuesTo e e.other_document_id
unfolding prior_handoff_edge
prior-ContinuesTo [] e h = cc
prior-ContinuesTo (x ∷ edges) e h =
    elim (Bool-cases
      (text_eq x.edge_type edge_continues_from && text_eq x.direction (text "outgoing"))) [
        | inl t ↦
            let k = rw (t, prior_handoff_edge) at h in
            let same : x ≡ e = some_inj k in
            let (a, b) : (text_eq x.edge_type edge_continues_from ≡ true)
                × (text_eq x.direction (text "outgoing") ≡ true) =
              both _ _ t in
            (
              Memᴰ.head (sym same),
              subst (λ (y : EdgeListItem). ContinuesTo y y.other_document_id) same
                  (
                    (eq_iff x.edge_type edge_continues_from).0 a,
                    (eq_iff x.direction (text "outgoing")).0 b,
                    refl,
                  ),
            )
        | inr t ↦
            let k = rw (t, prior_handoff_edge) at h in
            let (i, c) = prior-ContinuesTo edges e k in (Memᴰ.tail i, c)
      ]

is_seen-ne : (t : Text) (seen : List Text) → is_seen t seen ≡ false → All (λ x. x ≢ t) seen
unfolding is_seen
is_seen-ne t [] h = tt
is_seen-ne t (x ∷ seen) h = elim (Bool-cases (text_eq x t)) [
  | inl e ↦ let k = rw (e, is_seen) at h in cc
  | inr e ↦ let k = rw (e, is_seen) at h in (ne_of_text_eq x t e, is_seen-ne t seen k)
]

module _ (list_by_document : Text → Option (List EdgeListItem)) where
  -- Each reference is where an edge of the one before it leads.
  abbrev pub Linked : Text → List HandoffRef → Type 0
  Linked current [] = Unit
  Linked current (r ∷ chain) =
      ((edges : List EdgeListItem) × (e : EdgeListItem) × (list_by_document current ≡ some edges)
        × Memᴰ e edges
        × ContinuesTo e r.id)
      × Linked r.id chain

  abbrev Bounded : ℕ → List Text → Text → List HandoffRef → Type 0
  Bounded room seen current chain = (length chain ≤ room) × Fresh seen chain × Linked current chain

  walk-Bounded :
      (room : ℕ) (seen : List Text) (current : Text)
      → Bounded room seen current (walk list_by_document room seen current)
  unfolding walk
  walk-Bounded zero seen current = (omega arith, tt, tt)
  walk-Bounded (suc room) seen current = elim (Option-cases (list_by_document current)) [
    | inl e ↦
        let stop : walk list_by_document (suc room) seen current ≡ [] = rw (e, walk) refl in
        subst (Bounded (suc room) seen current) (sym stop) (omega arith, tt, tt)
    | inr (edges, e) ↦ elim (Option-cases (prior_handoff_edge edges)) [
      | inl f ↦
          let stop : walk list_by_document (suc room) seen current ≡ [] = rw (e, f, walk) refl in
          subst (Bounded (suc room) seen current) (sym stop) (omega arith, tt, tt)
      | inr (prior, f) ↦ elim (Bool-cases (is_seen prior.other_document_id seen)) [
        | inl g ↦
            let stop : walk list_by_document (suc room) seen current ≡ [] =
              rw (e, f, g, walk) refl in
            subst (Bounded (suc room) seen current) (sym stop) (omega arith, tt, tt)
        | inr g ↦
            let (i, c) = prior-ContinuesTo edges prior f in
            let (n, fr, l) =
              walk-Bounded room (prior.other_document_id ∷ seen) prior.other_document_id in
            let next =
              handoff_ref prior
              ∷ walk list_by_document room (prior.other_document_id ∷ seen)
                  prior.other_document_id in
            let step : walk list_by_document (suc room) seen current ≡ next =
              rw (e, f, g, walk) refl in
            subst (Bounded (suc room) seen current) (sym step) (
              omega (arith, n),
              (is_seen-ne prior.other_document_id seen g, fr),
              ((edges, prior, e, i, c), l),
            )
      ]
    ]
  ]

-- The chain has at most the wanted number of references, none of them to the start or to a document
-- twice, and each is where an outgoing continues_from edge of the one before it leads.
pub walk_handoff_chain-Linked :
    (list_by_document : Text → Option (List EdgeListItem)) (start_id : Text) (max_refs : ℕ)
    → (length (walk_handoff_chain list_by_document start_id max_refs) ≤ max_refs)
      × Fresh (start_id ∷ []) (walk_handoff_chain list_by_document start_id max_refs)
      × Linked list_by_document start_id (walk_handoff_chain list_by_document start_id max_refs)
unfolding walk_handoff_chain
walk_handoff_chain-Linked list_by_document start_id max_refs =
    walk-Bounded list_by_document max_refs (start_id ∷ []) start_id
