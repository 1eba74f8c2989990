-- ===== src/Web/Layout/Edges/Direct.antt =====
-- Where `computeCausalEdges` of web/src/lib/debugger-layout.ts draws an edge.
use raceway.Prelude.{
  ◌≡◌, refl, sym, subst, true, false, List, [], ◌∷◌, ◌++◌, some, arith, Bool-cases, Option-cases,
  inl, inr, In, In-append_left, In-append_right,
}
use raceway.Text.{Text, ◌==◌, eq_iff, is_truthy}
use raceway.Maps.{get}
use raceway.Web.Types.{Event}
use raceway.Web.Layout.Causality.{happens_before}
use raceway.Web.Layout.Edges.{
  TimelineNode, EdgeType, parent, causal, TimelineEdge, edge_from, parent_edge, is_parent,
  has_intermediate, causal_edge, causal_edges, edges_into, edges_of,
}

-- The event has an id, and the node of that id is there.
abbrev pub HasNode : List (Text × TimelineNode) → Event → Type 0
HasNode nodes e =
    (is_truthy e.id ≡ true) × (n : TimelineNode) × (get e.id nodes ≡ some n) × (n.id ≡ e.id)

module _ (nodes : List (Text × TimelineNode)) (events : List Event) where
  In-causal_edges :
      (x : TimelineEdge) (e o : Event) (t : TimelineNode) (rest : List Event)
      → In o rest
      → In x (causal_edge nodes events e t o)
      → In x (causal_edges nodes events e t rest)
  unfolding causal_edges
  In-causal_edges x e o t [] i h = absurd i
  In-causal_edges x e o t (p ∷ rest) (inl eq) h =
      In-append_left x _ _ (subst (λ q. In x (causal_edge nodes events e t q)) (sym eq) h)
  In-causal_edges x e o t (p ∷ rest) (inr i) h =
      In-append_right x (causal_edge nodes events e t p) _ (In-causal_edges x e o t rest i h)

  pub In-edges_of :
      (x : TimelineEdge) (e : Event) (rest : List Event)
      → In e rest
      → In x (edges_into nodes events e)
      → In x (edges_of nodes events rest)
  unfolding edges_of
  In-edges_of x e [] i h = absurd i
  In-edges_of x e (p ∷ rest) (inl eq) h =
      In-append_left x _ _ (subst (λ q. In x (edges_into nodes events q)) (sym eq) h)
  In-edges_of x e (p ∷ rest) (inr i) h =
      In-append_right x (edges_into nodes events p) _ (In-edges_of x e rest i h)

  In-edge_from :
      (o e : Event) (t : TimelineNode) (type : EdgeType)
      → HasNode nodes o
      → t.id ≡ e.id
      → In (record { source = o.id; target = e.id; type = type }) (edge_from nodes o.id t type)
  unfolding edge_from
  In-edge_from o e t type (h, n, found, same) at = ground (arith, found, same, at)

  edges_into-found :
      (e : Event) (t : TimelineNode)
      → get e.id nodes ≡ some t
      → edges_into nodes events e ≡ parent_edge nodes e t ++ causal_edges nodes events e t events
  unfolding edges_into
  edges_into-found e t found = ground (arith, found)

  parent_edge-is_parent :
      (o e : Event) (t : TimelineNode)
      → is_truthy o.id ≡ true
      → is_parent o.id e.parent_id ≡ true
      → parent_edge nodes e t ≡ edge_from nodes o.id t parent
  unfolding parent_edge
  parent_edge-is_parent o e t h is = elim (Option-cases e.parent_id) [
    | inl missing ↦ ground (arith, missing, is)
    | inr (id, there) ↦ ground (arith, there, is, h, eq_iff o.id id)
  ]

  causal_edge-direct :
      (o e : Event) (t : TimelineNode)
      → (o.id == e.id) ≡ false
      → happens_before o e ≡ true
      → has_intermediate events o e ≡ false
      → is_parent o.id e.parent_id ≡ false
      → causal_edge nodes events e t o ≡ edge_from nodes o.id t causal
  unfolding causal_edge
  causal_edge-direct o e t ne before nothing other = simp (ne, before, nothing, other) refl

  -- Where nothing stands between two events, an edge joins them.
  pub In-direct :
      (o e : Event)
      → In o events
      → HasNode nodes o
      → HasNode nodes e
      → (o.id == e.id) ≡ false
      → happens_before o e ≡ true
      → has_intermediate events o e ≡ false
      → (type : EdgeType) × In
          (record { source = o.id; target = e.id; type = type })
          (edges_into nodes events e)
  In-direct o e i ho (he, t, found, same) ne before nothing =
      elim (Bool-cases (is_parent o.id e.parent_id)) [
        | inl is ↦ (
          parent,
          subst (In _) (sym (edges_into-found e t found)) (
              In-append_left _ _ _ (
                subst (In _) (sym (parent_edge-is_parent o e t ho.0 is))
                  (In-edge_from o e t parent ho same))),
        )
        | inr other ↦ (
          causal,
          subst (In _) (sym (edges_into-found e t found)) (
              In-append_right _ (parent_edge nodes e t) _ (
                In-causal_edges _ e o t events i (
                  subst (In _) (sym (causal_edge-direct o e t ne before nothing other))
                    (In-edge_from o e t causal ho same)))),
        )
      ]
