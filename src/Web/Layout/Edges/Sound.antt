-- ===== src/Web/Layout/Edges/Sound.antt =====
-- Each edge that `computeCausalEdges` of web/src/lib/debugger-layout.ts draws has a reason.
use raceway.Prelude.{
  ◌≡◌, refl, sym, subst, ◌⊎◌, inl, inr, Bool, true, false, List, [], ◌∷◌, map, Option, some, arith,
  any, In, All, All-append, Bool-cases, Option-cases,
}
use raceway.Text.{Text, ◌==◌, eq_iff, eq_refl, is_truthy}
use raceway.Maps.{get, set, set_all, new_map, get-set}
use raceway.Web.Types.{Event}
use raceway.Web.Layout.Causality.{happens_before}
use raceway.Web.Layout.Order.{IsBefore, happens_before-IsBefore}
use raceway.Web.Layout.Edges.{
  is_between, TimelineNode, EdgeType, parent, causal, TimelineEdge, node_map, edge_from,
  parent_edge, is_parent, has_intermediate, causal_edge, causal_edges, edges_into, edges_of,
  compute_causal_edges,
}

-- No third event is after the one and before the other.
abbrev pub NothingBetween : List Event → Event → Event → Type 0
NothingBetween events o e =
    (m : Event)
    → In m events
    → (m.id == o.id) ≡ false
    → (m.id == e.id) ≡ false
    → IsBefore o.causality_vector m.causality_vector
    → IsBefore m.causality_vector e.causality_vector
    → ⊥

-- The edge leads to an event from its parent, or from an event that happens before it, is not its
-- parent, and has nothing in between; before and after are those of the vectors' counters.
abbrev pub HasReason : List Event → TimelineEdge → Type 0
HasReason events x =
    (e : Event) × In e events
    × (x.target ≡ e.id)
    × (((x.type ≡ parent) × (e.parent_id ≡ some x.source))
        ⊎ ((x.type ≡ causal)
            × ((o : Event) × In o events
                × (x.source ≡ o.id)
                × IsBefore o.causality_vector e.causality_vector
                × NothingBetween events o e
                × (e.parent_id ≡ some o.id → ⊥))))

any-false :
    (p : Event → Bool) (m : Event) (es : List Event) → In m es → any p es ≡ false → p m ≡ false
any-false p m [] i h = absurd i
any-false p m (e ∷ es) (inl same) h = subst (λ x. p x ≡ false) same (ground (arith, h))
any-false p m (e ∷ es) (inr i) h = any-false p m es i (ground (arith, h))

has_intermediate-NothingBetween :
    (events : List Event) (o e : Event)
    → has_intermediate events o e ≡ false
    → NothingBetween events o e
unfolding has_intermediate is_between
has_intermediate-NothingBetween events o e none m i other_o other_e after before = ground (
  arith,
  any-false (is_between o e) m events i none,
  other_o,
  other_e,
  (happens_before-IsBefore o m).1 after,
  (happens_before-IsBefore m e).1 before,
)

is_parent-parent : (id : Text) (p : Option Text) → is_parent id p ≡ false → p ≡ some id → ⊥
is_parent-parent id p h same =
    let is : is_parent id (some id) ≡ false = subst (λ q. is_parent id q ≡ false) same h in
    ground (arith, is, eq_refl id)

-- A node stands under its id.
abbrev HasOwnKey : List (Text × TimelineNode) → Text → TimelineNode → Type 0
HasOwnKey m k n = get k m ≡ some n → n.id ≡ k

set_all-HasOwnKey :
    (ns : List TimelineNode) (m : List (Text × TimelineNode))
    → ((k : Text) (n : TimelineNode) → HasOwnKey m k n)
    → (k : Text) (n : TimelineNode) → HasOwnKey (set_all (map (λ x. (x.id, x)) ns) m) k n
unfolding set_all
set_all-HasOwnKey [] m h k n = h k n
set_all-HasOwnKey (x ∷ ns) m h k n =
    set_all-HasOwnKey ns (set x.id x m)
      (λ j a found. elim (Bool-cases (x.id == j)) [
        | inl is ↦ ground (arith, is, found, get-set j x.id x m, eq_iff x.id j)
        | inr other ↦ h j a (ground (arith, other, found, get-set j x.id x m))
      ])
      k n

node_map-HasOwnKey :
    (ns : List TimelineNode) (k : Text) (n : TimelineNode) → HasOwnKey (node_map ns) k n
unfolding node_map new_map get
node_map-HasOwnKey ns = set_all-HasOwnKey ns [] (λ k n found. absurd (ground arith))

module _ (nodes : List (Text × TimelineNode))
    (own : (k : Text) (n : TimelineNode) → HasOwnKey nodes k n) (events : List Event) where
  edge_from-HasReason :
      (id : Text) (t : TimelineNode) (type : EdgeType)
      → HasReason events (record { source = id; target = t.id; type = type })
      → All (HasReason events) (edge_from nodes id t type)
  unfolding edge_from
  edge_from-HasReason id t type h = elim (Option-cases (get id nodes)) [
    | inl e ↦ rw (e, edge_from) tt
    | inr (n, e) ↦
        rw (e, edge_from)
          (
            subst (λ s. HasReason events (record { source = s; target = t.id; type = type }))
                (sym (own id n e)) h,
            tt,
          )
  ]

  parent_edge-HasReason :
      (e : Event) (t : TimelineNode)
      → In e events
      → t.id ≡ e.id
      → All (HasReason events) (parent_edge nodes e t)
  unfolding parent_edge
  parent_edge-HasReason e t i same = elim (Option-cases e.parent_id) [
    | inl missing ↦ rw (missing, parent_edge) tt
    | inr (id, there) ↦ elim (Bool-cases (is_truthy id)) [
      | inl yes_id ↦
          rw (there, parent_edge, yes_id)
            (edge_from-HasReason id t parent (e, i, same, inl (refl, there)))
      | inr empty ↦ rw (there, parent_edge, empty) tt
    ]
  ]

  -- The three tests of the inner loop, and what is drawn if they are passed.
  causal_edge-cases :
      (e o : Event) (t : TimelineNode)
      → (causal_edge nodes events e t o ≡ [])
        ⊎ ((causal_edge nodes events e t o ≡ edge_from nodes o.id t causal)
            × (happens_before o e ≡ true)
            × (has_intermediate events o e ≡ false)
            × (is_parent o.id e.parent_id ≡ false))
  unfolding causal_edge
  causal_edge-cases e o t = elim (Bool-cases (o.id == e.id)) [
    | inl a ↦ inl (simp a refl)
    | inr a ↦ elim (Bool-cases (is_parent o.id e.parent_id)) [
      | inl b ↦ inl (simp (a, b) refl)
      | inr b ↦ elim (Bool-cases (happens_before o e)) [
        | inr c ↦ inl (simp (a, b, c) refl)
        | inl c ↦ elim (Bool-cases (has_intermediate events o e)) [
          | inl d ↦ inl (simp (a, b, c, d) refl)
          | inr d ↦ inr (simp (a, b, c, d) refl, c, d, b)
        ]
      ]
    ]
  ]

  causal_edge-HasReason :
      (e o : Event) (t : TimelineNode)
      → In e events
      → In o events
      → t.id ≡ e.id
      → All (HasReason events) (causal_edge nodes events e t o)
  causal_edge-HasReason e o t ie io same = elim (causal_edge-cases e o t) [
    | inl nothing ↦ subst (All (HasReason events)) (sym nothing) tt
    | inr (drawn, before, direct, other) ↦ subst (All (HasReason events)) (sym drawn) (
        edge_from-HasReason o.id t causal (
          e,
          ie,
          same,
          inr (
            refl,
            (
              o,
              io,
              refl,
              (happens_before-IsBefore o e).0 before,
              has_intermediate-NothingBetween events o e direct,
              is_parent-parent o.id e.parent_id other,
            ),
          ),
        ))
  ]

  causal_edges-HasReason :
      (e : Event) (t : TimelineNode) (os : List Event)
      → In e events
      → All (λ o. In o events) os
      → t.id ≡ e.id
      → All (HasReason events) (causal_edges nodes events e t os)
  unfolding causal_edges
  causal_edges-HasReason e t [] ie h same = tt
  causal_edges-HasReason e t (o ∷ os) ie h same =
      All-append (HasReason events) (causal_edge nodes events e t o) _
        (causal_edge-HasReason e o t ie h.0 same) (causal_edges-HasReason e t os ie h.1 same)

  edges_into-HasReason :
      (e : Event)
      → In e events
      → All (λ o. In o events) events
      → All (HasReason events) (edges_into nodes events e)
  unfolding edges_into
  edges_into-HasReason e ie every = elim (Option-cases (get e.id nodes)) [
    | inl missing ↦ rw (missing, edges_into) tt
    | inr (t, found) ↦
        let same = own e.id t found in
        rw (found, edges_into)
          (All-append (HasReason events) (parent_edge nodes e t) _
            (parent_edge-HasReason e t ie same) (causal_edges-HasReason e t events ie every same))
  ]

  edges_of-HasReason :
      (es : List Event)
      → All (λ o. In o events) es
      → All (λ o. In o events) events
      → All (HasReason events) (edges_of nodes events es)
  unfolding edges_of
  edges_of-HasReason [] h every = tt
  edges_of-HasReason (e ∷ es) h every =
      All-append (HasReason events) (edges_into nodes events e) _ (edges_into-HasReason e h.0 every)
        (edges_of-HasReason es h.1 every)

All-weaken : (e : Event) (os es : List Event) → All (λ o. In o es) os → All (λ o. In o (e ∷ es)) os
All-weaken e [] es h = tt
All-weaken e (o ∷ os) es h = (inr h.0, All-weaken e os es h.1)

All-In_itself : (es : List Event) → All (λ o. In o es) es
All-In_itself [] = tt
All-In_itself (e ∷ es) = (inl refl, All-weaken e es es (All-In_itself es))

-- Each edge drawn leads to an event either from its parent, as a parent edge, or, as a causal edge,
-- from an event before it that is not its parent, where no third event lies after the one and before
-- the other. Before and after are read off the counters of the vectors: none larger, one smaller.
pub compute_causal_edges-HasReason :
    (nodes : List TimelineNode) (events : List Event)
    → All (HasReason events) (compute_causal_edges nodes events)
unfolding compute_causal_edges
compute_causal_edges-HasReason nodes events =
    let every = All-In_itself events in
    edges_of-HasReason (node_map nodes) (node_map-HasOwnKey nodes) events events every every
