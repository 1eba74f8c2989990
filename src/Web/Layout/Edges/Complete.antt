-- ===== src/Web/Layout/Edges/Complete.antt =====
-- The edges that `computeCausalEdges` of web/src/lib/debugger-layout.ts draws keep the order of the
-- events.
use raceway.Prelude.{
  ℕ, zero, suc, ◌≤◌, ◌<◌, ◌≡◌, Bool, true, false, ◌&&◌, List, arith, Bool-cases, inl, inr, In,
  In-any, All, All-In, count, count-lt,
}
use raceway.Text.{Text, ◌==◌, eq_iff}
use raceway.Web.Types.{Event}
use raceway.Web.Layout.Causality.{happens_before}
use raceway.Web.Layout.Order.{happens_before-IsStrictOrder}
use raceway.Web.Layout.Edges.{
  TimelineNode, EdgeType, TimelineEdge, is_between, has_intermediate, edges_of, node_map,
  compute_causal_edges,
}
use raceway.Web.Layout.Edges.Direct.{HasNode, In-edges_of, In-direct}

-- A path of edges leads from one event to the other.
pub data Joined (edges : List TimelineEdge) : Text → Text → Type 0 where
  edge :
      (s t : Text) (type : EdgeType)
      → In (record { source = s; target = t; type = type }) edges
      → Joined edges s t
  join : (s m t : Text) → Joined edges s m → Joined edges m t → Joined edges s t

module _ (nodes : List (Text × TimelineNode)) (events : List Event) where
  -- happens before one and after the other
  within : Event → Event → Event → Bool
  within o e m = happens_before o m && happens_before m e

  within_trans :
      (o m e : Event)
      → happens_before m e ≡ true
      → (x : Event) → within o m x ≡ true
      → within o e x ≡ true
  unfolding within
  within_trans o m e h x k = ground (arith, happens_before-IsStrictOrder.0 x m e, h, k)

  not_before_itself : (m : Event) → happens_before m m ≡ false
  not_before_itself m = elim (Bool-cases (happens_before m m)) [
    | inl h ↦ happens_before-IsStrictOrder.1 m m h
    | inr h ↦ h
  ]

  is_between-parts :
      (o e m : Event)
      → is_between o e m ≡ true
      → ((o.id == m.id) ≡ false)
        × ((m.id == e.id) ≡ false)
        × (happens_before o m ≡ true)
        × (happens_before m e ≡ true)
  unfolding is_between
  is_between-parts o e m h = (
    ground (arith, eq_iff o.id m.id, eq_iff m.id o.id, h),
    ground (arith, h),
    ground (arith, h),
    ground (arith, h),
  )

  -- One closer to either end, fewer events stand between.
  within-fewer :
      (o e m : Event)
      → In m events
      → is_between o e m ≡ true
      → (count (within o m) events < count (within o e) events)
        × (count (within m e) events < count (within o e) events)
  unfolding within is_between
  within-fewer o e m i h =
      let lower : happens_before o m ≡ true = ground (arith, h) in
      let upper : happens_before m e ≡ true = ground (arith, h) in
      (
        count-lt (within o m) (within o e) m events (within_trans o m e upper)
            (ground (arith, not_before_itself m)) (ground (arith, lower, upper)) i,
        count-lt (within m e) (within o e) m events
            (λ x k. ground (arith, happens_before-IsStrictOrder.0 o m x lower, k))
            (ground (arith, not_before_itself m)) (ground (arith, lower, upper)) i,
      )

  -- Two events with ids of their own, the first before the other.
  abbrev IsPair : Event → Event → Type 0
  IsPair o e = In o events × In e events × ((o.id == e.id) ≡ false) × (happens_before o e ≡ true)

  found_between :
      (o e : Event)
      → has_intermediate events o e ≡ true
      → (m : Event) × In m events × (is_between o e m ≡ true)
  unfolding has_intermediate
  found_between o e h = In-any (is_between o e) events h

  joined_step :
      (o e : Event)
      → All (HasNode nodes) events
      → IsPair o e
      → ((a b : Event)
          → count (within a b) events < count (within o e) events
          → IsPair a b
          → Joined (edges_of nodes events events) a.id b.id)
      → Joined (edges_of nodes events events) o.id e.id
  joined_step o e placed (io, ie, ne, before) closer =
      elim (Bool-cases (has_intermediate events o e)) [
        | inr nothing ↦
            let ho = All-In (HasNode nodes) o events placed io in
            let he = All-In (HasNode nodes) e events placed ie in
            let found = In-direct nodes events o e io ho he ne before nothing in
            edge o.id e.id found.0 (In-edges_of nodes events _ e events ie found.1)
        | inl some_between ↦
            let (m, im, h) = found_between o e some_between in
            let fewer = within-fewer o e m im h in
            let (ne_o, ne_e, lower, upper) = is_between-parts o e m h in
            join o.id m.id e.id (closer o m fewer.0 (io, im, ne_o, lower))
              (closer m e fewer.1 (im, ie, ne_e, upper))
      ]

  joined :
      (fuel : ℕ) (o e : Event)
      → count (within o e) events ≤ fuel
      → All (HasNode nodes) events
      → IsPair o e
      → Joined (edges_of nodes events events) o.id e.id
  joined zero o e le placed pair =
      joined_step o e placed pair (λ a b lt p. absurd (omega (arith, le, lt)))
  joined (suc fuel) o e le placed pair =
      joined_step o e placed pair (λ a b lt p. joined fuel a b (omega (arith, le, lt)) placed p)

-- Where every event has an id and a node, edges lead from each event to each that it happens before.
pub edges-Joined :
    (nodes : List TimelineNode) (events : List Event) (o e : Event)
    → All (HasNode (node_map nodes)) events
    → In o events
    → In e events
    → (o.id == e.id) ≡ false
    → happens_before o e ≡ true
    → Joined (compute_causal_edges nodes events) o.id e.id
unfolding compute_causal_edges
edges-Joined nodes events o e placed io ie ne before =
    let most = count (within (node_map nodes) events o e) events in
    joined (node_map nodes) events most o e (omega arith) placed (io, ie, ne, before)
