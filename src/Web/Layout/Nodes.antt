-- ===== src/Web/Layout/Nodes.antt =====
-- Every event of a layout of web/src/lib/debugger-layout.ts has a node, so its edges are complete.
use raceway.Prelude.{
  ℕ, suc, ◌+◌, ◌*◌, ◌/◌, Option-cases, ◌≡◌, refl, sym, subst, ap, ◌∙◌, ◌⊎◌, true, false, List, [],
  ◌∷◌, ◌++◌, map, some, arith, All, All-In, In, Bool-cases, inl, inr,
}
use raceway.Text.{Text, ◌==◌, eq_iff, is_truthy}
use raceway.Maps.{get, set, set_all, new_map, contains, contains-append, or_nil, get-set}
use raceway.Web.Types.{Event}
use raceway.Web.Layout.Causality.{happens_before}
use raceway.Web.Layout.Edges.{TimelineNode, node_map}
use raceway.Web.Layout.Edges.Direct.{HasNode}
use raceway.Web.Layout.Edges.Complete.{Joined, edges-Joined}
use raceway.Web.Layout.Timeline.{
  lane_height, lane_spacing, group_by_thread, node_at, lanes_from, nodes_of, sorted_events,
  compute_timeline_layout,
}
use raceway.Web.Layout.Lanes.{of_thread, group-get}
use raceway.Web.Layout.Sorting.{In-sorted, All-sorted}

abbrev ids : List TimelineNode → List Text
ids ns = map (λ n. n.id) ns

abbrev Found : Text → List (Text × TimelineNode) → Type 0
Found k m = (n : TimelineNode) × (get k m ≡ some n) × (n.id ≡ k)

set_all-Found :
    (k : Text) (ns : List TimelineNode) (m : List (Text × TimelineNode))
    → (contains k (ids ns) ≡ true) ⊎ Found k m
    → Found k (set_all (map (λ n. (n.id, n)) ns) m)
unfolding set_all contains
set_all-Found k [] m (inl h) = absurd (ground arith)
set_all-Found k [] m (inr found) = found
set_all-Found k (n ∷ ns) m h = set_all-Found k ns (set n.id n m) (elim (Bool-cases (n.id == k)) [
  | inl is ↦ inr (n, ground (arith, is, get-set k n.id n m), ground (arith, is, eq_iff n.id k))
  | inr other ↦ elim h [
    | inl later ↦ inl (ground (arith, other, later))
    | inr (a, there, same) ↦ inr (a, ground (arith, other, there, get-set k n.id n m), same)
  ]
])

contains-ids :
    (y i : ℕ) (e : Event) (es : List Event)
    → In e es
    → contains e.id (ids (map (node_at y i) es)) ≡ true
unfolding contains
contains-ids y i e [] h = absurd h
contains-ids y i e (f ∷ fs) (inl eq) = ground (arith, ap (λ x. x.id) eq, eq_iff f.id e.id)
contains-ids y i e (f ∷ fs) (inr h) = ground (arith, contains-ids y i e fs h)

ids-append : (ns ms : List TimelineNode) → ids (ns ++ ms) ≡ ids ns ++ ids ms
ids-append [] ms = refl
ids-append (n ∷ ns) ms = ap (λ r. n.id ∷ r) (ids-append ns ms)

contains-lanes :
    (i : ℕ) (t : Text) (e : Event) (es : List Event) (m : List (Text × List Event))
    → get t m ≡ some es
    → In e es
    → contains e.id (ids (nodes_of (lanes_from i m))) ≡ true
unfolding get nodes_of lanes_from
contains-lanes i t e es [] h ie = absurd (ground arith)
contains-lanes i t e es ((u, fs) ∷ m) h ie =
    let y : ℕ = i * (lane_height + lane_spacing) + lane_height / 2 in
    ap (contains e.id) (ids-append (map (node_at y i) fs) (nodes_of (lanes_from (suc i) m)))
    ∙ contains-append e.id (ids (map (node_at y i) fs)) (ids (nodes_of (lanes_from (suc i) m)))
    ∙ elim (Bool-cases (u == t)) [
      | inl is ↦ ground (arith, contains-ids y i e fs (subst (In e) (ground (arith, is, h)) ie))
      | inr other ↦ ground (arith, contains-lanes (suc i) t e es m (ground (arith, other, h)) ie)
    ]

In-of_thread : (e : Event) (es : List Event) → In e es → In e (of_thread e.metadata.thread_id es)
In-of_thread e [] i = absurd i
In-of_thread e (f ∷ fs) (inl eq) =
    ground (
      arith,
      ap (λ x. x.metadata.thread_id) eq,
      eq_iff f.metadata.thread_id e.metadata.thread_id,
      eq,
    )
In-of_thread e (f ∷ fs) (inr i) = ground (arith, In-of_thread e fs i)

group-In :
    (e : Event) (es : List Event)
    → In e es
    → (found : List Event) × (get e.metadata.thread_id (group_by_thread es []) ≡ some found)
      × In e found
unfolding get
group-In e es i =
    let t = e.metadata.thread_id in
    let shown = group-get t es [] in
    let inside = In-of_thread e es i in
    elim (Option-cases (get t (group_by_thread es []))) [
      | inl missing ↦ absurd (subst (In e) (sym shown ∙ ap or_nil missing) inside)
      | inr (found, there) ↦ (found, there, subst (In e) (sym shown ∙ ap or_nil there) inside)
    ]

event-HasNode :
    (e : Event) (es : List Event)
    → is_truthy e.id ≡ true
    → In e es
    → HasNode (node_map (nodes_of (lanes_from 0 (group_by_thread es [])))) e
unfolding node_map new_map
event-HasNode e es truthy i =
    let (found, there, inside) = group-In e es i in
    let m = group_by_thread es [] in
    let here = contains-lanes 0 e.metadata.thread_id e found m there inside in
    let (n, there_too, same) = set_all-Found e.id (nodes_of (lanes_from 0 m)) [] (inl here) in
    (truthy, n, there_too, same)

All-In_intro : (P : Event → Type 0) (es : List Event) → ((e : Event) → In e es → P e) → All P es
All-In_intro P [] h = tt
All-In_intro P (e ∷ es) h = (h e (inl refl), All-In_intro P es (λ f i. h f (inr i)))

-- Where every event has an id, the edges of a layout lose nothing of the order: they lead, in one
-- or more steps, from each event to each that it happens before and whose id is another.
pub layout-Joined :
    (get_time : Text → ℕ) (es : List Event) (width : ℕ) (o e : Event)
    → All (λ f. is_truthy f.id ≡ true) es
    → In o es
    → In e es
    → (o.id == e.id) ≡ false
    → happens_before o e ≡ true
    → Joined (compute_timeline_layout get_time es width).edges o.id e.id
unfolding compute_timeline_layout
layout-Joined get_time [] width o e truthy io ie ne before = absurd io
layout-Joined get_time (d ∷ ds) width o e truthy io ie ne before =
    let es = d ∷ ds in
    let sorted = sorted_events get_time es in
    let ok = All-sorted get_time (λ f. is_truthy f.id ≡ true) es truthy in
    edges-Joined (nodes_of (lanes_from 0 (group_by_thread sorted []))) sorted o e
      (All-In_intro (HasNode (node_map (nodes_of (lanes_from 0 (group_by_thread sorted [])))))
        sorted
        (λ f i. event-HasNode f sorted (All-In (λ g. is_truthy g.id ≡ true) f sorted ok i) i))
      (In-sorted get_time o es io) (In-sorted get_time e es ie) ne before
