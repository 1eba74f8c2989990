-- ===== src/Web/Graph/Levels.antt =====
-- The levels of the causal graph (web/src/components/features/events/TraceDAGView.tsx).
use raceway.Prelude.{
  ℕ, zero, suc, ◌≤◌, ◌<◌, ◌≡◌, refl, subst, Bool, false, not, List, [], ◌∷◌, Option, none, some,
  length, count, count-lt, In, inl, inr, arith, Option-cases, Bool-cases, map,
}
use raceway.Text.{Text, ◌==◌, eq_iff, eq_refl}
use raceway.Maps.{contains, get, set}
use raceway.Web.Types.{Event}
use raceway.Web.Graph.{
  DagNode, DagLink, find_node, next_node, Levels, level_step, calculate_level, calculate_levels,
  dag_structure, node_of, links,
}

-- The events that a walk has not visited.
abbrev unvisited : List Text → Event → Bool
unvisited visited e = not (contains e.id visited)

find_node-In :
    (id : Text) (es : List Event) (e : Event) → find_node id es ≡ some e → In e es × (e.id ≡ id)
unfolding find_node
find_node-In id [] e h = absurd (ground (arith, h))
find_node-In id (x ∷ es) e h = elim (Bool-cases (x.id == id)) [
  | inl same ↦
      let here : x ≡ e = ground (arith, h, same) in
      (inl here, subst (λ (y : Event). y.id ≡ id) here ((eq_iff x.id id).0 same))
  | inr other ↦
      let later = find_node-In id es e (ground (arith, h, other)) in (inr later.0, later.1)
]

next_node-found :
    (id up : Text) (events : List Event)
    → next_node id events ≡ some up
    → (e : Event) × In e events × (e.id ≡ id)
unfolding next_node
next_node-found id up events h = elim (Option-cases (find_node id events)) [
  | inl e ↦ absurd (ground (arith, h, e))
  | inr (node, e) ↦ let found = find_node-In id events node e in (node, found.0, found.1)
]

-- A step to a parent leaves fewer events unvisited.
unvisited-fewer :
    (id up : Text) (events : List Event) (visited : List Text)
    → contains id visited ≡ false
    → next_node id events ≡ some up
    → count (unvisited (id ∷ visited)) events < count (unvisited visited) events
unfolding contains
unvisited-fewer id up events visited fresh h =
    let found = next_node-found id up events h in
    count-lt (unvisited (id ∷ visited)) (unvisited visited) found.0 events
      (λ b off. ground (arith, off)) (rw (found.2, contains, eq_refl id) refl)
      (rw (found.2, fresh) refl) found.1

abbrev Ends : Option (ℕ × Levels) → Type 0
Ends o = (r : ℕ × Levels) × (o ≡ some r)

level_step-Ends :
    (call : Text → List Text → Levels → Option (ℕ × Levels)) (events : List Event) (id : Text)
    (visited : List Text) (levels : Levels)
    → ((up : Text)
        → contains id visited ≡ false
        → next_node id events ≡ some up
        → Ends (call up (id ∷ visited) levels))
    → Ends (level_step call events id visited levels)
unfolding level_step
level_step-Ends call events id visited levels h = elim (Option-cases (get id levels)) [
  | inr (n, e) ↦ ((n, levels), rw (level_step, e) refl)
  | inl e ↦ elim (Bool-cases (contains id visited)) [
    | inl again ↦ ((0, levels), rw (level_step, e, again) refl)
    | inr fresh ↦ elim (Option-cases (next_node id events)) [
      | inl top ↦ ((0, set id 0 levels), rw (level_step, e, fresh, top) refl)
      | inr (up, f) ↦
          let above = h up fresh f in
          (
            (suc (above.0).0, set id (suc (above.0).0) (above.0).1),
            rw (level_step, e, fresh, f, above.1) refl,
          )
    ]
  ]
]

-- A walk ends with a level, if its calls are as many as there are events to visit.
calculate_level-Ends :
    (fuel : ℕ) (events : List Event) (id : Text) (visited : List Text) (levels : Levels)
    → count (unvisited visited) events ≤ fuel
    → Ends (calculate_level fuel events id visited levels)
unfolding calculate_level
calculate_level-Ends zero events id visited levels le =
    level_step-Ends (λ up seen l. none) events id visited levels
      (λ up fresh h. absurd (omega (arith, le, unvisited-fewer id up events visited fresh h)))
calculate_level-Ends (suc fuel) events id visited levels le =
    level_step-Ends (calculate_level fuel events) events id visited levels (λ up fresh h.
      calculate_level-Ends fuel events up (id ∷ visited) levels
        (omega (arith, le, unvisited-fewer id up events visited fresh h)))

count-length : (p : Event → Bool) (events : List Event) → count p events ≤ length events
count-length p [] = omega arith
count-length p (e ∷ events) = ground (arith, count-length p events)

calculate_levels-ends :
    (events rest : List Event) (levels : Levels)
    → (m : Levels) × (calculate_levels events rest levels ≡ some m)
unfolding calculate_levels
calculate_levels-ends events [] levels = (levels, refl)
calculate_levels-ends events (e ∷ rest) levels =
    let one =
      calculate_level-Ends (length events) events e.id [] levels
        (count-length (unvisited []) events) in
    let others = calculate_levels-ends events rest (one.0).1 in
    (others.0, rw (calculate_levels, one.1) others.1)

-- The graph of any events is made, also where parents form a circle: no walk to the parents needs
-- more nested calls than there are events.
pub dag_structure-ends :
    (events : List Event) → (g : List DagNode × List DagLink) × (dag_structure events ≡ some g)
unfolding dag_structure
dag_structure-ends events =
    let levels = calculate_levels-ends events events [] in
    ((map (node_of levels.0) events, links events), rw (dag_structure, levels.1) refl)
