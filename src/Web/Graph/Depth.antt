-- ===== src/Web/Graph/Depth.antt =====
-- The level of a node is its depth (web/src/components/features/events/TraceDAGView.tsx).
use raceway.Prelude.{
  ℕ, zero, suc, ◌<◌, ◌≡◌, refl, sym, ap, subst, false, List, [], ◌∷◌, Option, none, some, length,
  inl, inr, All, arith, Option-cases, Bool-cases, map,
}
use raceway.Text.{Text, ◌==◌, eq_iff, eq_refl}
use raceway.Maps.{contains, get, set, get-set}
use raceway.Web.Types.{Event}
use raceway.Web.Graph.Levels.{dag_structure-ends}
use raceway.Web.Graph.{
  DagNode, DagLink, next_node, Levels, level_step, calculate_level, calculate_levels, dag_structure,
  node_of, or_zero,
}

-- The walk from the node to its parents ends after so many steps.
abbrev pub IsLevel : List Event → Text → ℕ → Type 0
IsLevel events id zero = next_node id events ≡ none
IsLevel events id (suc n) = (up : Text) × (next_node id events ≡ some up) × IsLevel events up n

-- Parents have smaller ranks, so that they form no circle.
abbrev pub IsAcyclic : List Event → (Text → ℕ) → Type 0
IsAcyclic events rank = (id up : Text) → next_node id events ≡ some up → rank up < rank id

module _ (events : List Event) where
  abbrev AreLevels : Levels → Type 0
  AreLevels m = (id : Text) (n : ℕ) → get id m ≡ some n → IsLevel events id n

  abbrev Keeps : Levels → Levels → Type 0
  Keeps m m1 = (id : Text) (n : ℕ) → get id m ≡ some n → get id m1 ≡ some n

  -- What a walk from a node gives, if it ends.
  abbrev IsWalk : Text → Levels → Option (ℕ × Levels) → Type 0
  IsWalk id m none = Unit
  IsWalk id m (some r) =
      IsLevel events id r.0 × AreLevels r.1 × Keeps m r.1 × (get id r.1 ≡ some r.0)

  AreLevels-set :
      (id : Text) (n : ℕ) (m : Levels) → IsLevel events id n → AreLevels m → AreLevels (set id n m)
  AreLevels-set id n m level h j k e = elim (Bool-cases (id == j)) [
    | inl same ↦
        let here : n ≡ k = ground (arith, same, e, get-set j id n m) in
        subst (λ i. IsLevel events i k) ((eq_iff id j).0 same)
          (subst (IsLevel events id) here level)
    | inr other ↦ h j k (ground (arith, other, e, get-set j id n m))
  ]

  -- An entry for a node that had none leaves the others.
  Keeps-set :
      (id : Text) (n : ℕ) (m m1 : Levels) → get id m ≡ none → Keeps m m1 → Keeps m (set id n m1)
  Keeps-set id n m m1 new keeps j k e = elim (Bool-cases (id == j)) [
    | inl same ↦ absurd (ground (arith, new, e, ap (λ i. get i m) ((eq_iff id j).0 same)))
    | inr other ↦ ground (arith, other, keeps j k e, get-set j id n m1)
  ]

  get-set_same : (id : Text) (n : ℕ) (m : Levels) → get id (set id n m) ≡ some n
  get-set_same id n m = ground (arith, get-set id id n m, eq_refl id)

  level_step-IsWalk :
      (call : Text → List Text → Levels → Option (ℕ × Levels)) (id : Text) (visited : List Text)
      (m : Levels)
      → contains id visited ≡ false
      → AreLevels m
      → ((up : Text) → next_node id events ≡ some up → IsWalk up m (call up (id ∷ visited) m))
      → IsWalk id m (level_step call events id visited m)
  unfolding level_step
  level_step-IsWalk call id visited m fresh levels h = elim (Option-cases (get id m)) [
    | inr (n, e) ↦ rw (level_step, e) (levels id n e, levels, (λ j k f. f), e)
    | inl e ↦ elim (Option-cases (next_node id events)) [
      | inl top ↦
          rw (level_step, e, fresh, top)
            (
              top,
              AreLevels-set id 0 m top levels,
              Keeps-set id 0 m m e (λ j k f. f),
              get-set_same id 0 m,
            )
      | inr (up, f) ↦ elim (Option-cases (call up (id ∷ visited) m)) [
        | inl stuck ↦ rw (level_step, e, fresh, f, stuck) tt
        | inr (r, g) ↦
            let above = subst (IsWalk up m) g (h up f) in
            let level : IsLevel events id (suc r.0) = (up, f, above.0) in
            rw (level_step, e, fresh, f, g)
              (
                level,
                AreLevels-set id (suc r.0) r.1 level above.1,
                Keeps-set id (suc r.0) m r.1 e above.2,
                get-set_same id (suc r.0) r.1,
              )
      ]
    ]
  ]

  module _ (rank : Text → ℕ) (acyclic : IsAcyclic events rank) where
    -- A node whose rank is below those of the visited nodes is not visited.
    fresh_below :
        (id : Text) (visited : List Text)
        → All (λ v. rank id < rank v) visited
        → contains id visited ≡ false
    unfolding contains
    fresh_below id [] h = refl
    fresh_below id (v ∷ visited) h =
        ground (arith, h.0, fresh_below id visited h.1, eq_iff v id, ap rank)

    lower :
        (id up : Text) (visited : List Text)
        → rank up < rank id
        → All (λ v. rank id < rank v) visited
        → All (λ v. rank up < rank v) visited
    lower id up [] lt h = tt
    lower id up (v ∷ visited) lt h = (omega (arith, lt, h.0), lower id up visited lt h.1)

    calculate_level-IsWalk :
        (fuel : ℕ) (id : Text) (visited : List Text) (m : Levels)
        → All (λ v. rank id < rank v) visited
        → AreLevels m
        → IsWalk id m (calculate_level fuel events id visited m)
    unfolding calculate_level
    calculate_level-IsWalk zero id visited m below levels =
        level_step-IsWalk (λ up seen l. none) id visited m (fresh_below id visited below) levels
          (λ up h. tt)
    calculate_level-IsWalk (suc fuel) id visited m below levels =
        level_step-IsWalk (calculate_level fuel events) id visited m (fresh_below id visited below)
          levels
          (λ up h.
            let lt = acyclic id up h in
            calculate_level-IsWalk fuel up (id ∷ visited) m (lt, lower id up visited lt below)
              levels)

    -- What the loop over the events leaves.
    abbrev HasLevels : List Event → Levels → Option Levels → Type 0
    HasLevels rest m none = Unit
    HasLevels rest m (some m1) =
        AreLevels m1 × Keeps m m1 × All (λ e. (n : ℕ) × (get e.id m1 ≡ some n)) rest

    calculate_levels-HasLevels :
        (rest : List Event) (m : Levels)
        → AreLevels m
        → HasLevels rest m (calculate_levels events rest m)
    unfolding calculate_levels
    calculate_levels-HasLevels [] m levels = (levels, (λ j k e. e), tt)
    calculate_levels-HasLevels (e ∷ rest) m levels =
        let walk = calculate_level-IsWalk (length events) e.id [] m tt levels in
        elim (Option-cases (calculate_level (length events) events e.id [] m)) [
          | inl stuck ↦ rw (calculate_levels, stuck) tt
          | inr (r, f) ↦
              let one = subst (IsWalk e.id m) f walk in
              let others = calculate_levels-HasLevels rest r.1 one.1 in
              elim (Option-cases (calculate_levels events rest r.1)) [
                | inl stuck ↦ rw (calculate_levels, f, stuck) tt
                | inr (m1, g) ↦
                    let ends = subst (HasLevels rest r.1) g others in
                    rw (calculate_levels, f, g)
                      (
                        ends.0,
                        (λ j k h. ends.1 j k (one.2 j k h)),
                        ((r.0, ends.1 e.id r.0 one.3), ends.2),
                      )
              ]
        ]

    nodes-IsLevel :
        (m : Levels) (rest : List Event)
        → AreLevels m
        → All (λ e. (n : ℕ) × (get e.id m ≡ some n)) rest
        → All (λ (node : DagNode). IsLevel events node.id node.level) (map (node_of m) rest)
    unfolding node_of
    nodes-IsLevel m [] levels h = tt
    nodes-IsLevel m (e ∷ rest) levels ((n, here), h) = (
      subst (λ o. IsLevel events e.id (or_zero o)) (sym here) (levels e.id n here),
      nodes-IsLevel m rest levels h,
    )

made-IsLevel :
    (events : List Event) (rank : Text → ℕ) (nodes : List DagNode) (ls : List DagLink)
    → IsAcyclic events rank
    → dag_structure events ≡ some (nodes, ls)
    → All (λ (node : DagNode). IsLevel events node.id node.level) nodes
unfolding dag_structure
made-IsLevel events rank nodes ls acyclic h =
    let has =
      calculate_levels-HasLevels events rank acyclic events []
        (λ j k e. absurd (ground (arith, e))) in
    elim (Option-cases (calculate_levels events events [])) [
      | inl stuck ↦ absurd (ground (arith, h, stuck))
      | inr (m, e) ↦
          let levels = subst (HasLevels events rank acyclic events []) e has in
          let same : map (node_of m) events ≡ nodes = ground (arith, h, e) in
          subst (All (λ (node : DagNode). IsLevel events node.id node.level)) same
            (nodes-IsLevel events rank acyclic m events levels.0 levels.2)
    ]

-- Where parents form no circle, the graph of the events is made, and in it the level of each node is
-- the number of steps from the node to a node without a parent, or to a parent that is not among the
-- events.
pub dag_structure-IsLevel :
    (events : List Event) (rank : Text → ℕ)
    → IsAcyclic events rank
    → (g : List DagNode × List DagLink) × (dag_structure events ≡ some g)
      × All (λ (node : DagNode). IsLevel events node.id node.level) g.0
dag_structure-IsLevel events rank acyclic =
    let made = dag_structure-ends events in
    (made.0, made.1, made-IsLevel events rank (made.0).0 (made.0).1 acyclic made.1)
