-- ===== src/Web/Graph/Tests.antt =====
-- The causal graph of few events (web/src/components/features/events/TraceDAGView.tsx).
use raceway.Prelude.{ℕ, ◌≡◌, List, [], ◌∷◌, some, All, arith, if◌then◌else◌}
use raceway.Text.{Text, ◌==◌}
use raceway.Web.Types.{Event}
use raceway.Web.Tests.{first, second}
use raceway.Web.Graph.{DagNode, DagLink, dag_structure, next_node, find_node, parent_of}
use raceway.Web.Graph.Levels.{dag_structure-ends}
use raceway.Web.Graph.Depth.{IsLevel, IsAcyclic, dag_structure-IsLevel}

-- Two events that are each other's parents.
abbrev circle : List Event
circle =
    record first { parent_id = some second.id } ∷ record second { parent_id = some first.id } ∷ []

dag_structure-ends_example : (g : List DagNode × List DagLink) × (dag_structure circle ≡ some g)
dag_structure-ends_example = dag_structure-ends circle

abbrev family : List Event
family = first ∷ record second { parent_id = some first.id } ∷ []

abbrev rank : Text → ℕ
rank id = if id == second.id then 1 else 0

family-IsAcyclic : IsAcyclic family rank
unfolding next_node find_node parent_of ◌==◌
family-IsAcyclic id up h = ground arith

dag_structure-IsLevel_example :
    (g : List DagNode × List DagLink) × (dag_structure family ≡ some g)
    × All (λ (node : DagNode). IsLevel family node.id node.level) g.0
dag_structure-IsLevel_example = dag_structure-IsLevel family rank family-IsAcyclic
