-- ===== src/Web/Tree/Tests.antt =====
-- The groups of few events (web/src/components/features/events/TreeView.tsx).
use raceway.Prelude.{
  ℕ, ◌≡◌, ◌↔◌, refl, subst, ◌<◌, inl, inr, List, [], ◌∷◌, Option, some, none, map, arith,
  if◌then◌else◌,
}
use raceway.Text.{Text, ◌==◌, codes}
use raceway.Json.{field, end, str}
use raceway.Maps.{Distinct, contains}
use raceway.Web.Types.{Event}
use raceway.Web.Kinds.{Browser}
use raceway.Web.Tests.{first, second, get_time}
use raceway.Web.Graph.{parent_of}
use raceway.Web.Tree.{Group, transaction_groups, with_roots, with_others, sorted_groups}
use raceway.Web.Tree.Cover.{IsGrouped}
use raceway.Web.Tree.Ends.{IsRanked}
use raceway.Web.Tree.Members.{IsRooted}
use raceway.Web.Tree.Shown.{transaction_groups-IsGrouped}

abbrev browser : Browser
browser = record { parse_url = λ url. none; to_text = λ json. [] }

-- A request and what it calls.
abbrev family : List Event
unfolding codes
family =
    record second { parent_id = some first.id }
    ∷ record first { kind = field (codes "HttpRequest") (str []) end }
    ∷ []

abbrev orphan : Event
orphan = record second { parent_id = some first.id }

abbrev ids : Option (List Group) → Option (List (List Text))
ids none = none
ids (some groups) = some (map (λ g. map (λ e. e.id) g.all_events) groups)

family-one_group :
    ids (transaction_groups browser get_time family) ≡ some ((first.id ∷ second.id ∷ []) ∷ [])
unfolding transaction_groups with_roots with_others sorted_groups ◌==◌
family-one_group = refl

-- An event whose parent is not among the events is not shown.
orphan-not_shown : transaction_groups browser get_time (orphan ∷ []) ≡ some []
unfolding transaction_groups with_roots with_others sorted_groups ◌==◌
orphan-not_shown = refl

-- A request below an event that is no request is in two groups.
below_other-two_groups :
    ids (
      transaction_groups browser get_time (
        first
        ∷ record second {
          parent_id = some first.id;
          kind = field (codes "HttpRequest") (str []) end;
        }
        ∷ []))
    ≡ some ((second.id ∷ []) ∷ (first.id ∷ second.id ∷ []) ∷ [])
unfolding transaction_groups with_roots with_others sorted_groups ◌==◌ codes
below_other-two_groups = refl

abbrev rank : Text → ℕ
rank id = if id == second.id then 1 else 0

family-IsRanked : IsRanked family rank
unfolding parent_of ◌==◌ family
family-IsRanked e id (inl same) up =
    subst (λ (x : Event). parent_of x ≡ some id → rank id < rank x.id) same (λ u. ground (arith, u))
      up
family-IsRanked e id (inr (inl same)) up =
    subst (λ (x : Event). parent_of x ≡ some id → rank id < rank x.id) same (λ u. ground (arith, u))
      up
family-IsRanked e id (inr (inr bad)) up = absurd bad

family-Distinct : Distinct (map (λ (e : Event). e.id) family)
unfolding contains ◌==◌ family
family-Distinct = (refl, (refl, tt))

transaction_groups-IsGrouped_example :
    (shown : List Group) × (transaction_groups browser get_time family ≡ some shown)
    × ((e : Event) → IsGrouped shown e ↔ (n : ℕ) × IsRooted family n e)
transaction_groups-IsGrouped_example =
    transaction_groups-IsGrouped browser get_time family rank family-IsRanked family-Distinct
