-- ===== src/Web/Tree/Shown.antt =====
-- The groups show each event below a request or an event without a parent, and no other
-- (web/src/components/features/events/TreeView.tsx).
use raceway.Prelude.{
  In-map_source, ℕ, zero, suc, ◌≡◌, ◌↔◌, sym, subst, inl, inr, true, not, List, ◌++◌, none, some,
  arith, In, In-append_left, In-append_right, In-append_cases, Option-cases, Bool-cases, length,
  map, concat, traverse-In, In-traverse, In-concat_piece, filter, In-filter, In-filter_both,
  sort_by, In-sort_by, In-sort_by_back,
}
use raceway.Text.{Text}
use raceway.Maps.{contains, Distinct}
use raceway.Web.Types.{Event}
use raceway.Web.Kinds.{Browser}
use raceway.Web.Graph.{parent_of}
use raceway.Web.Tree.{
  is_http_request, is_root, Group, group_of, get_transaction_title, get_event_kind, processed,
  ungrouped_roots, has_no_parent, transaction_groups,
}
use raceway.Web.Tree.Chains.{IsChild}
use raceway.Web.Tree.Ends.{IsRanked, Parts, transaction_groups-Parts}
use raceway.Web.Tree.Members.{IsRooted, group_of-IsClosed, group_of-AreRooted}
use raceway.Web.Tree.Cover.{roots-http, root_among, IsGrouped, every_rooted}
use raceway.Maps.Named.{map-contains, Distinct-same}

no_parent : (e : Event) → has_no_parent e ≡ true → parent_of e ≡ none
unfolding has_no_parent
no_parent e h = elim (Option-cases (parent_of e)) [
  | inl top ↦ top
  | inr (id, up) ↦ absurd (ground (arith, h, up))
]

has_no_parent-top : (e : Event) → parent_of e ≡ none → has_no_parent e ≡ true
unfolding has_no_parent
has_no_parent-top e top = ground (arith, top)

rooted_In : (events : List Event) (n : ℕ) (e : Event) → IsRooted events n e → In e events
rooted_In events zero e h = h.0
rooted_In events (suc n) e h = h.0

module _ (events : List Event) (rank : Text → ℕ) (ranked : IsRanked events rank) (browser : Browser)
    (get_time : Text → ℕ) (roots : List Event) (groups others : List Group)
    (parts : Parts events rank ranked browser get_time roots groups others) where
  -- Each group is the one of an event that is rooted.
  group_source :
      (g : Group)
      → In g (groups ++ others)
      → (title : Event → Text) × (root : Event) × (k : ℕ) × (group_of browser get_time title events
            root
          ≡ some g)
        × IsRooted events k root
  unfolding ungrouped_roots
  group_source g i = elim (In-append_cases g groups others i) [
    | inl at ↦
        let (root, made, there) =
          In-traverse (group_of browser get_time (get_transaction_title browser) events) g roots
            groups parts.1 at in
        (get_transaction_title browser, root, 0, made, roots-http events root roots parts.0 there)
    | inr at ↦
        let (root, made, there) =
          In-traverse (group_of browser get_time (λ r. get_event_kind browser r.kind) events) g
            (ungrouped_roots groups events) others parts.2 at in
        let top =
          In-filter_both has_no_parent root
            (filter (λ e. not (contains e.id (processed groups))) events) there in
        let free =
          In-filter_both (λ (e : Event). not (contains e.id (processed groups))) root events
            top.0 in
        ((λ r. get_event_kind browser r.kind), root, 0, made, (free.0, inr (no_parent root top.1)))
  ]

  IsGrouped-IsRooted : (e : Event) → IsGrouped (groups ++ others) e → (n : ℕ) × IsRooted events n e
  IsGrouped-IsRooted e (g, i, j) =
      let (title, root, k, made, rooted) = group_source g i in
      group_of-AreRooted events browser get_time title root g k made rooted e j

  IsGrouped-closed :
      (y x : Event)
      → IsGrouped (groups ++ others) y
      → IsChild events y.id x
      → IsGrouped (groups ++ others) x
  IsGrouped-closed y x (g, i, j) child =
      let (title, root, k, made, rooted) = group_source g i in
      (g, i, (group_of-IsClosed events browser get_time title root g made).1 y x j child)

  request-IsGrouped :
      (r : Event)
      → In r events
      → is_http_request r ≡ true
      → is_root (length events) events r ≡ some true
      → IsGrouped (groups ++ others) r
  request-IsGrouped r i http root =
      let title = get_transaction_title browser in
      let at = root_among events r roots parts.0 i http root in
      let (g, made, there) =
        traverse-In (group_of browser get_time title events) r roots groups parts.1 at in
      (
        g,
        In-append_left g groups others there,
        (group_of-IsClosed events browser get_time title r g made).0,
      )

  top-IsGrouped :
      Distinct (map (λ (e : Event). e.id) events)
      → (e : Event) → In e events
      → parent_of e ≡ none
      → IsGrouped (groups ++ others) e
  unfolding ungrouped_roots
  top-IsGrouped distinct e i top = elim (Bool-cases (contains e.id (processed groups))) [
    | inl seen ↦
        let (x, at, same) =
          map-contains (λ (x : Event). x.id) e.id (concat (map (λ g. g.all_events) groups)) seen in
        let (list, of_group, within) = In-concat_piece x (map (λ g. g.all_events) groups) at in
        let (g, there, all) = In-map_source (λ (g : Group). g.all_events) list groups of_group in
        let grouped : IsGrouped (groups ++ others) x =
          (g, In-append_left g groups others there, subst (In x) (sym all) within) in
        let rooted = IsGrouped-IsRooted x grouped in
        let one =
          Distinct-same (λ (x : Event). x.id) x e events distinct
            (rooted_In events rooted.0 x rooted.1) i same in
        subst (IsGrouped (groups ++ others)) one grouped
    | inr fresh ↦
        let title : Event → Text = λ r. get_event_kind browser r.kind in
        let free =
          In-filter (λ (x : Event). not (contains x.id (processed groups))) e events i
            (ground (arith, fresh)) in
        let at =
          In-filter has_no_parent e (filter (λ x. not (contains x.id (processed groups))) events)
            free (has_no_parent-top e top) in
        let (g, made, there) =
          traverse-In (group_of browser get_time title events) e (ungrouped_roots groups events)
            others parts.2 at in
        (
          g,
          In-append_right g groups others there,
          (group_of-IsClosed events browser get_time title e g made).0,
        )
  ]

-- If each event has a greater rank than its parent, and no two events have the same id, then the view
-- makes its groups, and an event is in one of them just if some number of steps from it to parents
-- among the events leads to a request or to an event without a parent.
pub transaction_groups-IsGrouped :
    (browser : Browser) (get_time : Text → ℕ) (events : List Event) (rank : Text → ℕ)
    → IsRanked events rank
    → Distinct (map (λ (e : Event). e.id) events)
    → (shown : List Group) × (transaction_groups browser get_time events ≡ some shown)
      × ((e : Event) → IsGrouped shown e ↔ (n : ℕ) × IsRooted events n e)
unfolding sort_by
transaction_groups-IsGrouped browser get_time events rank ranked distinct =
    let (roots, groups, others, parts) =
      transaction_groups-Parts events rank ranked browser get_time in
    let list = groups ++ others in
    let key : Group → ℕ = λ g. g.start_time in
    (
      sort_by key list,
      parts.3,
      (λ e. (
        (λ (g, i, j).
            IsGrouped-IsRooted events rank ranked browser get_time roots groups others parts e
              (g, In-sort_by_back key g list i, j)),
        (λ (n, rooted).
            let (g, i, j) =
              every_rooted events rank ranked (IsGrouped list)
                (IsGrouped-closed events rank ranked browser get_time roots groups others parts)
                (request-IsGrouped events rank ranked browser get_time roots groups others parts)
                (top-IsGrouped events rank ranked browser get_time roots groups others parts
                  distinct)
                n e rooted in
            (g, In-sort_by key g list i, j)),
      )),
    )
