-- ===== src/Web/Tree/Ends.antt =====
-- The groups are made, if parents form no circle (web/src/components/features/events/TreeView.tsx).
use raceway.Prelude.{
  ℕ, zero, suc, ◌<◌, ◌≤◌, ltb, count, count-lt, count-length, ◌≡◌, refl, sym, ap, subst, ◌∙◌, inl,
  inr, Bool, true, false, List, [], ◌∷◌, ◌++◌, Option, none, some, arith, In, Option-cases,
  Bool-cases, sort_by, if◌then◌else◌, length, traverse, concat, traverse-total,
}
use raceway.Text.{Text, ◌==◌, eq_iff}
use raceway.Web.Types.{Event}
use raceway.Web.Kinds.{Browser}
use raceway.Web.Graph.{parent_of, find_node}
use raceway.Web.Tree.{
  children_map, children_of, descendants_step, get_all_descendants, is_http_request, is_root_step,
  is_root, is_transaction_root, if_root, transaction_roots, Group, group_of, new_group, with_others,
  sorted_groups, ungrouped_roots, get_event_kind, get_transaction_title, transaction_groups,
  with_roots,
}
use raceway.Web.Tree.Chains.{In-children_map}

-- An event has a greater rank than the id of its parent, so that parents form no circle.
abbrev pub IsRanked : List Event → (Text → ℕ) → Type 0
IsRanked events rank =
    (e : Event) (id : Text) → In e events → parent_of e ≡ some id → rank id < rank e.id

pub find_node-In :
    (id : Text) (events : List Event) (e : Event)
    → find_node id events ≡ some e
    → In e events × (e.id ≡ id)
unfolding find_node
find_node-In id [] e h = absurd (ground (arith, h))
find_node-In id (f ∷ fs) e h = elim (Bool-cases (f.id == id)) [
  | inl here ↦
      let same : f ≡ e = ground (arith, h, here) in
      (inl same, sym (ap (λ (x : Event). x.id) same) ∙ (eq_iff f.id id).0 here)
  | inr on ↦ let later = find_node-In id fs e (ground (arith, h, on)) in (inr later.0, later.1)
]

module _ (events : List Event) (rank : Text → ℕ) (ranked : IsRanked events rank) where
  abbrev above_rank : Text → Event → Bool
  above_rank id e = ltb (rank id) (rank e.id)

  abbrev pub below_rank : Text → Event → Bool
  below_rank id e = ltb (rank e.id) (rank id)

  descendants_step-total :
      (call : Text → Option (List Event)) (id : Text)
      → ((e : Event)
          → In e (children_of (children_map events) id)
          → (l : List Event) × (call e.id ≡ some l))
      → (l : List Event) × (descendants_step call (children_map events) id ≡ some l)
  unfolding descendants_step
  descendants_step-total call id h =
      let all =
        traverse-total (λ (e : Event). call e.id) (children_of (children_map events) id) h in
      (children_of (children_map events) id ++ concat all.0, rw (all.1) refl)

  above-lt :
      (e : Event) (id : Text)
      → In e events
      → parent_of e ≡ some id
      → count (above_rank e.id) events < count (above_rank id) events
  above-lt e id i up =
      let lt = ranked e id i up in
      count-lt (above_rank e.id) (above_rank id) e events (λ b on. ground (arith, lt, on))
        (ground arith) (ground (arith, lt)) i

  get_all_descendants-total :
      (n : ℕ) (id : Text)
      → count (above_rank id) events ≤ n
      → (l : List Event) × (get_all_descendants n (children_map events) id ≡ some l)
  unfolding get_all_descendants
  get_all_descendants-total zero id le =
      descendants_step-total (λ i. none) id
        (λ e i.
          let child = (In-children_map e id events).0 i in
          absurd (omega (arith, le, above-lt e id child.0 child.1)))
  get_all_descendants-total (suc n) id le =
      descendants_step-total (get_all_descendants n (children_map events)) id (λ e i.
        let child = (In-children_map e id events).0 i in
        get_all_descendants-total n e.id (omega (arith, le, above-lt e id child.0 child.1)))

  below-lt :
      (p e : Event)
      → In p events
      → rank p.id < rank e.id
      → count (below_rank p.id) events < count (below_rank e.id) events
  below-lt p e i lt =
      count-lt (below_rank p.id) (below_rank e.id) p events (λ b on. ground (arith, lt, on))
        (ground arith) (ground (arith, lt)) i

  is_root_step-total :
      (next : Event → Option Bool) (e : Event)
      → In e events
      → ((p : Event) → In p events → rank p.id < rank e.id → (b : Bool) × (next p ≡ some b))
      → (b : Bool) × (is_root_step next events e ≡ some b)
  unfolding is_root_step
  is_root_step-total next e i h = elim (Option-cases (parent_of e)) [
    | inl top ↦ (true, rw (is_root_step, top) refl)
    | inr (id, up) ↦ elim (Option-cases (find_node id events)) [
      | inl gone ↦ (true, rw (is_root_step, up, gone) refl)
      | inr (p, found) ↦ elim (Bool-cases (is_http_request p)) [
        | inl http ↦ (false, rw (is_root_step, up, found, http) refl)
        | inr plain ↦
            let at = find_node-In id events p found in
            let next_one =
              h p at.0 (subst (λ t. rank t < rank e.id) (sym at.1) (ranked e id i up)) in
            (next_one.0, rw (is_root_step, up, found, plain) next_one.1)
      ]
    ]
  ]

  pub is_root-total :
      (n : ℕ) (e : Event)
      → In e events
      → count (below_rank e.id) events ≤ n
      → (b : Bool) × (is_root n events e ≡ some b)
  unfolding is_root
  is_root-total zero e i le =
      is_root_step-total (λ p. none) e i (λ p j lt. absurd (omega (arith, le, below-lt p e j lt)))
  is_root-total (suc n) e i le =
      is_root_step-total (is_root n events) e i
        (λ p j lt. is_root-total n p j (omega (arith, le, below-lt p e j lt)))

  transaction_roots-total : (roots : List Event) × (transaction_roots events ≡ some roots)
  unfolding transaction_roots is_transaction_root
  transaction_roots-total =
      let all =
        traverse-total (λ (e : Event). if_root e (is_transaction_root events e)) events
          (λ e i. elim (Bool-cases (is_http_request e)) [
            | inl http ↦
                let root =
                  is_root-total (length events) e i (count-length (below_rank e.id) events) in
                ((if root.0 then e ∷ [] else []), rw (is_transaction_root, http, root.1) refl)
            | inr plain ↦ ([], rw (is_transaction_root, plain) refl)
          ]) in
      (concat all.0, rw (transaction_roots, all.1) refl)

  module _ (browser : Browser) (get_time : Text → ℕ) where
    groups-total :
        (title : Event → Text) (roots : List Event)
        → (groups : List Group) × (traverse (group_of browser get_time title events) roots
            ≡ some groups)
    unfolding group_of
    groups-total title roots = traverse-total (group_of browser get_time title events) roots (λ e i.
        let below =
          get_all_descendants-total (length events) e.id (count-length (above_rank e.id) events) in
        (new_group browser get_time title e below.0, rw (group_of, below.1) refl))

    -- The roots, the groups of the transactions, the other groups, and that the view has them all.
    abbrev pub Parts : List Event → List Group → List Group → Type 0
    Parts roots groups others =
        (transaction_roots events ≡ some roots)
        × (traverse (group_of browser get_time (get_transaction_title browser) events) roots
            ≡ some groups)
        × (traverse (group_of browser get_time (λ root. get_event_kind browser root.kind) events)
              (ungrouped_roots groups events)
            ≡ some others)
        × (transaction_groups browser get_time events
            ≡ some (sort_by (λ g. g.start_time) (groups ++ others)))

    pub transaction_groups-Parts :
        (roots : List Event) × (groups : List Group) × (others : List Group) × Parts roots groups
          others
    unfolding transaction_groups sort_by with_roots with_others sorted_groups
    transaction_groups-Parts =
        let roots = transaction_roots-total in
        let groups = groups-total (get_transaction_title browser) roots.0 in
        let others =
          groups-total (λ root. get_event_kind browser root.kind)
            (ungrouped_roots groups.0 events) in
        (
          roots.0,
          groups.0,
          others.0,
          (roots.1, groups.1, others.1, rw (transaction_groups, roots.1, groups.1, others.1) refl),
        )
