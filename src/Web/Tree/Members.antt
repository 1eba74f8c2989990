-- ===== src/Web/Tree/Members.antt =====
-- What is in the groups (web/src/components/features/events/TreeView.tsx).
use raceway.Prelude.{
  ℕ, zero, suc, ◌≡◌, refl, sym, ap, subst, ◌∙◌, ◌⊎◌, inl, inr, true, List, ◌∷◌, ◌++◌, Option, none,
  some, arith, In, In-append_left, In-append_right, In-append_cases, length, traverse, concat,
  traverse-In, In-traverse, In-concat, In-concat_piece,
}
use raceway.Text.{Text}
use raceway.Web.Types.{Event}
use raceway.Web.Kinds.{Browser}
use raceway.Web.Graph.{parent_of}
use raceway.Web.Tree.{
  children_map, children_of, after, descendants_step, get_all_descendants, is_http_request, Group,
  group_of, new_group, if_found,
}
use raceway.Web.Tree.Chains.{IsChild, In-children_map}

-- So many steps from the event to its parents lead to a request or to an event without a parent.
abbrev pub IsRooted : List Event → ℕ → Event → Type 0
IsRooted events zero e = In e events × ((is_http_request e ≡ true) ⊎ (parent_of e ≡ none))
IsRooted events (suc n) e =
    In e events × (p : Event) × (parent_of e ≡ some p.id) × IsRooted events n p

pub after-parts :
    (children : List Event) (o : Option (List (List Event))) (l : List Event)
    → after children o ≡ some l
    → (pieces : List (List Event)) × (o ≡ some pieces) × (children ++ concat pieces ≡ l)
after-parts children none l h = absurd (ground (arith, h))
after-parts children (some pieces) l h = (pieces, refl, ground (arith, h))

module _ (events : List Event) where
  abbrev HasChildren : Text → List Event → Type 0
  HasChildren id l = (x : Event) → IsChild events id x → In x l

  abbrev pub IsClosed : List Event → Type 0
  IsClosed l = (y x : Event) → In y l → IsChild events y.id x → In x l

  descendants_step-IsClosed :
      (call : Text → Option (List Event)) (id : Text) (l : List Event)
      → ((i : Text) (k : List Event) → call i ≡ some k → HasChildren i k × IsClosed k)
      → descendants_step call (children_map events) id ≡ some l
      → HasChildren id l × IsClosed l
  unfolding descendants_step
  descendants_step-IsClosed call id l ih h =
      let children = children_of (children_map events) id in
      let (pieces, made, whole) =
        after-parts children (traverse (λ (c : Event). call c.id) children) l h in
      (
        (λ x c.
            subst (In x) whole
              (In-append_left x children (concat pieces) ((In-children_map x id events).1 c))),
        (λ y x i c. subst (In x) whole (
            In-append_right x children (concat pieces)
              (elim (In-append_cases y children (concat pieces) (subst (In y) (sym whole) i)) [
                | inl child ↦
                    let piece =
                      traverse-In (λ (c : Event). call c.id) y children pieces made child in
                    In-concat x piece.0 pieces ((ih y.id piece.0 piece.1).0 x c) piece.2
                | inr deep ↦
                    let (piece, at, within) = In-concat_piece y pieces deep in
                    let source =
                      In-traverse (λ (c : Event). call c.id) piece children pieces made at in
                    In-concat x piece pieces ((ih (source.0).id piece source.1).1 y x within c) at
              ]))),
      )

  get_all_descendants-IsClosed :
      (n : ℕ) (id : Text) (l : List Event)
      → get_all_descendants n (children_map events) id ≡ some l
      → HasChildren id l × IsClosed l
  unfolding get_all_descendants
  get_all_descendants-IsClosed zero id l h =
      descendants_step-IsClosed (λ i. none) id l (λ i k bad. absurd (ground (arith, bad))) h
  get_all_descendants-IsClosed (suc n) id l h =
      descendants_step-IsClosed (get_all_descendants n (children_map events)) id l
        (get_all_descendants-IsClosed n) h

  -- Below an event that is rooted, all are.
  AreRooted : Text → List Event → Type 0
  AreRooted id l =
      (r y : Event) (k : ℕ)
      → r.id ≡ id
      → IsRooted events k r
      → In y l
      → (j : ℕ) × IsRooted events j y

  descendants_step-AreRooted :
      (call : Text → Option (List Event)) (id : Text) (l : List Event)
      → ((i : Text) (m : List Event) → call i ≡ some m → AreRooted i m)
      → descendants_step call (children_map events) id ≡ some l
      → AreRooted id l
  unfolding descendants_step AreRooted
  descendants_step-AreRooted call id l ih h r y k same rooted i =
      let children = children_of (children_map events) id in
      let (pieces, made, whole) =
        after-parts children (traverse (λ (c : Event). call c.id) children) l h in
      let child : (c : Event) → In c children → IsRooted events (suc k) c = (λ c at.
        let is = (In-children_map c id events).0 at in
        (is.0, r, is.1 ∙ ap (λ t. some t) (sym same), rooted)) in
      elim (In-append_cases y children (concat pieces) (subst (In y) (sym whole) i)) [
        | inl at ↦ (suc k, child y at)
        | inr deep ↦
            let (piece, at, within) = In-concat_piece y pieces deep in
            let source = In-traverse (λ (c : Event). call c.id) piece children pieces made at in
            ih (source.0).id piece source.1 source.0 y (suc k) refl (child source.0 source.2) within
      ]

  get_all_descendants-AreRooted :
      (n : ℕ) (id : Text) (l : List Event)
      → get_all_descendants n (children_map events) id ≡ some l
      → AreRooted id l
  unfolding get_all_descendants
  get_all_descendants-AreRooted zero id l h =
      descendants_step-AreRooted (λ i. none) id l (λ i k bad. absurd (ground (arith, bad))) h
  get_all_descendants-AreRooted (suc n) id l h =
      descendants_step-AreRooted (get_all_descendants n (children_map events)) id l
        (get_all_descendants-AreRooted n) h

  module _ (browser : Browser) (get_time : Text → ℕ) (title : Event → Text) where
    if_found-parts :
        (root : Event) (g : Group) (o : Option (List Event))
        → if_found browser get_time title root o ≡ some g
        → (below : List Event) × (o ≡ some below) × (g.all_events ≡ root ∷ below)
    unfolding if_found new_group
    if_found-parts root g none h = absurd (ground (arith, h))
    if_found-parts root g (some below) h =
        let same : new_group browser get_time title root below ≡ g = ground (arith, h) in
        (below, refl, sym (ap (λ (x : Group). x.all_events) same))

    group_of-below :
        (root : Event) (g : Group)
        → group_of browser get_time title events root ≡ some g
        → (below : List Event) × (get_all_descendants (length events) (children_map events) root.id
            ≡ some below)
          × (g.all_events ≡ root ∷ below)
    unfolding group_of
    group_of-below root g h =
        if_found-parts root g (get_all_descendants (length events) (children_map events) root.id) h

    pub group_of-IsClosed :
        (root : Event) (g : Group)
        → group_of browser get_time title events root ≡ some g
        → In root g.all_events × IsClosed g.all_events
    group_of-IsClosed root g h =
        let (below, found, all) = group_of-below root g h in
        let closed = get_all_descendants-IsClosed (length events) root.id below found in
        subst (λ l. In root l × IsClosed l) (sym all)
          (
            inl refl,
            (λ y x i c. elim i [
              | inl same ↦
                  inr (closed.0 x (subst (λ (t : Event). IsChild events t.id x) (sym same) c))
              | inr deep ↦ inr (closed.1 y x deep c)
            ]),
          )

    pub group_of-AreRooted :
        (root : Event) (g : Group) (k : ℕ)
        → group_of browser get_time title events root ≡ some g
        → IsRooted events k root
        → (y : Event) → In y g.all_events
        → (j : ℕ) × IsRooted events j y
    unfolding AreRooted
    group_of-AreRooted root g k h rooted y i =
        let (below, found, all) = group_of-below root g h in
        elim (subst (In y) all i) [
          | inl same ↦ (k, subst (IsRooted events k) same rooted)
          | inr deep ↦
              get_all_descendants-AreRooted (length events) root.id below found root y k refl rooted
                deep
        ]
