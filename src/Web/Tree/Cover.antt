-- ===== src/Web/Tree/Cover.antt =====
-- The groups show each event below a request or an event without a parent
-- (web/src/components/features/events/TreeView.tsx).
use raceway.Prelude.{
  ℕ, zero, suc, ◌<◌, ◌≤◌, ◌≡◌, refl, sym, ap, subst, ◌∙◌, inl, inr, Bool, true, false, List, [],
  ◌∷◌, Option, none, some, arith, In, Option-cases, Bool-cases, length, count-length, traverse,
  traverse-In, In-traverse, In-concat, In-concat_piece,
}
use raceway.Text.{Text}
use raceway.Web.Types.{Event}
use raceway.Web.Graph.{parent_of, find_node}
use raceway.Web.Tree.{
  is_http_request, is_root_step, is_root, is_transaction_root, if_root, transaction_roots, Group,
}
use raceway.Web.Tree.Chains.{IsChild}
use raceway.Web.Tree.Ends.{IsRanked, find_node-In, is_root-total, below_rank}
use raceway.Web.Tree.Members.{IsRooted, after-parts}

if_root-piece :
    (a r : Event) (o : Option Bool) (piece : List Event)
    → if_root a o ≡ some piece
    → In r piece
    → (a ≡ r) × (o ≡ some true)
if_root-piece a r none piece h i = absurd (ground (arith, h))
if_root-piece a r (some true) piece h i =
    let same : piece ≡ a ∷ [] = ground (arith, h) in
    (elim (subst (In r) same i) [ inl e ↦ e | inr bad ↦ absurd bad ], refl)
if_root-piece a r (some false) piece h i =
    let same : piece ≡ [] = ground (arith, h) in absurd (subst (In r) same i)

module _ (events : List Event) where
  abbrev root_or_none : Event → Option (List Event)
  unfolding is_transaction_root
  root_or_none event = if_root event (is_transaction_root events event)

  pub roots-http :
      (r : Event) (roots : List Event)
      → transaction_roots events ≡ some roots
      → In r roots
      → IsRooted events 0 r
  unfolding transaction_roots is_transaction_root
  roots-http r roots h i =
      let (pieces, made, whole) = after-parts [] (traverse root_or_none events) roots h in
      let (piece, at, within) = In-concat_piece r pieces (subst (In r) (sym whole) i) in
      let (a, made_of, there) = In-traverse root_or_none piece events pieces made at in
      let is = if_root-piece a r (is_transaction_root events a) piece made_of within in
      let http : is_http_request a ≡ true = ground (arith, is.1) in
      subst (IsRooted events 0) is.0 (there, inl http)

  pub root_among :
      (e : Event) (roots : List Event)
      → transaction_roots events ≡ some roots
      → In e events
      → is_http_request e ≡ true
      → is_root (length events) events e ≡ some true
      → In e roots
  unfolding transaction_roots is_transaction_root root_or_none
  root_among e roots h i http root =
      let (pieces, made, whole) = after-parts [] (traverse root_or_none events) roots h in
      let (piece, made_of, at) = traverse-In root_or_none e events pieces made i in
      let own : root_or_none e ≡ some (e ∷ []) = rw (is_transaction_root, http, root) refl in
      let same : piece ≡ e ∷ [] = ground (arith, own, made_of) in
      subst (In e) whole (In-concat e piece pieces (subst (In e) (sym same) (inl refl)) at)

-- The event is in a group.
abbrev pub IsGrouped : List Group → Event → Type 0
IsGrouped groups e = (g : Group) × In g groups × In e g.all_events

module _ (events : List Event) (rank : Text → ℕ) (ranked : IsRanked events rank) where
  module _ (P : Event → Type 0) (N : ℕ) (closed : (y x : Event) → P y → IsChild events y.id x → P x)
      (below : (p : Event) → In p events → is_http_request p ≡ true → rank p.id < N → P p) where
    is_root_step-below :
        (next : Event → Option Bool) (e : Event)
        → ((p : Event) → In p events → rank p.id ≤ N → next p ≡ some false → P p)
        → In e events
        → rank e.id ≤ N
        → is_root_step next events e ≡ some false
        → P e
    unfolding is_root_step
    is_root_step-below next e ih i le off = elim (Option-cases (parent_of e)) [
      | inl top ↦ absurd (ground (arith, off, top))
      | inr (id, up) ↦ elim (Option-cases (find_node id events)) [
        | inl gone ↦ absurd (ground (arith, off, up, gone))
        | inr (p, found) ↦
            let at = find_node-In id events p found in
            let child : IsChild events p.id e = (i, up ∙ ap (λ t. some t) (sym at.1)) in
            let lt = ranked e p.id i child.1 in
            elim (Bool-cases (is_http_request p)) [
              | inl http ↦ closed p e (below p at.0 http (omega (arith, lt, le))) child
              | inr plain ↦
                  let further : next p ≡ some false = ground (arith, off, up, found, plain) in
                  closed p e (ih p at.0 (omega (arith, lt, le)) further) child
            ]
      ]
    ]

    -- What holds of the requests of smaller ranks, and with an event of its children, holds of an
    -- event that is no root.
    is_root-below :
        (n : ℕ) (e : Event) → In e events → rank e.id ≤ N → is_root n events e ≡ some false → P e
    unfolding is_root
    is_root-below zero e =
        is_root_step-below (λ p. none) e (λ p i le bad. absurd (ground (arith, bad)))
    is_root-below (suc n) e = is_root_step-below (is_root n events) e (is_root-below n)

  module _ (P : Event → Type 0) (closed : (y x : Event) → P y → IsChild events y.id x → P x)
      (roots : (r : Event)
        → In r events
        → is_http_request r ≡ true
        → is_root (length events) events r ≡ some true
        → P r) where
    -- What holds of the roots, and with an event of its children, holds of each request.
    every_request :
        (N : ℕ) (e : Event) → In e events → is_http_request e ≡ true → rank e.id < N → P e
    every_request zero e i http lt = absurd (omega (arith, lt))
    every_request (suc N) e i http lt =
        let (b, made) =
          is_root-total events rank ranked (length events) e i
            (count-length (below_rank events rank ranked e.id) events) in
        elim (Bool-cases b) [
          | inl top ↦ roots e i http (made ∙ ap (λ c. some c) top)
          | inr under ↦
              is_root-below P N closed (every_request N) (length events) e i (omega (arith, lt))
                (made ∙ ap (λ c. some c) under)
        ]

    pub every_rooted :
        ((e : Event) → In e events → parent_of e ≡ none → P e)
        → (n : ℕ) (e : Event) → IsRooted events n e
        → P e
    every_rooted tops zero e (i, inl http) = every_request (suc (rank e.id)) e i http (omega arith)
    every_rooted tops zero e (i, inr top) = tops e i top
    every_rooted tops (suc n) e (i, p, up, above) = closed p e (every_rooted tops n p above) (i, up)
