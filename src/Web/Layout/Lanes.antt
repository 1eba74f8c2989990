-- ===== src/Web/Layout/Lanes.antt =====
-- The swimlanes of `computeTimelineLayout` in web/src/lib/debugger-layout.ts, and its edges.
use mathlib.Core.List.{Perm}
use mathlib.Core.List.Perm
use raceway.Prelude.{
  ℕ, suc, ◌≡◌, refl, sym, subst, ap, ◌∙◌, Bool, ◌||◌, List, [], ◌∷◌, ◌++◌, map, arith, any, All,
  append_assoc, append-nil, Bool-cases, if-both, leb, true, false, inl, inr, if◌then◌else◌,
}
use raceway.Text.{Text, ◌==◌, eq_iff}
use raceway.Maps.{
  get, keys, contains, push, or_nil, get-push, Distinct, Distinct-push, All-entries,
  contains-keys-push,
}
use raceway.Web.Types.{Event}
use raceway.Web.Layout.Sorting.{IsSorted, NotLater, sorted_events-IsSorted, any-sorted}
use raceway.Web.Layout.Timeline.{
  Swimlane, group_by_thread, node_at, lanes_from, insert_sorted, sorted_events,
  compute_timeline_layout,
}

-- The events of a thread, in their order.
abbrev pub of_thread : Text → List Event → List Event
of_thread t [] = []
of_thread t (e ∷ es) =
    let rest = of_thread t es in if e.metadata.thread_id == t then e ∷ rest else rest

pub group-get :
    (t : Text) (es : List Event) (m : List (Text × List Event))
    → or_nil (get t (group_by_thread es m)) ≡ or_nil (get t m) ++ of_thread t es
unfolding group_by_thread
group-get t [] m = sym (append-nil (or_nil (get t m)))
group-get t (e ∷ es) m =
    let k = e.metadata.thread_id in
    group-get t es (push k e m) ∙ elim (Bool-cases (k == t)) [
      | inl is ↦ ground (
        arith,
        is,
        eq_iff k t,
        get-push t k e m,
        append_assoc (or_nil (get t m)) (e ∷ []) (of_thread t es),
      )
      | inr other ↦ ground (arith, other, get-push t k e m)
    ]

Distinct-group :
    (es : List Event) (m : List (Text × List Event))
    → Distinct (keys m)
    → Distinct (keys (group_by_thread es m))
unfolding group_by_thread
Distinct-group [] m d = d
Distinct-group (e ∷ es) m d =
    Distinct-group es (push e.metadata.thread_id e m) (Distinct-push e.metadata.thread_id e m d)

abbrev pub is_thread : Text → Event → Bool
is_thread t e = e.metadata.thread_id == t

contains-group :
    (t : Text) (es : List Event) (m : List (Text × List Event))
    → contains t (keys (group_by_thread es m)) ≡ (contains t (keys m) || any (is_thread t) es)
unfolding group_by_thread
contains-group t [] m = ground arith
contains-group t (e ∷ es) m = ground (
  arith,
  contains-group t es (push e.metadata.thread_id e m),
  contains-keys-push t e.metadata.thread_id e m,
)

-- The lane shows the events of its thread, each as often as it was given, in an order of time.
abbrev pub Shows : (Text → ℕ) → List Event → Swimlane → Type 0
Shows get_time es lane =
    let shown = map (λ n. n.event) lane.events in
    IsSorted get_time shown × Perm shown (of_thread lane.id es)

keep-Perm :
    (keeps_e keeps_f : Bool) (e f : Event) (xs ys : List Event)
    → Perm xs (if keeps_e then e ∷ ys else ys)
    → let zs = if keeps_f then f ∷ ys else ys in
      Perm (if keeps_f then f ∷ xs else xs) (if keeps_e then e ∷ zs else zs)
keep-Perm true true e f xs ys p = Perm.trans (Perm.cons f p) (Perm.swap e f ys)
keep-Perm true false e f xs ys p = p
keep-Perm false true e f xs ys p = Perm.cons f p
keep-Perm false false e f xs ys p = p

if-Perm :
    (keeps : Bool) (e : Event) (xs ys : List Event)
    → Perm xs ys
    → Perm (if keeps then e ∷ xs else xs) (if keeps then e ∷ ys else ys)
if-Perm true e xs ys p = Perm.cons e p
if-Perm false e xs ys p = p

module _ (get_time : Text → ℕ) (t : Text) where
  of_thread-insert :
      (e : Event) (es : List Event)
      → Perm (of_thread t (insert_sorted get_time e es)) (of_thread t (e ∷ es))
  unfolding insert_sorted
  of_thread-insert e [] = Perm.refl _
  of_thread-insert e (f ∷ fs) =
      if-both (λ l. Perm (of_thread t l) (of_thread t (e ∷ f ∷ fs)))
        (leb (get_time e.timestamp) (get_time f.timestamp)) (e ∷ f ∷ fs)
        (f ∷ insert_sorted get_time e fs) (Perm.refl _)
        (keep-Perm (is_thread t e) (is_thread t f) e f _ _ (of_thread-insert e fs))

  of_thread-sorted :
      (es : List Event) → Perm (of_thread t (sorted_events get_time es)) (of_thread t es)
  unfolding sorted_events
  of_thread-sorted [] = Perm.refl _
  of_thread-sorted (e ∷ es) =
      Perm.trans (of_thread-insert e (sorted_events get_time es))
        (if-Perm (is_thread t e) e _ _ (of_thread-sorted es))

  All-of_thread : (P : Event → Type 0) (es : List Event) → All P es → All P (of_thread t es)
  All-of_thread P [] h = tt
  All-of_thread P (e ∷ es) h =
      if-both (All P) (is_thread t e) (e ∷ of_thread t es) (of_thread t es)
        (h.0, All-of_thread P es h.1) (All-of_thread P es h.1)

  of_thread-IsSorted : (es : List Event) → IsSorted get_time es → IsSorted get_time (of_thread t es)
  of_thread-IsSorted [] h = tt
  of_thread-IsSorted (e ∷ es) h =
      if-both (IsSorted get_time) (is_thread t e) (e ∷ of_thread t es) (of_thread t es)
        (All-of_thread (NotLater get_time e) es h.0, of_thread-IsSorted es h.1)
        (of_thread-IsSorted es h.1)

map-node_at : (y i : ℕ) (es : List Event) → map (λ n. n.event) (map (node_at y i) es) ≡ es
map-node_at y i [] = refl
map-node_at y i (e ∷ es) = ap (λ r. e ∷ r) (map-node_at y i es)

lanes-Shows :
    (get_time : Text → ℕ) (es : List Event) (i : ℕ) (m : List (Text × List Event))
    → All (λ (entry : Text × List Event). entry.1 ≡ of_thread entry.0 (sorted_events get_time es)) m
    → All (Shows get_time es) (lanes_from i m)
unfolding lanes_from
lanes-Shows get_time es i [] h = tt
lanes-Shows get_time es i ((t, own) ∷ m) h =
    let same = sym (map-node_at _ i own ∙ h.0) in
    let sorted = sorted_events get_time es in
    (
      (
        subst (IsSorted get_time) same
            (of_thread-IsSorted get_time t sorted (sorted_events-IsSorted get_time es)),
        subst (λ shown. Perm shown (of_thread t es)) same (of_thread-sorted get_time t es),
      ),
      lanes-Shows get_time es (suc i) m h.1,
    )

lanes-ids : (i : ℕ) (m : List (Text × List Event)) → map (λ l. l.id) (lanes_from i m) ≡ keys m
unfolding lanes_from
lanes-ids i [] = refl
lanes-ids i ((t, es) ∷ m) = ap (λ r. t ∷ r) (lanes-ids (suc i) m)

-- The swimlanes of a layout have different ids, which are the threads of the events that are given.
-- What each lane shows is a permutation of the given events of its thread, in an order of time.
pub layout-lanes :
    (get_time : Text → ℕ) (es : List Event) (width : ℕ)
    → let lanes = (compute_timeline_layout get_time es width).swimlanes in
      Distinct (map (λ l. l.id) lanes)
      × ((t : Text) → contains t (map (λ l. l.id) lanes) ≡ any (is_thread t) es)
      × All (Shows get_time es) lanes
unfolding compute_timeline_layout sorted_events contains
layout-lanes get_time [] width = (tt, λ t. refl, tt)
layout-lanes get_time (e ∷ es) width =
    let sorted = sorted_events get_time (e ∷ es) in
    let m = group_by_thread sorted [] in
    let d = Distinct-group sorted [] tt in
    (
      subst Distinct (sym (lanes-ids 0 m)) d,
      λ t.
          ap (contains t) (lanes-ids 0 m)
          ∙ contains-group t sorted []
          ∙ any-sorted get_time (is_thread t) (e ∷ es),
      lanes-Shows get_time (e ∷ es) 0 m
          (All-entries _ m d (λ t found h. sym (ap or_nil h) ∙ group-get t sorted [])),
    )
