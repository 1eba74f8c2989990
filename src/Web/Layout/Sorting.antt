-- ===== src/Web/Layout/Sorting.antt =====
-- The order of time in which web/src/lib/debugger-layout.ts puts the events.
use raceway.Prelude.{
  ℕ, ◌≤◌, ◌≡◌, refl, Bool, ◌||◌, any, List, [], ◌∷◌, arith, leb, All, In, inl, inr, Bool-cases, sym,
  subst, if◌then◌else◌,
}
use raceway.Text.{Text}
use raceway.Web.Types.{Event}
use raceway.Web.Layout.Timeline.{insert_sorted, sorted_events}

module _ (get_time : Text → ℕ) where
  abbrev pub NotLater : Event → Event → Type 0
  NotLater e f = get_time e.timestamp ≤ get_time f.timestamp

  abbrev pub IsSorted : List Event → Type 0
  IsSorted [] = Unit
  IsSorted (e ∷ es) = All (NotLater e) es × IsSorted es

  All-insert :
      (P : Event → Type 0) (e : Event) (es : List Event)
      → P e
      → All P es
      → All P (insert_sorted get_time e es)
  unfolding insert_sorted
  All-insert P e [] p h = (p, tt)
  All-insert P e (f ∷ fs) p h =
      elim (Bool-cases (leb (get_time e.timestamp) (get_time f.timestamp))) [
        | inl le ↦
            subst (λ (b : Bool). All P (if b then e ∷ f ∷ fs else f ∷ insert_sorted get_time e fs))
              (sym le) (p, h)
        | inr gt ↦
            subst (λ (b : Bool). All P (if b then e ∷ f ∷ fs else f ∷ insert_sorted get_time e fs))
              (sym gt) (h.0, All-insert P e fs p h.1)
      ]

  All-NotLater :
      (e f : Event) (fs : List Event) → NotLater e f → All (NotLater f) fs → All (NotLater e) fs
  All-NotLater e f [] le h = tt
  All-NotLater e f (g ∷ fs) le h = (omega (arith, le, h.0), All-NotLater e f fs le h.1)

  insert-IsSorted :
      (e : Event) (es : List Event) → IsSorted es → IsSorted (insert_sorted get_time e es)
  unfolding insert_sorted
  insert-IsSorted e [] h = (tt, tt)
  insert-IsSorted e (f ∷ fs) h =
      elim (Bool-cases (leb (get_time e.timestamp) (get_time f.timestamp))) [
        | inl le ↦
            let lower : NotLater e f = ground (arith, le) in
            subst
              (λ (b : Bool). IsSorted (if b then e ∷ f ∷ fs else f ∷ insert_sorted get_time e fs))
              (sym le) ((lower, All-NotLater e f fs lower h.0), h)
        | inr gt ↦
            let lower : NotLater f e = ground (arith, gt) in
            subst
              (λ (b : Bool). IsSorted (if b then e ∷ f ∷ fs else f ∷ insert_sorted get_time e fs))
              (sym gt) (All-insert (NotLater f) e fs lower h.0, insert-IsSorted e fs h.1)
      ]

  pub sorted_events-IsSorted : (es : List Event) → IsSorted (sorted_events get_time es)
  unfolding sorted_events
  sorted_events-IsSorted [] = tt
  sorted_events-IsSorted (e ∷ es) =
      insert-IsSorted e (sorted_events get_time es) (sorted_events-IsSorted es)

  any-insert :
      (p : Event → Bool) (e : Event) (es : List Event)
      → any p (insert_sorted get_time e es) ≡ (p e || any p es)
  unfolding insert_sorted
  any-insert p e [] = refl
  any-insert p e (f ∷ fs) = ground (arith, any-insert p e fs)

  pub All-sorted :
      (P : Event → Type 0) (es : List Event) → All P es → All P (sorted_events get_time es)
  unfolding sorted_events
  All-sorted P [] h = tt
  All-sorted P (e ∷ es) h = All-insert P e (sorted_events get_time es) h.0 (All-sorted P es h.1)

  In-insert_self : (e : Event) (es : List Event) → In e (insert_sorted get_time e es)
  unfolding insert_sorted
  In-insert_self e [] = inl (λ i. e)
  In-insert_self e (f ∷ fs) = ground (arith, In-insert_self e fs)

  In-insert : (d e : Event) (es : List Event) → In d es → In d (insert_sorted get_time e es)
  unfolding insert_sorted
  In-insert d e [] i = absurd i
  In-insert d e (f ∷ fs) i = ground (arith, In-insert d e fs)

  pub In-sorted : (d : Event) (es : List Event) → In d es → In d (sorted_events get_time es)
  unfolding sorted_events
  In-sorted d [] i = absurd i
  In-sorted d (e ∷ es) (inl eq) =
      subst (λ x. In x (insert_sorted get_time e (sorted_events get_time es))) eq
        (In-insert_self e (sorted_events get_time es))
  In-sorted d (e ∷ es) (inr i) = In-insert d e (sorted_events get_time es) (In-sorted d es i)

  pub any-sorted :
      (p : Event → Bool) (es : List Event) → any p (sorted_events get_time es) ≡ any p es
  unfolding sorted_events
  any-sorted p [] = refl
  any-sorted p (e ∷ es) =
      ground (arith, any-insert p e (sorted_events get_time es), any-sorted p es)
