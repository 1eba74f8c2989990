-- ===== src/Web/Tracing.antt =====
-- What the SDK of sdks/typescript records, seen by the web interface: `happensBefore` of
-- web/src/lib/debugger-layout.ts on the vectors that `captureEvent` of
-- sdks/typescript/src/raceway.ts writes. The server between the two hands the vectors on.
use raceway.Prelude.{
  ℕ, ◌+◌, ◌<◌, ◌≡◌, subst, subst, ap₂, ◌++◌, ◌∙◌, true, List, [], ◌∷◌, some, Option, arith, All,
}
use raceway.Text.{Text, eq_refl, is_truthy}
use raceway.Maps.{get, set, set_all, new_map, add, add_all, new_set, contains}
use raceway.Sdk.Types.{Event, RacewayContext}
use raceway.Sdk.Raceway.Capture.{causality_of}
use raceway.Sdk.Raceway.Chain.{IsChain, root_after, events_of, perform_all-IsChain}
use raceway.Sdk.Raceway.Config.{Platform, Raceway}
use raceway.Sdk.Raceway.Track.{Call, perform_all}
use raceway.Sdk.Raceway.Performed.{session}
use raceway.Web.Layout.Causality.{precedes, compare_keys}

single-precedes : (r : Text) (a b : ℕ) → a < b → precedes ((r, a) ∷ []) ((r, b) ∷ []) ≡ true
unfolding precedes compare_keys get set set_all new_map add add_all new_set contains
single-precedes r a b lt = ground (arith, eq_refl r)

-- Each event happens before all later ones.
abbrev pub InOrder : List Event → Type 0
InOrder [] = Unit
InOrder (e ∷ es) = All (λ f. precedes e.causality_vector f.causality_vector ≡ true) es × InOrder es

module _ (trace root : Text) (truthy : is_truthy root ≡ true) where
  vector_of : (n : ℕ) → causality_of (some root) n ≡ (root, n) ∷ []
  vector_of n = ground (arith, truthy)

  rest-IsChain :
      (f : Event) (parent : Option Text) (m : ℕ) (es : List Event)
      → IsChain trace (some root) parent m (f ∷ es)
      → IsChain trace (some root) (some f.id) (m + 1) es
  rest-IsChain f parent m es h =
      let same : root_after (some root) f ≡ some root = ground arith in
      subst (λ r. IsChain trace r (some f.id) (m + 1) es) same h.3

  later :
      (n : ℕ) (e : Event) (parent : Option Text) (m : ℕ) (es : List Event)
      → e.causality_vector ≡ causality_of (some root) n
      → n < m
      → IsChain trace (some root) parent m es
      → All (λ f. precedes e.causality_vector f.causality_vector ≡ true) es
  later n e parent m [] ve lt h = tt
  later n e parent m (f ∷ es) ve lt h = (
    ap₂ precedes (ve ∙ vector_of n) (h.2 ∙ vector_of m) ∙ single-precedes root n m lt,
    later n e (some f.id) (m + 1) es ve (omega (arith, lt)) (rest-IsChain f parent m es h),
  )

  chain-InOrder :
      (parent : Option Text) (n : ℕ) (es : List Event)
      → IsChain trace (some root) parent n es
      → InOrder es
  chain-InOrder parent n [] h = tt
  chain-InOrder parent n (e ∷ es) h =
      let rest = rest-IsChain e parent n es h in
      (
        later n e (some e.id) (n + 1) es h.2 (omega arith) rest,
        chain-InOrder (some e.id) (n + 1) es rest,
      )

-- While the SDK is enabled and a context has a root that is not empty, the events that the calls
-- record in it are captured, and by the web interface's test each happens before all later ones.
pub recorded-InOrder :
    (p : Platform) (cs : List Call) (r : Raceway) (c : RacewayContext) (root : Text)
    → r.config.enabled ≡ true
    → c.root_id ≡ some root
    → is_truthy root ≡ true
    → let es = events_of p cs r c in
      ((perform_all p cs (session r c)).raceway.captured ≡ r.captured ++ es) × InOrder es
recorded-InOrder p cs r c root on at truthy =
    let (stored, kinds, chain) = perform_all-IsChain p cs r c on in
    let es = events_of p cs r c in
    (
      stored,
      chain-InOrder c.trace_id root truthy c.parent_id c.clock es
          (subst (λ o. IsChain c.trace_id o c.parent_id c.clock es) at chain),
    )
