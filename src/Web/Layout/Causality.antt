-- ===== src/Web/Layout/Causality.antt =====
-- `happensBefore` of web/src/lib/debugger-layout.ts.
use raceway.Prelude.{
  ℕ, Bool, false, ◌||◌, List, [], ◌∷◌, ◌++◌, Option, none, some, ltb, if◌then◌else◌,
}
use raceway.Text.{Text}
use raceway.Maps.{get, keys, new_set, new_map}
use raceway.Web.Types.{Event}

-- vec.get(key) || 0
abbrev pub or_zero : Option ℕ → ℕ
or_zero none = 0
or_zero (some n) = n

-- the loop over the keys, with `hasLessThan`
unfoldable pub compare_keys : List (Text × ℕ) → List (Text × ℕ) → List Text → Bool → Bool
unfolding get
compare_keys a b [] has_less_than = has_less_than
compare_keys a b (key ∷ rest) has_less_than =
    let val_a = or_zero (get key a) in
    let val_b = or_zero (get key b) in
    let next = compare_keys a b rest (ltb val_a val_b || has_less_than) in
    if ltb val_b val_a then false else next

-- happensBefore on the vectors of the two events
unfoldable pub precedes : List (Text × ℕ) → List (Text × ℕ) → Bool
unfolding new_map new_set compare_keys
precedes vector_a vector_b =
    let vec_a = new_map vector_a in
    let vec_b = new_map vector_b in
    compare_keys vec_a vec_b (new_set (keys vec_a ++ keys vec_b)) false

unfoldable pub happens_before : Event → Event → Bool
unfolding precedes
happens_before event_a event_b = precedes event_a.causality_vector event_b.causality_vector
