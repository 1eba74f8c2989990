-- ===== src/Sdk/TraceContext/Vector.antt =====
-- What `incrementClockVector` of sdks/typescript/src/trace-context.ts does to each counter.
use raceway.Prelude.{
  ℕ, ◌+◌, ◌≡◌, refl, true, false, ◌&&◌, inl, inr, [], ◌∷◌, ◌++◌, arith, if◌then◌else◌, Bool-cases,
}
use raceway.Text.{Text, ◌==◌, eq_iff, eq_refl}
use raceway.Sdk.Types.{ClockVector}
use raceway.Sdk.TraceContext.Clock.{
  Component, make_clock_component, bump, has_component, increment_clock_vector,
}

-- The counter of a component, 0 where the vector has none.
unfoldable pub value_of : Text → ClockVector → ℕ
value_of c [] = 0
value_of c ((id, value) ∷ vector) = if id == c then value else value_of c vector

abbrev pub component_of : Component → Text
component_of o = make_clock_component o.service_name o.instance_id

value_of-bump :
    (k c : Text) (v : ClockVector)
    → value_of c (bump k v)
      ≡ (if k == c && has_component k v then value_of c v + 1 else value_of c v)
unfolding value_of bump has_component
value_of-bump k c [] = ground arith
value_of-bump k c ((id, n) ∷ v) =
    ground (arith, value_of-bump k c v, eq_iff id k, eq_iff id c, eq_iff k c)

value_of-append :
    (k c : Text) (n : ℕ) (v : ClockVector)
    → has_component k v ≡ false
    → value_of c (v ++ (k, n) ∷ []) ≡ (if k == c then n else value_of c v)
unfolding value_of has_component
value_of-append k c n [] h = refl
value_of-append k c n ((id, m) ∷ v) h =
    ground (arith, value_of-append k c n v, eq_iff id k, eq_iff id c, eq_iff k c)

bump-missing : (k : Text) (v : ClockVector) → has_component k v ≡ false → bump k v ≡ v
unfolding bump has_component
bump-missing k [] h = refl
bump-missing k ((id, n) ∷ v) h = ground (arith, bump-missing k v)

value_of-missing : (k : Text) (v : ClockVector) → has_component k v ≡ false → value_of k v ≡ 0
unfolding value_of has_component
value_of-missing k [] h = refl
value_of-missing k ((id, n) ∷ v) h = ground (arith, value_of-missing k v)

-- The counter of the local component goes up by one, from 0 if the vector does not name it, and
-- every other counter stays.
pub value_of-increment_clock_vector :
    (v : ClockVector) (o : Component) (c : Text)
    → value_of c (increment_clock_vector v o)
      ≡ (if component_of o == c then value_of c v + 1 else value_of c v)
unfolding increment_clock_vector
value_of-increment_clock_vector v o c = elim (Bool-cases (has_component (component_of o) v)) [
  | inl here ↦ ground (arith, here, value_of-bump (component_of o) c v)
  | inr missing ↦ ground (
    arith,
    bump-missing (component_of o) v missing,
    value_of-append (component_of o) c 1 v missing,
    value_of-missing (component_of o) v missing,
    eq_iff (component_of o) c,
  )
]

has_component-bump : (k c : Text) (v : ClockVector) → has_component c (bump k v) ≡ has_component c v
unfolding bump has_component
has_component-bump k c [] = refl
has_component-bump k c ((id, n) ∷ v) = ground (arith, has_component-bump k c v)

has_component-append :
    (k : Text) (n : ℕ) (v : ClockVector) → has_component k (v ++ (k, n) ∷ []) ≡ true
unfolding has_component
has_component-append k n [] = ground (arith, eq_refl k)
has_component-append k n ((id, m) ∷ v) = ground (arith, has_component-append k n v)

pub has_component-increment_clock_vector :
    (v : ClockVector) (o : Component)
    → has_component (component_of o) (increment_clock_vector v o) ≡ true
unfolding increment_clock_vector
has_component-increment_clock_vector v o = ground (
  arith,
  has_component-bump (component_of o) (component_of o) v,
  bump-missing (component_of o) v,
  has_component-append (component_of o) 1 v,
)
