-- ===== src/Web/Layout/Order.antt =====
-- `happensBefore` of web/src/lib/debugger-layout.ts is the strict order of vector clocks.
use raceway.Prelude.{
  ℕ, ◌≤◌, ◌<◌, ◌≡◌, refl, ◌∙◌, ◌↔◌, Bool, true, false, ◌&&◌, ◌||◌, List, [], ◌∷◌, ◌++◌, arith, all,
  any, ltb, leb, Bool-cases, inl, inr,
}
use raceway.Text.{Text, eq_iff}
use raceway.Maps.{
  get, keys, contains, new_set, new_map, contains-new_set, contains-append, get-missing,
}
use raceway.Web.Types.{Event}
use raceway.Web.Layout.Causality.{or_zero, compare_keys, precedes, happens_before}

module _ {ℓ} {A : Type ℓ} (p : A → Bool) where
  all_intro : ((a : A) → p a ≡ true) → (xs : List A) → all p xs ≡ true
  all_intro h [] = refl
  all_intro h (a ∷ xs) = ground (arith, h a, all_intro h xs)

  any_elim : (xs : List A) → any p xs ≡ true → (a : A) × (p a ≡ true)
  any_elim [] h = ground arith
  any_elim (a ∷ xs) h = elim (Bool-cases (p a)) [
    | inl e ↦ (a, e)
    | inr e ↦ any_elim xs (ground (arith, h, e))
  ]

module _ (p : Text → Bool) where
  all_elim : (k : Text) (ks : List Text) → all p ks ≡ true → contains k ks ≡ true → p k ≡ true
  unfolding contains
  all_elim k [] h c = ground arith
  all_elim k (j ∷ js) h c = ground (arith, all_elim k js, eq_iff j k)

  any_intro : (k : Text) (ks : List Text) → p k ≡ true → contains k ks ≡ true → any p ks ≡ true
  unfolding contains
  any_intro k [] h c = ground arith
  any_intro k (j ∷ js) h c = ground (arith, any_intro k js, eq_iff j k)

module _ (a b : List (Text × ℕ)) where
  abbrev below : Text → Bool
  below k = leb (or_zero (get k a)) (or_zero (get k b))

  abbrev strictly : Text → Bool
  strictly k = ltb (or_zero (get k a)) (or_zero (get k b))

  compare_keys-all :
      (ks : List Text) (less : Bool)
      → compare_keys a b ks less ≡ (all below ks && (less || any strictly ks))
  unfolding compare_keys
  compare_keys-all [] less = ground arith
  compare_keys-all (k ∷ ks) less = ground (arith, compare_keys-all ks (strictly k || less))

-- The counter of a component, 0 if the vector does not name it; the last entry counts.
abbrev pub counter : Text → List (Text × ℕ) → ℕ
counter k vector = or_zero (get k (new_map vector))

-- No counter is larger, and one is smaller.
abbrev pub IsBefore : List (Text × ℕ) → List (Text × ℕ) → Type 0
IsBefore v w = ((k : Text) → counter k v ≤ counter k w) × (k : Text) × counter k v < counter k w

module _ (v w : List (Text × ℕ)) where
  precedes-all :
      let a = new_map v in
      let b = new_map w in
      let ks = keys a ++ keys b in
      precedes v w ≡ (all (below a b) (new_set ks) && any (strictly a b) (new_set ks))
  unfolding precedes
  precedes-all =
      let a = new_map v in
      let b = new_map w in compare_keys-all a b (new_set (keys a ++ keys b)) false

  contains-keys :
      (k : Text)
      → let a = new_map v in
        let b = new_map w in
        contains k (new_set (keys a ++ keys b)) ≡ (contains k (keys a) || contains k (keys b))
  contains-keys k =
      contains-new_set k (keys (new_map v) ++ keys (new_map w))
      ∙ contains-append k (keys (new_map v)) (keys (new_map w))

  precedes→IsBefore : precedes v w ≡ true → IsBefore v w
  precedes→IsBefore h =
      let a = new_map v in
      let b = new_map w in
      let ks = new_set (keys a ++ keys b) in
      let every : all (below a b) ks ≡ true = ground (arith, precedes-all, h) in
      let one : any (strictly a b) ks ≡ true = ground (arith, precedes-all, h) in
      let found = any_elim (strictly a b) ks one in
      (
        λ k. ground (
          arith,
          all_elim (below a b) k ks every,
          contains-keys k,
          get-missing k a,
          get-missing k b,
        ),
        found.0,
        ground (arith, found.1),
      )

  IsBefore→precedes : IsBefore v w → precedes v w ≡ true
  IsBefore→precedes h =
      let a = new_map v in
      let b = new_map w in
      let ks = new_set (keys a ++ keys b) in
      let k = h.1 in
      ground (
        arith,
        precedes-all,
        all_intro (below a b) (λ (j : Text). ground (arith, h.0 j)) ks,
        any_intro (strictly a b) k ks,
        h.2,
        contains-keys k,
        get-missing k a,
        get-missing k b,
      )

-- An event happens before another exactly if no counter of its vector is larger than the other's
-- and one is smaller, where a vector's counter is 0 for a component that it does not name, and the
-- last entry counts for one that it names twice.
pub happens_before-IsBefore :
    (e f : Event) → (happens_before e f ≡ true) ↔ IsBefore e.causality_vector f.causality_vector
unfolding happens_before
happens_before-IsBefore e f = (
  precedes→IsBefore e.causality_vector f.causality_vector,
  IsBefore→precedes e.causality_vector f.causality_vector,
)

IsBefore-trans : (u v w : List (Text × ℕ)) → IsBefore u v → IsBefore v w → IsBefore u w
IsBefore-trans u v w h k = (λ c. omega (arith, h.0 c, k.0 c), h.1, omega (arith, h.2, k.0 h.1))

IsBefore-asym : (v w : List (Text × ℕ)) → IsBefore v w → precedes w v ≡ false
IsBefore-asym v w h = elim (Bool-cases (precedes w v)) [
  | inl e ↦ absurd (omega (arith, h.2, (precedes→IsBefore w v e).0 h.1))
  | inr e ↦ e
]

-- Happening before is a strict order: it is transitive, and an event that happens before another
-- does not happen after it.
pub happens_before-IsStrictOrder :
    ((d e f : Event)
      → happens_before d e ≡ true
      → happens_before e f ≡ true
      → happens_before d f ≡ true)
    × ((e f : Event) → happens_before e f ≡ true → happens_before f e ≡ false)
happens_before-IsStrictOrder = (
  λ d e f h k. (happens_before-IsBefore d f).1 (
      IsBefore-trans d.causality_vector e.causality_vector f.causality_vector
        ((happens_before-IsBefore d e).0 h) ((happens_before-IsBefore e f).0 k)),
  λ e f h.
      unfold happens_before in
      IsBefore-asym e.causality_vector f.causality_vector ((happens_before-IsBefore e f).0 h),
)
