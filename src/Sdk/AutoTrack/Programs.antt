-- ===== src/Sdk/AutoTrack/Programs.antt =====
-- Programs of accesses through the proxies of sdks/typescript/src/auto-track.ts.
use raceway.Prelude.{
  ℕ, ◌≡◌, refl, sym, ap, ap₂, ◌∙◌, Bool, List, [], ◌∷◌, map, Option, none, some, arith,
  Option-cases, inl, inr,
}
use raceway.Text.{Text}
use raceway.Sdk.AutoTrack.{
  Key, Object, Value, undefined, primitive, array, object, Heap, put, Store, get_property,
  set_property,
}
use raceway.Sdk.AutoTrack.Transparent.{base, bare, get-heap, get-bare, set-heap}

unfoldable pub object_in : Value → Option Object
object_in (object o) = some o
object_in _ = none

unfoldable pub address_in : Value → Option ℕ
address_in (object o) = some (base o)
address_in _ = none

-- Read or write a property of the object that a path of properties leads to.
pub data Statement : Type 0 where
  reads : (path : List Key) (k : Key) → Statement
  writes : (path : List Key) (k : Key) (v : Value) → Statement

-- What each statement reads; `none` where its path leads to no object.
module _ (track_nested : Bool) (location : Text) where
  follow : Object → List Key → Store → Option Object × Store
  follow o [] s = (some o, s)
  follow o (k ∷ ks) s =
      let got = get_property track_nested location o k s in
      elim (object_in got.0) [ none ↦ (none, got.1) | some next ↦ follow next ks got.1 ]

  execute : Object → Statement → Store → Option Value × Store
  unfolding follow
  execute o (reads path k) s =
      let at = follow o path s in
      elim at.0 [
        | none ↦ (none, at.1)
        | some target ↦
            let got = get_property track_nested location target k at.1 in (some got.0, got.1)
      ]
  execute o (writes path k v) s =
      let at = follow o path s in
      elim at.0 [
        | none ↦ (none, at.1)
        | some target ↦ (some undefined, set_property track_nested location target k v at.1)
      ]

  unfoldable pub execute_all : Object → List Statement → Store → List (Option Value) × Store
  unfolding execute
  execute_all o [] s = ([], s)
  execute_all o (st ∷ rest) s =
      let one = execute o st s in
      let others = execute_all o rest one.1 in (one.0 ∷ others.0, others.1)

-- The same on the heap alone.
direct_follow : ℕ → List Key → Heap → Option ℕ
direct_follow a [] h = some a
direct_follow a (k ∷ ks) h = elim (address_in (h a k)) [
  | none ↦ none
  | some b ↦ direct_follow b ks h
]

direct : ℕ → Statement → Heap → Option Value × Heap
unfolding direct_follow
direct a (reads path k) h = elim (direct_follow a path h) [
  | none ↦ (none, h)
  | some b ↦ (some (bare (h b k)), h)
]
direct a (writes path k v) h = elim (direct_follow a path h) [
  | none ↦ (none, h)
  | some b ↦ (some undefined, put b k v h)
]

unfoldable pub direct_all : ℕ → List Statement → Heap → List (Option Value) × Heap
unfolding direct
direct_all a [] h = ([], h)
direct_all a (st ∷ rest) h =
    let one = direct a st h in let others = direct_all a rest one.1 in (one.0 ∷ others.0, others.1)

module _ (t : Bool) (location : Text) where
  follow-heap :
      (o : Object) (ks : List Key) (s : Store) → (follow t location o ks s).1.heap ≡ s.heap
  unfolding follow
  follow-heap o [] s = refl
  follow-heap o (k ∷ ks) s =
      let got = get_property t location o k s in
      elim (Option-cases (object_in got.0)) [
        | inl e ↦ rw (e, follow) (get-heap t location o k s)
        | inr (next, e) ↦ rw (e, follow) (follow-heap next ks got.1 ∙ get-heap t location o k s)
      ]

address-base : (v : Value) (o : Object) → object_in v ≡ some o → address_in (bare v) ≡ some (base o)
unfolding object_in address_in
address-base undefined o h = ground arith
address-base (primitive j) o h = ground arith
address-base (array a) o h = ground arith
address-base (object p) o h = ground arith

address-missing : (v : Value) → object_in v ≡ none → address_in (bare v) ≡ none
unfolding object_in address_in
address-missing undefined h = refl
address-missing (primitive j) h = refl
address-missing (array a) h = refl
address-missing (object p) h = ground arith

address-bare : (v : Value) → address_in (bare v) ≡ address_in v
unfolding address_in
address-bare undefined = refl
address-bare (primitive j) = refl
address-bare (array a) = refl
address-bare (object p) = refl

abbrev base? : Option Object → Option ℕ
base? none = none
base? (some o) = some (base o)

module _ (t : Bool) (location : Text) where
  address-get :
      (o : Object) (k : Key) (s : Store)
      → address_in (s.heap (base o) k) ≡ address_in (bare (get_property t location o k s).0)
  address-get o k s =
      sym (address-bare (s.heap (base o) k)) ∙ sym (ap address_in (get-bare t location o k s))

  follow-base :
      (o : Object) (ks : List Key) (s : Store)
      → base? (follow t location o ks s).0 ≡ direct_follow (base o) ks s.heap
  unfolding follow direct_follow
  follow-base o [] s = refl
  follow-base o (k ∷ ks) s =
      let got = get_property t location o k s in
      elim (Option-cases (object_in got.0)) [
        | inl e ↦ rw (e, follow, direct_follow, address-get o k s, address-missing got.0 e) refl
        | inr (next, e) ↦
            rw (e, follow, direct_follow, address-get o k s, address-base got.0 next e)
              (follow-base next ks got.1
                ∙ ap (direct_follow (base next) ks) (get-heap t location o k s))
      ]

  execute-found :
      (o target : Object) (path : List Key) (s : Store)
      → (follow t location o path s).0 ≡ some target
      → direct_follow (base o) path s.heap ≡ some (base target)
  execute-found o target path s e = sym (follow-base o path s) ∙ ap base? e

  execute-missing :
      (o : Object) (path : List Key) (s : Store)
      → (follow t location o path s).0 ≡ none
      → direct_follow (base o) path s.heap ≡ none
  execute-missing o path s e = sym (follow-base o path s) ∙ ap base? e

abbrev pub bare? : Option Value → Option Value
bare? none = none
bare? (some v) = some (bare v)

module _ (t : Bool) (location : Text) where
  execute-direct :
      (o : Object) (st : Statement) (s : Store)
      → let one = execute t location o st s in
        let plainly = direct (base o) st s.heap in
        (bare? one.0 ≡ plainly.0) × (one.1.heap ≡ plainly.1)
  unfolding execute direct
  execute-direct o (reads path k) s =
      let at = follow t location o path s in
      let kept = follow-heap t location o path s in
      elim (Option-cases at.0) [
        | inl e ↦ rw (e, execute, direct, execute-missing t location o path s e) (refl, kept)
        | inr (target, e) ↦
            rw (e, execute, direct, execute-found t location o target path s e)
              (
                ap some (
                    get-bare t location target k at.1
                    ∙ ap (λ (h : Heap). bare (h (base target) k)) kept),
                get-heap t location target k at.1 ∙ kept,
              )
      ]
  execute-direct o (writes path k v) s =
      let at = follow t location o path s in
      let kept = follow-heap t location o path s in
      elim (Option-cases at.0) [
        | inl e ↦ rw (e, execute, direct, execute-missing t location o path s e) (refl, kept)
        | inr (target, e) ↦
            rw (e, execute, direct, execute-found t location o target path s e)
              (refl, set-heap t location target k v at.1 ∙ ap (put (base target) k v) kept)
      ]

-- A program of reads and writes along paths of properties leaves the same heap, and reads the same
-- values up to proxies, whether its root is an object or a proxy of it, of nested objects too.
pub execute_all-direct_all :
    (track_nested : Bool) (location : Text) (o : Object) (sts : List Statement) (s : Store)
    → let ran = execute_all track_nested location o sts s in
      let plainly = direct_all (base o) sts s.heap in
      (map bare? ran.0 ≡ plainly.0) × (ran.1.heap ≡ plainly.1)
unfolding execute_all direct_all
execute_all-direct_all t location o [] s = (refl, refl)
execute_all-direct_all t location o (st ∷ sts) s =
    let one = execute t location o st s in
    let same = execute-direct t location o st s in
    let rest = execute_all-direct_all t location o sts one.1 in
    (
      ap₂ (λ v vs. v ∷ vs) same.0 (rest.0 ∙ ap (λ h. (direct_all (base o) sts h).0) same.1),
      rest.1 ∙ ap (λ h. (direct_all (base o) sts h).1) same.1,
    )
