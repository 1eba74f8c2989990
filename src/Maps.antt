-- ===== src/Maps.antt =====
-- JavaScript's `Set` and `Map` with texts for keys: lists in the order of insertion.
pub mod Named
use raceway.Prelude.{
  ◌≡◌, refl, Bool, true, false, ◌||◌, List, [], ◌∷◌, ◌++◌, Option, none, some, arith, map, All, In,
  ap, ap₂, Bool-cases, inl, inr, if◌then◌else◌,
}
use raceway.Text.{Text, ◌==◌, eq_iff, eq_refl}

unfoldable pub contains : Text → List Text → Bool
contains k [] = false
contains k (j ∷ js) = j == k || contains k js

-- set.add(k)
unfoldable pub add : Text → List Text → List Text
unfolding contains
add k s = if contains k s then s else s ++ k ∷ []

unfoldable pub add_all : List Text → List Text → List Text
add_all [] s = s
add_all (k ∷ ks) s = add_all ks (add k s)

-- new Set(ks)
unfoldable pub new_set : List Text → List Text
unfolding add_all
new_set ks = add_all ks []

pub contains-append :
    (c : Text) (s t : List Text) → contains c (s ++ t) ≡ (contains c s || contains c t)
unfolding contains
contains-append c [] t = refl
contains-append c (j ∷ s) t = ground (arith, contains-append c s t)

contains-add : (c k : Text) (s : List Text) → contains c (add k s) ≡ (contains c s || k == c)
unfolding add contains
contains-add c k s = ground (arith, contains-append c s (k ∷ []), eq_iff k c)

contains-add_all :
    (c : Text) (ks s : List Text) → contains c (add_all ks s) ≡ (contains c s || contains c ks)
unfolding add_all contains
contains-add_all c [] s = ground arith
contains-add_all c (k ∷ ks) s = ground (arith, contains-add_all c ks (add k s), contains-add c k s)

pub contains-new_set : (c : Text) (ks : List Text) → contains c (new_set ks) ≡ contains c ks
unfolding new_set contains
contains-new_set c ks = contains-add_all c ks []

module _ {ℓ} {A : Type ℓ} where
  -- map.get(k)
  unfoldable pub get : Text → List (Text × A) → Option A
  get k [] = none
  get k ((j, a) ∷ m) = if j == k then some a else get k m

  -- map.set(k, a): the entry of a key that is there keeps its place.
  unfoldable pub set : Text → A → List (Text × A) → List (Text × A)
  set k a [] = (k, a) ∷ []
  set k a ((j, b) ∷ m) = let rest = set k a m in if j == k then (j, a) ∷ m else (j, b) ∷ rest

  -- map.delete(k)
  unfoldable pub delete : Text → List (Text × A) → List (Text × A)
  delete k [] = []
  delete k ((j, b) ∷ m) = let rest = delete k m in if j == k then rest else (j, b) ∷ rest

  -- map.keys()
  abbrev pub keys : List (Text × A) → List Text
  keys m = map (λ e. e.0) m

  unfoldable pub set_all : List (Text × A) → List (Text × A) → List (Text × A)
  set_all [] m = m
  set_all ((k, a) ∷ es) m = set_all es (set k a m)

  -- new Map(es)
  unfoldable pub new_map : List (Text × A) → List (Text × A)
  unfolding set_all
  new_map es = set_all es []

  pub get-set :
      (j k : Text) (a : A) (m : List (Text × A))
      → get j (set k a m) ≡ (if k == j then some a else get j m)
  unfolding get set
  get-set j k a [] = refl
  get-set j k a ((i, b) ∷ m) = ground (arith, get-set j k a m, eq_iff i k, eq_iff i j, eq_iff k j)

  pub get-delete :
      (j k : Text) (m : List (Text × A)) → get j (delete k m) ≡ (if k == j then none else get j m)
  unfolding get delete
  get-delete j k [] = ground arith
  get-delete j k ((i, b) ∷ m) = ground (arith, get-delete j k m, eq_iff i k, eq_iff i j, eq_iff k j)

  pub get-missing : (k : Text) (m : List (Text × A)) → contains k (keys m) ≡ false → get k m ≡ none
  unfolding get contains
  get-missing k [] h = refl
  get-missing k ((j, a) ∷ m) h = ground (arith, get-missing k m)

  pub contains-keys-set :
      (j k : Text) (a : A) (m : List (Text × A))
      → contains j (keys (set k a m)) ≡ (contains j (keys m) || k == j)
  unfolding contains set
  contains-keys-set j k a [] = ground arith
  contains-keys-set j k a ((i, b) ∷ m) =
      ground (arith, contains-keys-set j k a m, eq_iff i k, eq_iff i j, eq_iff k j)

-- No key stands twice.
abbrev pub Distinct : List Text → Type 0
Distinct [] = Unit
Distinct (k ∷ ks) = (contains k ks ≡ false) × Distinct ks

module _ {ℓ} {A : Type ℓ} where
  pub Distinct-set :
      (k : Text) (a : A) (m : List (Text × A)) → Distinct (keys m) → Distinct (keys (set k a m))
  unfolding contains set
  Distinct-set k a [] d = (refl, tt)
  Distinct-set k a ((i, b) ∷ m) d =
      ground (arith, Distinct-set k a m d.1, contains-keys-set i k a m, eq_iff i k, eq_iff k i, d)

  pub All-entries :
      (P : Text × A → Type 0) (m : List (Text × A))
      → Distinct (keys m)
      → ((k : Text) (a : A) → get k m ≡ some a → P (k, a))
      → All P m
  unfolding get contains
  All-entries P [] d h = tt
  All-entries P ((k, a) ∷ m) d h = (
    h k a (ground (arith, eq_refl k)),
    All-entries P m d.1
        (λ j b found. h j b (ground (arith, d, found, eq_iff k j, get-missing k m))),
  )

  pub get-contains :
      (k : Text) (m : List (Text × A)) → contains k (keys m) ≡ true → (a : A) × (get k m ≡ some a)
  unfolding get contains
  get-contains k [] h = absurd (ground arith)
  get-contains k ((j, a) ∷ m) h = elim (Bool-cases (j == k)) [
    | inl e ↦ (a, ground (arith, e))
    | inr e ↦
        let found = get-contains k m (ground (arith, h, e)) in (found.0, ground (arith, e, found.1))
  ]

module _ {ℓ} {A : Type ℓ} where
  -- map.get(k) || []
  abbrev pub or_nil : Option (List A) → List A
  or_nil none = []
  or_nil (some xs) = xs

  -- map.get(k).push(a), after map.set(k, []) if there is no entry
  unfoldable pub push : Text → A → List (Text × List A) → List (Text × List A)
  unfolding get set
  push k a m = set k (or_nil (get k m) ++ a ∷ []) m

  pub get-push :
      (j k : Text) (a : A) (m : List (Text × List A))
      → get j (push k a m) ≡ (if k == j then some (or_nil (get k m) ++ a ∷ []) else get j m)
  unfolding push
  get-push j k a m = get-set j k (or_nil (get k m) ++ a ∷ []) m

  pub Distinct-push :
      (k : Text) (a : A) (m : List (Text × List A))
      → Distinct (keys m)
      → Distinct (keys (push k a m))
  unfolding push
  Distinct-push k a m d = Distinct-set k (or_nil (get k m) ++ a ∷ []) m d

  pub contains-keys-push :
      (j k : Text) (a : A) (m : List (Text × List A))
      → contains j (keys (push k a m)) ≡ (contains j (keys m) || k == j)
  unfolding push
  contains-keys-push j k a m = contains-keys-set j k (or_nil (get k m) ++ a ∷ []) m

module _ {A : Type 0} where
  -- The entries of a map are what it gets.
  pub get-In :
      (k : Text) (a : A) (m : List (Text × A)) → Distinct (keys m) → In (k, a) m → get k m ≡ some a
  unfolding get
  get-In k a [] d i = absurd i
  get-In k a ((j, b) ∷ m) d (inl same) =
      let key : j ≡ k = ap (λ (e : Text × A). e.0) same in
      let value : b ≡ a = ap (λ (e : Text × A). e.1) same in
      simp ((eq_iff j k).1 key) (ap (λ x. some x) value)
  get-In k a ((j, b) ∷ m) d (inr i) = elim (Bool-cases (j == k)) [
    | inl same ↦ absurd (
        ground (
          arith,
          get-In k a m d.1 i,
          get-missing k m,
          d.0,
          ap (λ t. contains t (keys m)) ((eq_iff j k).0 same),
        ))
    | inr other ↦ simp other (get-In k a m d.1 i)
  ]

  pub In-get : (k : Text) (a : A) (m : List (Text × A)) → get k m ≡ some a → In (k, a) m
  unfolding get
  In-get k a [] h = absurd (ground (arith, h))
  In-get k a ((j, b) ∷ m) h = elim (Bool-cases (j == k)) [
    | inl same ↦
        let value : b ≡ a = ground (arith, h, same) in
        inl (ap₂ (λ (x : Text) (y : A). (x, y)) ((eq_iff j k).0 same) value)
    | inr other ↦ inr (In-get k a m (ground (arith, h, other)))
  ]
