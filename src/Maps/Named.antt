-- ===== src/Maps/Named.antt =====
-- Elements under names, and the map of them.
use raceway.Prelude.{
  ◌≡◌, refl, sym, ap, subst, ◌∙◌, ◌⊎◌, inl, inr, true, false, List, [], ◌∷◌, some, map, arith, In,
  Bool-cases,
}
use raceway.Text.{Text, ◌==◌, eq_iff, eq_refl}
use raceway.Maps.{contains, get, set, set_all, new_map, get-set, Distinct}

module _ {A : Type 0} (f : A → Text) where
  pub map-contains :
      (k : Text) (xs : List A) → contains k (map f xs) ≡ true → (a : A) × In a xs × (f a ≡ k)
  unfolding contains
  map-contains k [] h = absurd (ground (arith, h))
  map-contains k (x ∷ xs) h = elim (Bool-cases (f x == k)) [
    | inl here ↦ (x, inl refl, (eq_iff (f x) k).0 here)
    | inr on ↦
        let later = map-contains k xs (ground (arith, h, on)) in (later.0, inr later.1, later.2)
  ]

  contains-map : (a : A) (xs : List A) → In a xs → contains (f a) (map f xs) ≡ true
  unfolding contains
  contains-map a [] i = absurd i
  contains-map a (x ∷ xs) (inl same) = ground (arith, (eq_iff (f x) (f a)).1 (ap f same))
  contains-map a (x ∷ xs) (inr i) = ground (arith, contains-map a xs i)

  -- Under a name that no two elements share, there is one element.
  pub Distinct-same :
      (a b : A) (xs : List A) → Distinct (map f xs) → In a xs → In b xs → f a ≡ f b → a ≡ b
  Distinct-same a b [] d i j e = absurd i
  Distinct-same a b (x ∷ xs) d (inl s) (inl t) e = sym s ∙ t
  Distinct-same a b (x ∷ xs) d (inl s) (inr j) e = absurd (
      ground (
        arith,
        d.0,
        subst (λ k. contains k (map f xs) ≡ true) (sym e ∙ sym (ap f s)) (contains-map b xs j),
      ))
  Distinct-same a b (x ∷ xs) d (inr i) (inl t) e = absurd (
      ground (
        arith,
        d.0,
        subst (λ k. contains k (map f xs) ≡ true) (e ∙ sym (ap f t)) (contains-map a xs i),
      ))
  Distinct-same a b (x ∷ xs) d (inr i) (inr j) e = Distinct-same a b xs d.1 i j e

  -- What the map of the elements gets is an element of that name, or was there before.
  set_all-source :
      (k : Text) (a : A) (xs : List A) (m : List (Text × A))
      → get k (set_all (map (λ x. (f x, x)) xs) m) ≡ some a
      → (In a xs × (f a ≡ k)) ⊎ (get k m ≡ some a)
  unfolding set_all
  set_all-source k a [] m h = inr h
  set_all-source k a (x ∷ xs) m h = elim (set_all-source k a xs (set (f x) x m) h) [
    | inl later ↦ inl (inr later.0, later.1)
    | inr old ↦ elim (Bool-cases (f x == k)) [
      | inl same ↦
          let is : x ≡ a = ground (arith, old, same, get-set k (f x) x m) in
          inl (inl is, sym (ap f is) ∙ (eq_iff (f x) k).0 same)
      | inr other ↦ inr (ground (arith, old, other, get-set k (f x) x m))
    ]
  ]

  set_all-kept :
      (k : Text) (a : A) (xs : List A) (m : List (Text × A))
      → contains k (map f xs) ≡ false
      → get k m ≡ some a
      → get k (set_all (map (λ x. (f x, x)) xs) m) ≡ some a
  unfolding set_all contains
  set_all-kept k a [] m free h = h
  set_all-kept k a (x ∷ xs) m free h =
      set_all-kept k a xs (set (f x) x m) (ground (arith, free))
        (ground (arith, free, h, get-set k (f x) x m))

  set_all-named :
      (a : A) (xs : List A) (m : List (Text × A))
      → Distinct (map f xs)
      → In a xs
      → get (f a) (set_all (map (λ x. (f x, x)) xs) m) ≡ some a
  unfolding set_all
  set_all-named a [] m d i = absurd i
  set_all-named a (x ∷ xs) m d (inl same) =
      subst (λ y. get (f y) (set_all (map (λ z. (f z, z)) xs) (set (f x) x m)) ≡ some y) same
        (set_all-kept (f x) x xs (set (f x) x m) d.0
          (ground (arith, get-set (f x) (f x) x m, eq_refl (f x))))
  set_all-named a (x ∷ xs) m d (inr i) = set_all-named a xs (set (f x) x m) d.1 i

  pub new_map-source :
      (k : Text) (a : A) (xs : List A)
      → get k (new_map (map (λ x. (f x, x)) xs)) ≡ some a
      → In a xs × (f a ≡ k)
  unfolding new_map get
  new_map-source k a xs h = elim (set_all-source k a xs [] h) [
    | inl found ↦ found
    | inr bad ↦ absurd (ground (arith, bad))
  ]

  pub new_map-named :
      (a : A) (xs : List A)
      → Distinct (map f xs)
      → In a xs
      → get (f a) (new_map (map (λ x. (f x, x)) xs)) ≡ some a
  unfolding new_map
  new_map-named a xs d i = set_all-named a xs [] d i
