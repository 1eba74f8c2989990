-- ===== src/Prelude/Collect.antt =====
-- Lists that are filtered, concatenated, or mapped by a function that may fail, and what is in them.
use mathlib.Core.Path.{◌≡◌, refl, sym, ap, subst, ◌∙◌}
use mathlib.Core.Logic.{◌⊎◌, inl, inr}
use mathlib.Core.Bool.{Bool, true}
use mathlib.Core.List.{List, [], ◌∷◌, ◌++◌, map}
use mathlib.Core.Option.{Option, none, some}
use native.Mathlib.Omega.{arith}
use raceway.Prelude.Tests.{if◌then◌else◌, Bool-cases}
use raceway.Prelude.Lists.{In, In-append_left, In-append_right}

module _ {ℓ} {A : Type ℓ} where
  -- xs.filter(p)
  abbrev pub filter : (A → Bool) → List A → List A
  filter p [] = []
  filter p (x ∷ xs) = if p x then x ∷ filter p xs else filter p xs

  abbrev pub concat : List (List A) → List A
  concat [] = []
  concat (xs ∷ rest) = xs ++ concat rest

  abbrev pub cons_both : Option A → Option (List A) → Option (List A)
  cons_both none bs = none
  cons_both (some b) none = none
  cons_both (some b) (some bs) = some (b ∷ bs)

module _ {ℓ κ} {A : Type ℓ} {B : Type κ} where
  -- The values of a function that may fail.
  abbrev pub traverse : (A → Option B) → List A → Option (List B)
  traverse f [] = some []
  traverse f (a ∷ more) = cons_both (f a) (traverse f more)

module _ {A : Type 0} where
  pub In-filter : (p : A → Bool) (a : A) (xs : List A) → In a xs → p a ≡ true → In a (filter p xs)
  In-filter p a [] i on = absurd i
  In-filter p a (x ∷ xs) (inl e) on = simp (ap p e ∙ on) (inl e)
  In-filter p a (x ∷ xs) (inr i) on = elim (Bool-cases (p x)) [
    | inl here ↦ simp here (inr (In-filter p a xs i on))
    | inr skip ↦ simp skip (In-filter p a xs i on)
  ]

  pub In-filter_both :
      (p : A → Bool) (a : A) (xs : List A) → In a (filter p xs) → In a xs × (p a ≡ true)
  In-filter_both p a [] i = absurd i
  In-filter_both p a (x ∷ xs) i = elim (Bool-cases (p x)) [
    | inl here ↦
        elim (subst (λ (b : Bool). In a (if b then x ∷ filter p xs else filter p xs)) here i) [
          | inl e ↦ (inl e, sym (ap p e) ∙ here)
          | inr later ↦ let both = In-filter_both p a xs later in (inr both.0, both.1)
        ]
    | inr skip ↦
        let both =
          In-filter_both p a xs
            (subst (λ (b : Bool). In a (if b then x ∷ filter p xs else filter p xs)) skip i) in
        (inr both.0, both.1)
  ]

module _ {A : Type 0} where
  pub In-concat :
      (a : A) (xs : List A) (lists : List (List A)) → In a xs → In xs lists → In a (concat lists)
  In-concat a xs [] i j = absurd j
  In-concat a xs (ys ∷ rest) i (inl e) = In-append_left a ys (concat rest) (subst (In a) (sym e) i)
  In-concat a xs (ys ∷ rest) i (inr j) =
      In-append_right a ys (concat rest) (In-concat a xs rest i j)

  pub In-append_cases : (a : A) (xs ys : List A) → In a (xs ++ ys) → In a xs ⊎ In a ys
  In-append_cases a [] ys i = inr i
  In-append_cases a (x ∷ xs) ys (inl e) = inl (inl e)
  In-append_cases a (x ∷ xs) ys (inr i) = elim (In-append_cases a xs ys i) [
    | inl l ↦ inl (inr l)
    | inr r ↦ inr r
  ]

  pub In-concat_piece :
      (a : A) (lists : List (List A)) → In a (concat lists) → (xs : List A) × In xs lists × In a xs
  In-concat_piece a [] i = absurd i
  In-concat_piece a (xs ∷ rest) i = elim (In-append_cases a xs (concat rest) i) [
    | inl here ↦ (xs, inl refl, here)
    | inr later ↦ let found = In-concat_piece a rest later in (found.0, inr found.1, found.2)
  ]

module _ {B : Type 0} where
  cons_both-parts :
      (o : Option B) (p : Option (List B)) (bs : List B)
      → cons_both o p ≡ some bs
      → (b : B) × (cs : List B) × (o ≡ some b) × (p ≡ some cs) × (b ∷ cs ≡ bs)
  cons_both-parts none p bs h = absurd (ground (arith, h))
  cons_both-parts (some b) none bs h = absurd (ground (arith, h))
  cons_both-parts (some b) (some cs) bs h = (b, cs, refl, refl, ground (arith, h))

module _ {A : Type 0} {B : Type 0} where
  pub In-map : (f : A → B) (a : A) (xs : List A) → In a xs → In (f a) (map f xs)
  In-map f a [] i = absurd i
  In-map f a (x ∷ xs) (inl e) = inl (ap f e)
  In-map f a (x ∷ xs) (inr i) = inr (In-map f a xs i)

  pub In-map_source :
      (f : A → B) (b : B) (xs : List A) → In b (map f xs) → (a : A) × In a xs × (f a ≡ b)
  In-map_source f b [] i = absurd i
  In-map_source f b (x ∷ xs) (inl e) = (x, inl refl, e)
  In-map_source f b (x ∷ xs) (inr i) =
      let later = In-map_source f b xs i in (later.0, inr later.1, later.2)

  -- Where each value is there, the list of them is there.
  pub traverse-total :
      (f : A → Option B) (list : List A)
      → ((a : A) → In a list → (b : B) × (f a ≡ some b))
      → (bs : List B) × (traverse f list ≡ some bs)
  traverse-total f [] h = ([], refl)
  traverse-total f (a ∷ more) h =
      let one = h a (inl refl) in
      let others = traverse-total f more (λ x i. h x (inr i)) in
      (one.0 ∷ others.0, rw (one.1, others.1) refl)

  pub traverse-In :
      (f : A → Option B) (a : A) (list : List A) (bs : List B)
      → traverse f list ≡ some bs
      → In a list
      → (b : B) × (f a ≡ some b) × In b bs
  traverse-In f a [] bs e i = absurd i
  traverse-In f a (x ∷ more) bs e (inl same) =
      let (b, cs, head, tail, whole) = cons_both-parts (f x) (traverse f more) bs e in
      (b, sym (ap f same) ∙ head, subst (In b) whole (inl refl))
  traverse-In f a (x ∷ more) bs e (inr i) =
      let (b, cs, head, tail, whole) = cons_both-parts (f x) (traverse f more) bs e in
      let later = traverse-In f a more cs tail i in
      (later.0, later.1, subst (In later.0) whole (inr later.2))

  pub In-traverse :
      (f : A → Option B) (b : B) (list : List A) (bs : List B)
      → traverse f list ≡ some bs
      → In b bs
      → (a : A) × (f a ≡ some b) × In a list
  In-traverse f b [] bs e i = absurd (subst (In b) (sym (nil bs e)) i)
    where
      nil : (l : List B) → ◌≡◌ {A = Option (List B)} (some []) (some l) → [] ≡ l
      nil l h = ground (arith, h)
  In-traverse f b (x ∷ more) bs e i =
      let (c, cs, head, tail, whole) = cons_both-parts (f x) (traverse f more) bs e in
      elim (subst (In b) (sym whole) i) [
        | inl same ↦ (x, head ∙ ap (λ y. some y) same, inl refl)
        | inr later ↦
            let found = In-traverse f b more cs tail later in (found.0, found.1, inr found.2)
      ]
