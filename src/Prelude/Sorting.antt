-- ===== src/Prelude/Sorting.antt =====
-- Stable sorts, and what is in them.
use Prim.Native.Nat.{ℕ, ◌≤◌}
use mathlib.Core.Path.{◌≡◌, ap}
use mathlib.Core.Logic.{◌⊎◌, inl, inr}
use mathlib.Core.Bool.{Bool, true}
use mathlib.Core.List.{List, [], ◌∷◌}
use native.Mathlib.Omega.{arith}
use raceway.Prelude.Tests.{leb, if◌then◌else◌, Bool-cases}
use raceway.Prelude.Lists.{In}

module _ {ℓ} {A : Type ℓ} where
  -- A stable sort by a test whether one element may stand before another.
  unfoldable pub insert_with : (A → A → Bool) → A → List A → List A
  insert_with before e [] = e ∷ []
  insert_with before e (f ∷ fs) =
      let rest = insert_with before e fs in if before e f then e ∷ f ∷ fs else f ∷ rest

  unfoldable pub sort_with : (A → A → Bool) → List A → List A
  unfolding insert_with
  sort_with before [] = []
  sort_with before (e ∷ es) = insert_with before e (sort_with before es)

  -- xs.sort((a, b) => key(a) - key(b))
  unfoldable pub sort_by : (A → ℕ) → List A → List A
  unfolding sort_with
  sort_by key es = sort_with (λ a b. leb (key a) (key b)) es

module _ {A : Type 0} where
  In-insert_with :
      (before : A → A → Bool) (d e : A) (es : List A)
      → ((e ≡ d) ⊎ In d es → In d (insert_with before e es))
        × (In d (insert_with before e es) → (e ≡ d) ⊎ In d es)
  unfolding insert_with
  In-insert_with before d e [] = ((λ h. h), (λ h. h))
  In-insert_with before d e (f ∷ fs) = ground (arith, In-insert_with before d e fs)

  pub In-sort_with :
      (before : A → A → Bool) (d : A) (es : List A) → In d es → In d (sort_with before es)
  unfolding sort_with
  In-sort_with before d [] i = i
  In-sort_with before d (e ∷ es) (inl same) =
      (In-insert_with before d e (sort_with before es)).0 (inl same)
  In-sort_with before d (e ∷ es) (inr i) =
      (In-insert_with before d e (sort_with before es)).0 (inr (In-sort_with before d es i))

  pub In-sort_with_back :
      (before : A → A → Bool) (d : A) (es : List A) → In d (sort_with before es) → In d es
  unfolding sort_with
  In-sort_with_back before d [] i = i
  In-sort_with_back before d (e ∷ es) i =
      elim ((In-insert_with before d e (sort_with before es)).1 i) [
        | inl same ↦ inl same
        | inr later ↦ inr (In-sort_with_back before d es later)
      ]

  pub In-sort_by : (key : A → ℕ) (d : A) (es : List A) → In d es → In d (sort_by key es)
  unfolding sort_by
  In-sort_by key d es i = In-sort_with (λ a b. leb (key a) (key b)) d es i

  pub In-sort_by_back : (key : A → ℕ) (d : A) (es : List A) → In d (sort_by key es) → In d es
  unfolding sort_by
  In-sort_by_back key d es i = In-sort_with_back (λ a b. leb (key a) (key b)) d es i

  -- No element has a greater key than a later one.
  abbrev pub IsSortedBy : (A → ℕ) → List A → Type 0
  IsSortedBy key [] = Unit
  IsSortedBy key (e ∷ es) = ((d : A) → In d es → key e ≤ key d) × IsSortedBy key es

  abbrev up_by : (A → ℕ) → A → A → Bool
  up_by key a b = leb (key a) (key b)

  insert_with-IsSortedBy :
      (key : A → ℕ) (e : A) (es : List A)
      → IsSortedBy key es
      → IsSortedBy key (insert_with (up_by key) e es)
  unfolding insert_with
  insert_with-IsSortedBy key e [] h = ((λ d i. absurd i), tt)
  insert_with-IsSortedBy key e (f ∷ fs) h = elim (Bool-cases (leb (key e) (key f))) [
    | inl le ↦ rw (insert_with, le) ((λ d i. lower d i le), h)
    | inr gt ↦
        rw (insert_with, gt)
          (
            (λ d i. elim ((In-insert_with (up_by key) d e fs).1 i) [
              | inl same ↦ ground (arith, gt, ap key same)
              | inr later ↦ h.0 d later
            ]),
            insert_with-IsSortedBy key e fs h.1,
          )
  ]
    where
      lower : (d : A) → In d (f ∷ fs) → leb (key e) (key f) ≡ true → key e ≤ key d
      lower d (inl same) le = ground (arith, le, ap key same)
      lower d (inr later) le = ground (arith, le, h.0 d later)

  sort_with-IsSortedBy : (key : A → ℕ) (es : List A) → IsSortedBy key (sort_with (up_by key) es)
  unfolding sort_with
  sort_with-IsSortedBy key [] = tt
  sort_with-IsSortedBy key (e ∷ es) =
      insert_with-IsSortedBy key e (sort_with (up_by key) es) (sort_with-IsSortedBy key es)

  pub sort_by-IsSortedBy : (key : A → ℕ) (es : List A) → IsSortedBy key (sort_by key es)
  unfolding sort_by
  sort_by-IsSortedBy key es = sort_with-IsSortedBy key es
