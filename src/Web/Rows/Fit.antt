-- ===== src/Web/Rows/Fit.antt =====
-- The row that an event is put on (web/src/components/features/events/TimelineView.tsx).
use raceway.Prelude.{
  ℕ, zero, suc, ◌+◌, ◌≤◌, ◌<◌, ◌≡◌, refl, sym, subst, ◌⊎◌, inl, inr, List, [], ◌∷◌, some, length,
  get_elem?, leb, nat_eq, arith, if◌then◌else◌, Bool-cases,
}
use raceway.Web.Rows.{free_row, assigned_row, set_row_end}

-- The rows below the index end after the start.
abbrev pub AreBusy : ℕ → List ℕ → ℕ → Type 0
AreBusy start rows n = (k : ℕ) → k < n → (t : ℕ) × (get_elem? rows k ≡ some t) × (start < t)

-- The row is there and ends by the start, or is the next new one; each lower row ends after the start.
abbrev pub IsFit : ℕ → List ℕ → ℕ → Type 0
IsFit start rows r =
    (r ≤ length rows) × ((t : ℕ) → get_elem? rows r ≡ some t → t ≤ start) × AreBusy start rows r

abbrev IsFree : ℕ → List ℕ → ℕ → Type 0
IsFree start rows k =
    (k < length rows) × (t : ℕ) × (get_elem? rows k ≡ some t) × (t ≤ start) × AreBusy start rows k

AreBusy-next :
    (start t n : ℕ) (rows : List ℕ)
    → start < t
    → AreBusy start rows n
    → AreBusy start (t ∷ rows) (suc n)
AreBusy-next start t n rows lt busy zero h = (t, refl, lt)
AreBusy-next start t n rows lt busy (suc k) h = busy k (omega (arith, h))

free_row-cases :
    (start i : ℕ) (rows : List ℕ)
    → ((k : ℕ) × (free_row start i rows ≡ i + k) × IsFree start rows k)
      ⊎ ((free_row start i rows ≡ 0) × AreBusy start rows (length rows))
unfolding free_row
free_row-cases start i [] = inr (refl, (λ k h. absurd (omega (arith, h))))
free_row-cases start i (t ∷ rows) = elim (Bool-cases (leb t start)) [
  | inl free ↦ inl (
    0,
    ground (arith, free),
    (omega arith, t, refl, ground (arith, free), (λ k h. absurd (omega (arith, h)))),
  )
  | inr busy ↦
      let lt : start < t = ground (arith, busy) in
      elim (free_row-cases start (suc i) rows) [
        | inl (k, at, (within, u, found, by, lower)) ↦ inl (
          suc k,
          ground (arith, busy, at),
          (omega (arith, within), u, found, by, AreBusy-next start t k rows lt lower),
        )
        | inr (none_free, all) ↦
            inr (ground (arith, busy, none_free), AreBusy-next start t (length rows) rows lt all)
      ]
]

get_elem?-length : (rows : List ℕ) (t : ℕ) → get_elem? rows (length rows) ≡ some t → ⊥
get_elem?-length [] t h = absurd (ground (arith, h))
get_elem?-length (u ∷ rows) t h = get_elem?-length rows t h

pub assigned_row-IsFit : (start : ℕ) (rows : List ℕ) → IsFit start rows (assigned_row start rows)
unfolding assigned_row
assigned_row-IsFit start rows = elim (free_row-cases start 0 rows) [
  | inl (k, at, (within, t, found, by, lower)) ↦
      subst (IsFit start rows) (sym (to_free rows k t (omega (arith, at)) found by))
        (omega (arith, within), (λ u h. ground (arith, found, h, by)), lower)
  | inr (none_free, all) ↦
      subst (IsFit start rows) (sym (to_new rows none_free all))
        (omega arith, (λ u h. absurd (get_elem?-length rows u h)), all)
]
  where
    to_free :
        (l : List ℕ) (k t : ℕ)
        → free_row start 0 l ≡ k
        → get_elem? l k ≡ some t
        → t ≤ start
        → assigned_row start l ≡ k
    to_free [] k t at found by = absurd (ground (arith, found))
    to_free (u ∷ l) zero t at found by = ground (arith, at, found, by)
    to_free (u ∷ l) (suc k) t at found by = ground (arith, at)

    to_new :
        (l : List ℕ)
        → free_row start 0 l ≡ 0
        → AreBusy start l (length l)
        → assigned_row start l ≡ length l
    to_new [] free all = ground (arith, free)
    to_new (u ∷ l) free all =
        let first = all 0 (omega arith) in ground (arith, free, first.1, first.2)

pub get_elem?-set_row_end :
    (r time k : ℕ) (rows : List ℕ)
    → r ≤ length rows
    → get_elem? (set_row_end r time rows) k ≡ (if nat_eq r k then some time else get_elem? rows k)
unfolding set_row_end
get_elem?-set_row_end zero time zero [] le = ground arith
get_elem?-set_row_end zero time (suc k) [] le = ground arith
get_elem?-set_row_end (suc r) time k [] le = absurd (omega (arith, le))
get_elem?-set_row_end zero time zero (t ∷ rows) le = ground arith
get_elem?-set_row_end zero time (suc k) (t ∷ rows) le = ground arith
get_elem?-set_row_end (suc r) time zero (t ∷ rows) le = ground arith
get_elem?-set_row_end (suc r) time (suc k) (t ∷ rows) le =
    ground (arith, get_elem?-set_row_end r time k rows (omega (arith, le)))
