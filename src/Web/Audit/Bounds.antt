-- ===== src/Web/Audit/Bounds.antt =====
-- Steps below a bound (web/src/components/views/audit/AuditTrailView.tsx).
use raceway.Prelude.{
  ℕ, zero, suc, ◌-◌, ◌<◌, ◌≡◌, refl, sym, ap, subst, pos, ℤ, pred_int, leb_int, leb, inl, inr,
  arith, Bool-cases,
}
use raceway.Web.Audit.Player.{min_int, max_int}

-- The step has an index below the bound.
abbrev pub IsBelow : ℕ → ℤ → Type 0
IsBelow n step = (i : ℕ) × (step ≡ pos i) × (i < n)

pub back_IsBelow : (n i : ℕ) → i < n → IsBelow n (max_int (pos 0) (pred_int (pos i)))
unfolding max_int pred_int leb_int
back_IsBelow n zero lt = (0, refl, lt)
back_IsBelow n (suc i) lt = (i, ground arith, omega (arith, lt))

pub last_IsBelow : (n : ℕ) → 0 < n → (pred_int (pos n) ≡ pos (n - 1)) × (n - 1 < n)
unfolding pred_int
last_IsBelow zero lt = absurd (omega (arith, lt))
last_IsBelow (suc n) lt = (ap pos (omega arith), omega arith)

pub min_IsBelow : (n i : ℕ) → 0 < n → IsBelow n (min_int (pos i) (pred_int (pos n)))
unfolding min_int leb_int
min_IsBelow n i lt =
    let end = last_IsBelow n lt in
    subst (λ l. IsBelow n (min_int (pos i) l)) (sym end.0)
      (elim (Bool-cases (leb i (n - 1))) [
        | inl le ↦ (i, ground (arith, le), ground (arith, le, lt))
        | inr gt ↦ (n - 1, ground (arith, gt), end.1)
      ])

pub min_IsBelow_turned : (n i : ℕ) → 0 < n → IsBelow n (min_int (pred_int (pos n)) (pos i))
unfolding min_int leb_int
min_IsBelow_turned n i lt =
    let end = last_IsBelow n lt in
    subst (λ l. IsBelow n (min_int l (pos i))) (sym end.0)
      (elim (Bool-cases (leb (n - 1) i)) [
        | inl le ↦ (n - 1, ground (arith, le), end.1)
        | inr gt ↦ (i, ground (arith, gt), ground (arith, gt, lt))
      ])

pub max_IsBelow : (n : ℕ) (z : ℤ) → IsBelow n z → IsBelow n (max_int (pos 0) z)
unfolding max_int leb_int
max_IsBelow n z (i, at, lt) =
    subst (λ s. IsBelow n (max_int (pos 0) s)) (sym at) (i, ground arith, lt)
