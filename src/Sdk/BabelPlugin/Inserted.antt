-- ===== src/Sdk/BabelPlugin/Inserted.antt =====
-- What is inserted before an assignment (sdks/typescript/babel-plugin/src/index.ts).
use raceway.Prelude.{
  ℕ, suc, ◌≡◌, refl, Bool, true, false, not, ◌&&◌, [], ◌++◌, arith, Bool-cases, inl, inr,
}
use raceway.Text.{Text, ◌==◌}
use raceway.Sdk.BabelPlugin.{
  Expr, identifier, string_literal, numeric_literal, null_literal, member, binary, assignment, call,
  shorthands, position, PluginOptions, unless_false, instance_name, name_or, visit_assignment,
  visit_member,
}
use raceway.Sdk.BabelPlugin.Traversal.{around, visit_expr}

abbrev is_member : Expr → Bool
is_member (member o p) = true
is_member _ = false

-- No assignments and calls, and no member directly under an operator.
unfoldable pub has_no_reads : Expr → Bool
has_no_reads (member o p) = has_no_reads o
has_no_reads (binary l r) =
    (not (is_member l) && not (is_member r)) && (has_no_reads l && has_no_reads r)
has_no_reads (assignment l r) = false
has_no_reads (call c es) = false
has_no_reads _ = true

visits-none :
    (options : PluginOptions) (uid : ℕ → Text) (tracked : Bool) (e : Expr) (n : ℕ)
    → has_no_reads e ≡ true
    → (tracked && is_member e) ≡ false
    → (visit_expr options uid tracked e n).0 ≡ []
unfolding visit_expr has_no_reads around
visits-none options uid true (member o p) n h t = absurd (ground (arith, t))
visits-none options uid false (member o p) n h t = visits-none options uid false o _ h refl
visits-none options uid tracked (binary l r) n h t =
    rw
      (
        visits-none options uid true l n (ground (arith, h)) (ground (arith, h)),
        visits-none options uid true r (visit_expr options uid true l n).1 (ground (arith, h))
            (ground (arith, h)),
      )
      refl
visits-none options uid tracked (assignment l r) n h t = absurd (ground (arith, h))
visits-none options uid tracked (call c es) n h t = absurd (ground (arith, h))
visits-none options uid tracked (identifier x) n h t = refl
visits-none options uid tracked (string_literal u) n h t = refl
visits-none options uid tracked (numeric_literal m) n h t = refl
visits-none options uid tracked null_literal n h t = refl
visits-none options uid tracked (shorthands ns) n h t = refl
visits-none options uid tracked (position u m) n h t = refl

module _ (options : PluginOptions) (uid : ℕ → Text) (n : ℕ) (right : Expr) where
  -- What is inserted for an assignment of two sides for which nothing more is inserted.
  pub identifier-inserted :
      (x : Text)
      → unless_false options.instrument_assignments ≡ true
      → has_no_reads right ≡ true
      → (visit_expr options uid true (assignment (identifier x) right) n).0
        ≡ visit_assignment options (uid n) (identifier x) right
  unfolding visit_expr around visit_assignment
  identifier-inserted x on simple =
      let told = visit_expr options uid false right (suc n) in
      rw
        (
          on,
          visits-none options uid false right (suc n) simple refl,
          visits-none options uid false right told.1 simple refl,
        )
        refl

  pub member-inserted :
      (o : Expr) (p : Text)
      → unless_false options.instrument_assignments ≡ true
      → has_no_reads o ≡ true
      → has_no_reads right ≡ true
      → (visit_expr options uid true (assignment (member o p) right) n).0
        ≡ visit_member options o p ++ visit_assignment options (uid n) (member o p) right
  unfolding visit_expr around visit_assignment visit_member
  member-inserted o p on simple_o simple =
      let copy = visit_expr options uid false o (suc n) in
      let inner = visit_expr options uid false o copy.1 in
      let told = visit_expr options uid false right inner.1 in
      let left_copy = visit_expr options uid false o told.1 in
      let left = visit_expr options uid false o left_copy.1 in
      let quiet_o = λ (m : ℕ). visits-none options uid false o m simple_o refl in
      let quiet = λ (m : ℕ). visits-none options uid false right m simple refl in
      elim (Bool-cases (name_or options [] o == instance_name options)) [
        | inl is ↦
            rw (on, is, quiet_o copy.1, quiet inner.1, quiet_o left_copy.1, quiet left.1) refl
        | inr other ↦
            rw
              (
                on,
                other,
                quiet_o (suc n),
                quiet_o copy.1,
                quiet inner.1,
                quiet_o left_copy.1,
                quiet left.1,
              )
              refl
      ]
