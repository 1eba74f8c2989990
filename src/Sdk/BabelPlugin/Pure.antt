-- ===== src/Sdk/BabelPlugin/Pure.antt =====
-- Expressions without effects, in programs that sdks/typescript/babel-plugin/src/index.ts instruments.
use raceway.Prelude.{
  ℕ, ◌≡◌, refl, ap, ap₂, ◌∙◌, Bool, true, false, ◌&&◌, ◌||◌, Option, none, some, arith,
}
use raceway.Text.{Text, ◌==◌, eq_iff}
use raceway.Sdk.BabelPlugin.{
  Expr, identifier, string_literal, numeric_literal, null_literal, member, binary, assignment, call,
  shorthands, position,
}
use raceway.Sdk.BabelPlugin.Semantics.{
  Value, null, number, text, literal_names, literal_position, State, ◌>>=◌, bind, get_property,
  Host, eval,
}

-- No calls, and no assignments.
unfoldable pub is_pure : Expr → Bool
is_pure (member o p) = is_pure o
is_pure (binary l r) = is_pure l && is_pure r
is_pure (assignment l r) = false
is_pure (call c as') = false
is_pure _ = true

unfoldable pub mentions : Text → Expr → Bool
mentions t (identifier x) = x == t
mentions t (member o p) = mentions t o
mentions t (binary l r) = mentions t l || mentions t r
mentions t _ = false

module _ (host : Host) (instance : Text) where
  -- The value of an expression without effects.
  unfoldable pub value_in : Expr → (Text → Value) → (ℕ → Text → Value) → Option Value
  value_in (identifier x) vars heap = some (vars x)
  value_in (string_literal t) vars heap = some (text t)
  value_in (numeric_literal n) vars heap = some (number n)
  value_in null_literal vars heap = some null
  value_in (shorthands names) vars heap = some (literal_names names)
  value_in (position file line) vars heap = some (literal_position file line)
  value_in (member o p) vars heap = do a ← value_in o vars heap; get_property a p heap
  value_in (binary l r) vars heap = do
    a ← value_in l vars heap
    b ← value_in r vars heap
    some (host.operator a b)
  value_in _ vars heap = none

  abbrev pub value : Expr → State → Option Value
  value e s = value_in e s.vars s.heap

  abbrev pub with_state : State → Option Value → Option (Value × State)
  with_state s none = none
  with_state s (some v) = some (v, s)

  member-with_state :
      (s : State) (p : Text) (a : Option Value)
      → (with_state s a >>= (λ v. get_property v.0 p (v.1).heap >>= (λ w. some (w, v.1))))
        ≡ with_state s (a >>= (λ v. get_property v p s.heap))
  member-with_state s p none = refl
  member-with_state s p (some v) = wrapped (get_property v p s.heap)
    where
      wrapped : (o : Option Value) → (o >>= (λ w. some (w, s))) ≡ with_state s o
      wrapped none = refl
      wrapped (some w) = refl

  binary-with_state :
      (s : State) (r : Expr) (a b : Option Value)
      → eval host instance r s ≡ with_state s b
      → (with_state s a
          >>= (λ v. eval host instance r v.1 >>= (λ w. some (host.operator v.0 w.0, w.1))))
        ≡ with_state s (a >>= (λ v. b >>= (λ w. some (host.operator v w))))
  binary-with_state s r none b e = refl
  binary-with_state s r (some v) none e = ap (λ o. o >>= (λ w. some (host.operator v w.0, w.1))) e
  binary-with_state s r (some v) (some w) e =
      ap (λ o. o >>= (λ w. some (host.operator v w.0, w.1))) e

  pub eval-value :
      (e : Expr) (s : State) → is_pure e ≡ true → eval host instance e s ≡ with_state s (value e s)
  unfolding eval value_in is_pure
  eval-value (identifier x) s h = refl
  eval-value (string_literal t) s h = refl
  eval-value (numeric_literal n) s h = refl
  eval-value null_literal s h = refl
  eval-value (shorthands names) s h = refl
  eval-value (position file line) s h = refl
  eval-value (member o p) s h =
      ap (λ a. a >>= (λ v. get_property v.0 p (v.1).heap >>= (λ w. some (w, v.1))))
        (eval-value o s h)
      ∙ member-with_state s p (value o s)
  eval-value (binary l r) s h =
      ap (λ a. a >>= (λ v. eval host instance r v.1 >>= (λ w. some (host.operator v.0 w.0, w.1))))
        (eval-value l s (ground (arith, h)))
      ∙ binary-with_state s r (value l s) (value r s) (eval-value r s (ground (arith, h)))
  eval-value (assignment l r) s h = ground arith
  eval-value (call c es) s h = ground arith

  pub value-fresh :
      (t : Text) (v : Value) (e : Expr) (s : State)
      → mentions t e ≡ false
      → value e (record s { vars = bind t v s.vars }) ≡ value e s
  unfolding value_in mentions bind
  value-fresh t v (identifier x) s h = ground (arith, h, eq_iff x t, eq_iff t x)
  value-fresh t v (string_literal u) s h = refl
  value-fresh t v (numeric_literal n) s h = refl
  value-fresh t v null_literal s h = refl
  value-fresh t v (shorthands names) s h = refl
  value-fresh t v (position file line) s h = refl
  value-fresh t v (member o p) s h =
      ap (λ a. a >>= (λ w. get_property w p s.heap)) (value-fresh t v o s h)
  value-fresh t v (binary l r) s h =
      ap₂ (λ a b. a >>= (λ w. b >>= (λ x. some (host.operator w x))))
        (value-fresh t v l s (ground (arith, h))) (value-fresh t v r s (ground (arith, h)))
  value-fresh t v (assignment l r) s h = refl
  value-fresh t v (call c es) s h = refl
