-- ===== src/Sdk/BabelPlugin/Semantics.antt =====
-- What programs do, for the syntax of sdks/typescript/babel-plugin/src/index.ts: ECMAScript's order
-- of evaluation, where `none` is a thrown error.
use raceway.Prelude.{ℕ, nat_eq, ◌&&◌, List, [], ◌∷◌, ◌++◌, Option, none, some, if◌then◌else◌}
use raceway.Text.{Text, ◌==◌}
use raceway.Sdk.BabelPlugin.{
  Expr, identifier, string_literal, numeric_literal, null_literal, member, binary, assignment, call,
  shorthands, position, Exprs, nil, cons, Stmt, expression, const,
}

-- Object literals are values of their own, of which the runtime gets a copy.
pub data Value : Type 0 where
  undefined null : Value
  number : ℕ → Value
  text : Text → Value
  object : ℕ → Value
  literal_names : List Text → Value
  literal_position : Text → ℕ → Value

-- A call of the runtime's instance: the method and the arguments.
pub record Entry : Type 0 where
  pub method : Text
  pub arguments : List Value

pub record State : Type 0 where
  pub vars : Text → Value
  pub heap : ℕ → Text → Value
  pub log : List Entry

infixl 5 ◌>>=◌
abbrev pub ◌>>=◌ {ℓ κ} : {A : Type ℓ} {B : Type κ} → Option A → (A → Option B) → Option B
none >>= k = none
some a >>= k = k a

unfoldable pub bind : Text → Value → (Text → Value) → Text → Value
bind x v vars y = if x == y then v else vars y

unfoldable pub set_property : ℕ → Text → Value → (ℕ → Text → Value) → ℕ → Text → Value
set_property a p v heap b q = if nat_eq a b && p == q then v else heap b q

-- v.p; only `undefined` and `null` throw
abbrev pub get_property : Value → Text → (ℕ → Text → Value) → Option Value
get_property undefined p heap = none
get_property null p heap = none
get_property (object a) p heap = some (heap a p)
get_property _ p heap = some undefined

-- v.p = w
abbrev pub put_property : Value → Text → Value → State → Option State
put_property undefined p w s = none
put_property null p w s = none
put_property (object a) p w s = some (record s { heap = set_property a p w s.heap })
put_property _ p w s = some s

-- What the program's operators and the functions that it calls do.
pub record Host : Type 0 where
  pub operator : Value → Value → Value
  pub calls : Expr → List Value → State → Option (Value × State)

-- The method, if the callee is one of the instance.
abbrev pub runtime_method : Text → Expr → Option Text
runtime_method instance (member (identifier name) property) =
    if name == instance then some property else none
runtime_method instance _ = none

module _ (host : Host) (instance : Text) where
  unfoldable mutual
    unfolding bind set_property

    pub eval : Expr → State → Option (Value × State)
    eval (identifier x) s = some (s.vars x, s)
    eval (string_literal t) s = some (text t, s)
    eval (numeric_literal n) s = some (number n, s)
    eval null_literal s = some (null, s)
    eval (shorthands names) s = some (literal_names names, s)
    eval (position file line) s = some (literal_position file line, s)
    eval (member o p) s = do a ← eval o s; v ← get_property a.0 p a.1.heap; some (v, a.1)
    eval (binary l r) s = do a ← eval l s; b ← eval r a.1; some (host.operator a.0 b.0, b.1)
    eval (assignment (identifier x) r) s = do
      b ← eval r s
      some (b.0, record (b.1) { vars = bind x b.0 (b.1).vars })
    eval (assignment (member o p) r) s = do
      a ← eval o s
      b ← eval r a.1
      s' ← put_property a.0 p b.0 b.1
      some (b.0, s')
    eval (assignment _ r) s = none
    eval (call callee arguments) s = do
      vs ← eval_all arguments s
      elim (runtime_method instance callee) [
        | some method ↦ some (
          undefined,
          record (vs.1) { log = (vs.1).log ++ record { method = method; arguments = vs.0 } ∷ [] },
        )
        | none ↦ host.calls callee vs.0 vs.1
      ]

    pub eval_all : Exprs → State → Option (List Value × State)
    eval_all nil s = some ([], s)
    eval_all (cons e es) s = do a ← eval e s; b ← eval_all es a.1; some (a.0 ∷ b.0, b.1)

  -- Statements without control: declarations of functions and imports do nothing here.
  unfoldable pub run : List Stmt → State → Option State
  unfolding eval
  run [] s = some s
  run (expression e ∷ rest) s = do a ← eval e s; run rest a.1
  run (const x e ∷ rest) s = do
    a ← eval e s
    run rest (record (a.1) { vars = bind x a.0 (a.1).vars })
  run (_ ∷ rest) s = run rest s
