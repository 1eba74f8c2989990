-- ===== src/Sdk/BabelPlugin/Excluded.antt =====
-- Files that the option `exclude` names (sdks/typescript/babel-plugin/src/index.ts).
use raceway.Prelude.{
  All, All-append, if-both, ◌∙◌, ℕ, ◌≡◌, refl, ap, Bool, true, false, ◌&&◌, ◌||◌, List, [], ◌∷◌,
  any,
}
use raceway.Text.{Text, codes, includes, or_else, ◌==◌}
use raceway.Sdk.BabelPlugin.{
  Expr, identifier, string_literal, numeric_literal, null_literal, member, binary, assignment, call,
  shorthands, position, Exprs, nil, cons, Stmt, expression, const, returns, function,
  import_default, Block, end, next, PluginOptions, unless_false, before, capture_call,
  visit_function, visit_assignment, visit_member, track_call, runtime_call, member_name,
}
use raceway.Sdk.BabelPlugin.Traversal.{around, visit_expr, visit_exprs, visit_block, visit_program}

-- The module from which instrumented code has its instance.
unfoldable pub imports_runtime : Block → Bool
unfolding codes
imports_runtime end = false
imports_runtime (next (import_default local source) rest) =
    source == codes "@mode-7/raceway/runtime" || imports_runtime rest
imports_runtime (next _ rest) = imports_runtime rest

-- Each function declared at the top begins with a call of the runtime.
abbrev pub CallsRuntime : PluginOptions → Block → Type 0
CallsRuntime options end = Unit
CallsRuntime options (next (function id params line body) rest) =
    ((inner : Block) × (body
        ≡ next (capture_call options (or_else id (codes "anonymous")) params line) inner))
    × CallsRuntime options rest
CallsRuntime options (next _ rest) = CallsRuntime options rest

-- What the visitors insert: neither functions nor imports.
abbrev IsPlain : Stmt → Type 0
IsPlain (expression e) = Unit
IsPlain (const x e) = Unit
IsPlain _ = ⊥

module _ (options : PluginOptions) (uid : ℕ → Text) where
  assignment-IsPlain :
      (t : Text) (left right : Expr) → All IsPlain (visit_assignment options t left right)
  unfolding visit_assignment track_call runtime_call
  assignment-IsPlain t (identifier x) right = (tt, (tt, tt))
  assignment-IsPlain t (member o p) right = (tt, (tt, tt))
  assignment-IsPlain t (string_literal u) right = tt
  assignment-IsPlain t (numeric_literal n) right = tt
  assignment-IsPlain t null_literal right = tt
  assignment-IsPlain t (binary l r) right = tt
  assignment-IsPlain t (assignment l r) right = tt
  assignment-IsPlain t (call c es) right = tt
  assignment-IsPlain t (shorthands ns) right = tt
  assignment-IsPlain t (position u n) right = tt

  member-IsPlain : (o : Expr) (p : Text) → All IsPlain (visit_member options o p)
  unfolding visit_member track_call runtime_call
  member-IsPlain o p =
      if-both (All IsPlain) _ []
        (track_call options (member_name options o p) null_literal (member o p) (codes "Read") ∷ [])
        tt (tt, tt)

  around-IsPlain :
      (first others ss : List Stmt)
      → All IsPlain first
      → All IsPlain others
      → All IsPlain ss
      → All IsPlain (around options uid first others ss)
  unfolding around
  around-IsPlain first others [] hf ho h = tt
  around-IsPlain first others (s ∷ ss) hf ho h =
      All-append IsPlain first _ hf (h.0, All-append IsPlain others ss ho h.1)

  mutual
    unfolding visit_expr visit_exprs

    expr-IsPlain :
        (tracked : Bool) (e : Expr) (n : ℕ) → All IsPlain (visit_expr options uid tracked e n).0
    expr-IsPlain tracked (member o p) n =
        All-append IsPlain _ _
          (around-IsPlain _ [] _ (expr-IsPlain false o n) tt (
            if-both (All IsPlain) (tracked && unless_false options.instrument_assignments)
              (visit_member options o p) [] (member-IsPlain o p) tt))
          (expr-IsPlain false o _)
    expr-IsPlain tracked (binary l r) n =
        All-append IsPlain _ _ (expr-IsPlain true l n) (expr-IsPlain true r _)
    expr-IsPlain tracked (assignment l r) n =
        All-append IsPlain _ _
          (around-IsPlain _ _ _ (expr-IsPlain true l _) (expr-IsPlain false r _) (
            if-both (All IsPlain) (unless_false options.instrument_assignments)
              (visit_assignment options (uid n) l r) [] (assignment-IsPlain (uid n) l r) tt))
          (All-append IsPlain _ _ (expr-IsPlain false l _) (expr-IsPlain false r _))
    expr-IsPlain tracked (call c es) n =
        All-append IsPlain _ _ (expr-IsPlain false c n) (exprs-IsPlain es _)
    expr-IsPlain tracked (identifier x) n = tt
    expr-IsPlain tracked (string_literal u) n = tt
    expr-IsPlain tracked (numeric_literal m) n = tt
    expr-IsPlain tracked null_literal n = tt
    expr-IsPlain tracked (shorthands ns) n = tt
    expr-IsPlain tracked (position u m) n = tt

    exprs-IsPlain : (es : Exprs) (n : ℕ) → All IsPlain (visit_exprs options uid es n).0
    exprs-IsPlain nil n = tt
    exprs-IsPlain (cons e es) n =
        All-append IsPlain _ _ (expr-IsPlain false e n) (exprs-IsPlain es _)

  before-plain :
      (ss : List Stmt) (b : Block)
      → All IsPlain ss
      → (imports_runtime (before ss b) ≡ imports_runtime b)
        × (CallsRuntime options b → CallsRuntime options (before ss b))
  unfolding imports_runtime
  before-plain [] b h = (refl, λ c. c)
  before-plain (expression e ∷ ss) b h = before-plain ss b h.1
  before-plain (const x e ∷ ss) b h = before-plain ss b h.1
  before-plain (returns e ∷ ss) b h = absurd h.0
  before-plain (function i p l k ∷ ss) b h = absurd h.0
  before-plain (import_default l s ∷ ss) b h = absurd h.0

-- What a traversal keeps of a block.
abbrev KeepsTop : PluginOptions → Block → Block → Type 0
KeepsTop options b b1 = (imports_runtime b1 ≡ imports_runtime b) × CallsRuntime options b1

module _ (options : PluginOptions) (uid : ℕ → Text)
    (on : unless_false options.instrument_functions ≡ true) where
  before-KeepsTop :
      (ss : List Stmt) (b b1 : Block)
      → All IsPlain ss
      → KeepsTop options b b1
      → KeepsTop options b (before ss b1)
  before-KeepsTop ss b b1 plain (same, calls) =
      let p = before-plain options uid ss b1 plain in (p.0 ∙ same, p.1 calls)

  visit_block-KeepsTop : (b : Block) (n : ℕ) → KeepsTop options b (visit_block options uid b n).0
  unfolding visit_block imports_runtime visit_function
  visit_block-KeepsTop end n = (refl, tt)
  visit_block-KeepsTop (next (expression e) rest) n =
      let made = visit_expr options uid true e n in
      let ih = visit_block-KeepsTop rest made.1 in
      before-KeepsTop made.0 (next (expression e) rest) (next (expression e) _)
        (expr-IsPlain options uid true e n) ih
  visit_block-KeepsTop (next (const x e) rest) n =
      let made = visit_expr options uid true e n in
      let ih = visit_block-KeepsTop rest made.1 in
      before-KeepsTop made.0 (next (const x e) rest) (next (const x e) _)
        (expr-IsPlain options uid true e n) ih
  visit_block-KeepsTop (next (returns e) rest) n =
      let made = visit_expr options uid true e n in
      let ih = visit_block-KeepsTop rest made.1 in
      before-KeepsTop made.0 (next (returns e) rest) (next (returns e) _)
        (expr-IsPlain options uid true e n) ih
  visit_block-KeepsTop (next (function id params line body) rest) n =
      let inner = visit_block options uid body n in
      let ih = visit_block-KeepsTop rest inner.1 in (ih.0, ((inner.0, rw on refl), ih.1))
  visit_block-KeepsTop (next (import_default l s) rest) n =
      let ih = visit_block-KeepsTop rest n in
      (ap (λ (x : Bool). s == codes "@mode-7/raceway/runtime" || x) ih.0, ih.1)

-- For a file that `exclude` names, with the instrumentation of functions on, the import of the
-- runtime is left out, so that the program has one exactly when the source has, but every function
-- declared at the top still begins with a call of the runtime.
pub visit_program-excluded :
    (options : PluginOptions) (uid : ℕ → Text) (filename : Text) (program : Block)
    → unless_false options.instrument_functions ≡ true
    → any (λ pattern. includes filename pattern) options.exclude ≡ true
    → (imports_runtime (visit_program options uid filename program) ≡ imports_runtime program)
      × CallsRuntime options (visit_program options uid filename program)
unfolding visit_program
visit_program-excluded options uid filename program on named =
    rw named (visit_block-KeepsTop options uid on program 0)
