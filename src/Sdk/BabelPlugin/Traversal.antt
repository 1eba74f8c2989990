-- ===== src/Sdk/BabelPlugin/Traversal.antt =====
-- The traversal of a program with the visitors of sdks/typescript/babel-plugin/src/index.ts.
use raceway.Prelude.{ℕ, suc, Bool, true, false, ◌&&◌, List, [], ◌∷◌, ◌++◌, any, if◌then◌else◌}
use raceway.Text.{Text, codes, includes}
use raceway.Sdk.BabelPlugin.{
  Expr, identifier, string_literal, numeric_literal, null_literal, member, binary, assignment, call,
  shorthands, position, Exprs, nil, cons, Stmt, expression, const, returns, function,
  import_default, Block, end, next, PluginOptions, unless_false, before, instance_name,
  visit_function, visit_assignment, visit_member,
}

-- The traversal; `uid` makes identifiers that do not occur in the program.
module _ (options : PluginOptions) (uid : ℕ → Text) where
  -- The statements that a visitor inserts, where the visit of the first of them inserts more before
  -- it, and the visits of the others more before those.
  unfoldable pub around : List Stmt → List Stmt → List Stmt → List Stmt
  around first others [] = []
  around first others (s ∷ ss) = first ++ s ∷ (others ++ ss)

  -- What is inserted before the statement of an expression, and the count of identifiers made.
  -- `tracked`: the parent is a statement, a declarator, a return or a binary expression. What a call
  -- to the runtime is given is visited there too, and so is the declaration of the old value.
  unfoldable mutual
    unfolding visit_assignment visit_member around

    pub visit_expr : Bool → Expr → ℕ → List Stmt × ℕ
    visit_expr tracked (member object property) n =
        let own =
          if tracked && unless_false options.instrument_assignments
          then visit_member options object property
          else [] in
        let copy = visit_expr false object n in
        let inner = visit_expr false object copy.1 in (around copy.0 [] own ++ inner.0, inner.1)
    visit_expr tracked (binary left right) n =
        let lower = visit_expr true left n in
        let upper = visit_expr true right lower.1 in (lower.0 ++ upper.0, upper.1)
    visit_expr tracked (assignment left right) n =
        let on = unless_false options.instrument_assignments in
        let own = if on then visit_assignment options (uid n) left right else [] in
        let declared = visit_expr true left (suc n) in
        let told = visit_expr false right declared.1 in
        let lower = visit_expr false left told.1 in
        let upper = visit_expr false right lower.1 in
        (around declared.0 told.0 own ++ (lower.0 ++ upper.0), upper.1)
    visit_expr tracked (call callee arguments) n =
        let lower = visit_expr false callee n in
        let upper = visit_exprs arguments lower.1 in (lower.0 ++ upper.0, upper.1)
    visit_expr tracked (identifier name) n = ([], n)
    visit_expr tracked (string_literal s) n = ([], n)
    visit_expr tracked (numeric_literal m) n = ([], n)
    visit_expr tracked null_literal n = ([], n)
    visit_expr tracked (shorthands names) n = ([], n)
    visit_expr tracked (position file line) n = ([], n)

    pub visit_exprs : Exprs → ℕ → List Stmt × ℕ
    visit_exprs nil n = ([], n)
    visit_exprs (cons e es) n =
        let lower = visit_expr false e n in
        let upper = visit_exprs es lower.1 in (lower.0 ++ upper.0, upper.1)

  unfoldable mutual
    unfolding visit_expr visit_function

    pub visit_stmt : Stmt → ℕ → List Stmt × Stmt × ℕ
    visit_stmt (expression e) n = let made = visit_expr true e n in (made.0, expression e, made.1)
    visit_stmt (const x e) n = let made = visit_expr true e n in (made.0, const x e, made.1)
    visit_stmt (returns e) n = let made = visit_expr true e n in (made.0, returns e, made.1)
    visit_stmt (function id params line body) n =
        let made = visit_block body n in
        ([], function id params line (visit_function options id params line made.0), made.1)
    visit_stmt (import_default local source) n = ([], import_default local source, n)

    pub visit_block : Block → ℕ → Block × ℕ
    visit_block end n = (end, n)
    visit_block (next s rest) n =
        let one = visit_stmt s n in
        let others = visit_block rest one.2 in (before one.0 (next one.1 others.0), others.1)

  -- Program, and the visits of what it contains
  unfoldable pub visit_program : Text → Block → Block
  unfolding visit_block instance_name codes includes
  visit_program filename program =
      let visited = (visit_block program 0).0 in
      if any (λ pattern. includes filename pattern) options.exclude
      then visited
      else next (import_default (instance_name options) (codes "@mode-7/raceway/runtime")) visited
