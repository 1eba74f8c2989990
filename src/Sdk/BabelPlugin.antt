-- ===== src/Sdk/BabelPlugin.antt =====
-- sdks/typescript/babel-plugin/src/index.ts: the visitors that instrument a program. The syntax is
-- the part of Babel's that the visitors look at and make, with the assignment operator `=` alone. Of
-- Babel's traversal the model has that each node of the source and each node that is inserted is
-- visited, and that what is inserted before a statement comes after what was inserted there before.
-- `await` is left out.
pub mod Traversal
pub mod Semantics
pub mod Pure
pub mod Preserves
pub mod Inserted
pub mod Traced
pub mod Twice
pub mod Excluded
pub mod Tests
use raceway.Prelude.{
  ℕ, suc, Bool, true, false, not, ◌&&◌, ◌||◌, List, [], ◌∷◌, ◌++◌, Option, none, some, map, any,
  if◌then◌else◌,
}
use raceway.Text.{Text, codes, ◌==◌, includes, or_else}

mutual
  pub data Expr : Type 0 where
    identifier string_literal : Text → Expr
    numeric_literal : ℕ → Expr
    null_literal : Expr
    member : (object : Expr) (property : Text) → Expr
    binary : (left right : Expr) → Expr
    assignment : (left right : Expr) → Expr
    call : (callee : Expr) (arguments : Exprs) → Expr
    shorthands : List Text → Expr  -- { a, b }
    position : (file : Text) (line : ℕ) → Expr  -- { file: '…', line: 1 }

  pub data Exprs : Type 0 where
    nil : Exprs
    cons : Expr → Exprs → Exprs

-- A parameter that is no identifier is `none`.
mutual
  pub data Stmt : Type 0 where
    expression : Expr → Stmt
    const : Text → Expr → Stmt
    returns : Expr → Stmt
    function : (id : Option Text) (params : List (Option Text)) (line : ℕ) (body : Block) → Stmt
    import_default : (local source : Text) → Stmt

  pub data Block : Type 0 where
    end : Block
    next : Stmt → Block → Block

pub record PluginOptions : Type 0 where
  pub raceway_instance : Option Text
  pub instrument_functions : Option Bool
  pub instrument_assignments : Option Bool
  pub exclude : List Text

-- option !== false
abbrev pub unless_false : Option Bool → Bool
unless_false none = true
unless_false (some b) = b

abbrev pub before : List Stmt → Block → Block
before [] rest = rest
before (s ∷ ss) rest = next s (before ss rest)

module _ (options : PluginOptions) where
  unfoldable pub instance_name : Text
  unfolding codes
  instance_name = or_else options.raceway_instance (codes "__raceway")

  -- params.map(…).filter(Boolean)
  identifiers : List (Option Text) → List Text
  identifiers [] = []
  identifiers (none ∷ params) = identifiers params
  identifiers (some name ∷ params) = name ∷ identifiers params

  unfoldable pub runtime_call : Text → Exprs → Stmt
  unfolding instance_name
  runtime_call method arguments =
      expression (call (member (identifier instance_name) method) arguments)

  unfoldable pub capture_call : Text → List (Option Text) → ℕ → Stmt
  unfolding runtime_call identifiers codes
  capture_call function_name params line = runtime_call (codes "captureFunctionCall") (
      cons (string_literal function_name)
        (cons (shorthands (identifiers params)) (cons (position (codes "__filename") line) nil)))

  unfoldable pub visit_function : Option Text → List (Option Text) → ℕ → Block → Block
  unfolding capture_call codes
  visit_function id params line body =
      if unless_false options.instrument_functions
      then next (capture_call (or_else id (codes "anonymous")) params line) body
      else body

  -- The block that the body of an arrow function becomes, if it is an expression
  unfoldable pub visit_arrow_expression : List (Option Text) → ℕ → Expr → Option Block
  unfolding capture_call codes
  visit_arrow_expression params line body =
      if unless_false options.instrument_functions
      then some (next (capture_call (codes "arrow") params line) (next (returns body) end))
      else none

  pub name_or : Text → Expr → Text
  name_or default (identifier name) = name
  name_or default _ = default

  -- `${obj}.${prop}`
  unfoldable pub member_name : Expr → Text → Text
  unfolding name_or codes
  member_name object property = name_or (codes "obj") object ++ (b'.' ∷ property)

  unfoldable pub track_call : Text → Expr → Expr → Text → Stmt
  unfolding runtime_call codes
  track_call variable old new access =
      runtime_call (codes "trackStateChange")
        (cons (string_literal variable) (cons old (cons new (cons (string_literal access) nil))))

  -- AssignmentExpression with the operator `=`; `temp` is the generated identifier. The visitor does
  -- not look at the operator, so that it inserts the same for `+=`, which the syntax leaves out.
  unfoldable pub visit_assignment : Text → Expr → Expr → List Stmt
  unfolding track_call member_name codes
  visit_assignment temp (identifier name) right =
      const temp (identifier name) ∷ track_call name (identifier temp) right (codes "Write") ∷ []
  visit_assignment temp (member object property) right =
      const temp (member object property)
      ∷ track_call (member_name object property) (identifier temp) right (codes "Write")
      ∷ []
  visit_assignment temp _ right = []

  -- MemberExpression under a parent of one of the kinds that are tracked
  unfoldable pub visit_member : Expr → Text → List Stmt
  unfolding track_call member_name name_or codes
  visit_member object property =
      if name_or [] object == instance_name
      then []
      else track_call (member_name object property) null_literal (member object property)
          (codes "Read")
        ∷ []
