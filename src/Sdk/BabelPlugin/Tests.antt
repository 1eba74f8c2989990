-- ===== src/Sdk/BabelPlugin/Tests.antt =====
-- The Babel plugin on small programs (sdks/typescript/babel-plugin/src/index.ts).
use raceway.Prelude.{ℕ, ◌+◌, if◌then◌else◌, ◌≡◌, refl, true, [], ◌∷◌, ◌++◌, none, some}
use raceway.Text.{Text, codes, ◌==◌, includes}
use raceway.Sdk.BabelPlugin.{
  identifier, numeric_literal, member, assignment, expression, function, import_default, Block, end,
  next, PluginOptions, instance_name, name_or, member_name,
}
use raceway.Sdk.BabelPlugin.Traversal.{visit_expr, visit_program}
use raceway.Sdk.BabelPlugin.Semantics.{
  Value, undefined, number, object, State, bind, set_property, Host, eval, run,
}
use raceway.Sdk.BabelPlugin.Pure.{is_pure, mentions, value_in}
use raceway.Sdk.BabelPlugin.Preserves.{entry_of}
use raceway.Sdk.BabelPlugin.Inserted.{has_no_reads}
use raceway.Sdk.BabelPlugin.Traced.{read_of, reported_run, target_name, visit_expr-traced}
use raceway.Sdk.BabelPlugin.Excluded.{imports_runtime, CallsRuntime, visit_program-excluded}

abbrev some_options : PluginOptions
some_options = record {
  raceway_instance = none;
  instrument_functions = none;
  instrument_assignments = none;
  exclude = codes "tests/" ∷ [];
}

-- A function that counts its calls in the variable `n`, in which it starts at 7.
abbrev counted : Value → Value
counted (number n) = number (n + 1)
counted _ = number 7

abbrev counting_host : Host
counting_host = record {
  operator = λ a b. a;
  calls = λ f arguments s. some (
    counted (s.vars (codes "n")),
    record s { vars = bind (codes "n") (counted (s.vars (codes "n"))) s.vars },
  );
}

abbrev some_state : State
some_state = record {
  vars = λ x. if x == codes "o" then object 1 else undefined;
  heap = λ a p. undefined;
  log = [];
}

abbrev fresh_names : ℕ → Text
fresh_names n = codes "_old"

-- o.size = 5
visit_expr-traced_example :
    run counting_host
      (instance_name some_options)
      ((visit_expr some_options fresh_names true
          (assignment (member (identifier (codes "o")) (codes "size")) (numeric_literal 5))
          0).0
        ++ expression
            (assignment (member (identifier (codes "o")) (codes "size")) (numeric_literal 5))
          ∷ [])
      some_state
    ≡ reported_run counting_host some_options
        (fresh_names 0)
        (target_name some_options (member (identifier (codes "o")) (codes "size")))
        (member (identifier (codes "o")) (codes "size"))
        (numeric_literal 5)
        some_state
unfolding codes is_pure has_no_reads mentions ◌==◌
visit_expr-traced_example =
    visit_expr-traced counting_host some_options fresh_names 0
      (member (identifier (codes "o")) (codes "size")) (numeric_literal 5) some_state refl tt refl
      refl refl refl refl refl

-- The state after it, in which the read and the write have been reported.
abbrev reported : State
reported = record some_state {
  vars = bind (codes "_old") undefined some_state.vars;
  heap = set_property 1 (codes "size") (number 5) some_state.heap;
  log = read_of (codes "o.size") undefined ∷ entry_of (codes "o.size") undefined (number 5) ∷ [];
}

reported_run_at :
    reported_run counting_host some_options
      (fresh_names 0)
      (codes "o.size")
      (member (identifier (codes "o")) (codes "size"))
      (numeric_literal 5)
      some_state
    ≡ some reported
unfolding codes run eval value_in instance_name ◌==◌ bind set_property name_or member_name
reported_run_at = refl

-- import fs from 'fs'; function load() { x = y.z }
abbrev some_program : Block
some_program = next (import_default (codes "fs") (codes "fs")) (
    next
      (function (some (codes "load")) [] 2 (
        next
          (expression
            (assignment (identifier (codes "x")) (member (identifier (codes "y")) (codes "z"))))
          end))
      end)

visit_program-excluded_example :
    (imports_runtime (visit_program some_options fresh_names (codes "src/tests/a.js") some_program)
      ≡ imports_runtime some_program)
    × CallsRuntime some_options
        (visit_program some_options fresh_names (codes "src/tests/a.js") some_program)
unfolding codes includes
visit_program-excluded_example =
    visit_program-excluded some_options fresh_names (codes "src/tests/a.js") some_program refl refl
