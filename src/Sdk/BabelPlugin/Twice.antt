-- ===== src/Sdk/BabelPlugin/Twice.antt =====
-- What an instrumented assignment evaluates twice (sdks/typescript/babel-plugin/src/index.ts).
use raceway.Prelude.{◌≡◌, refl, [], ◌∷◌, ◌++◌, some}
use raceway.Text.{Text, eq_refl}
use raceway.Sdk.BabelPlugin.{
  identifier, assignment, call, nil, expression, PluginOptions, instance_name, track_call,
  runtime_call, visit_assignment,
}
use raceway.Sdk.BabelPlugin.Semantics.{Value, State, bind, Host, eval, run}
use raceway.Sdk.BabelPlugin.Preserves.{entry_of}

module _ (host : Host) (options : PluginOptions) (t x f : Text) (s : State) where
  -- Before the first call of the program's function, and after it.
  abbrev before_call : State
  before_call = record s { vars = bind t (s.vars x) s.vars }

  abbrev told : Value → State → State
  told v s1 = record s1 { log = s1.log ++ entry_of x (bind t (s.vars x) s.vars t) v ∷ [] }

-- In the instrumented form of `x = f()` the function `f` is called twice: what the first call gives
-- is reported as the new value, and what the second gives, in the state that the first leaves, is
-- assigned.
visit_assignment-twice :
    (host : Host) (options : PluginOptions) (t x f : Text) (s s1 s2 : State) (v w : Value)
    → host.calls (identifier f) [] (before_call host options t x f s) ≡ some (v, s1)
    → host.calls (identifier f) [] (told host options t x f s v s1) ≡ some (w, s2)
    → run host
        (instance_name options)
        (visit_assignment options t (identifier x) (call (identifier f) nil)
          ++ expression (assignment (identifier x) (call (identifier f) nil)) ∷ [])
        s
      ≡ some (record s2 { vars = bind x w s2.vars })
unfolding run eval visit_assignment track_call runtime_call
visit_assignment-twice host options t x f s s1 s2 v w first second =
    simp (first, second, eq_refl (instance_name options)) refl
