-- ===== src/Sdk/BabelPlugin/Preserves.antt =====
-- An assignment with what its own visitor inserts does what the assignment does
-- (sdks/typescript/babel-plugin/src/index.ts).
use raceway.Prelude.{
  ℕ, ◌≡◌, refl, ◌∙◌, fun_ext, true, false, List, [], ◌∷◌, ◌++◌, Option, none, some, arith,
  Option-cases, inl, inr,
}
use raceway.Text.{Text, codes, ◌==◌, eq_iff, eq_refl}
use raceway.Sdk.BabelPlugin.{
  Expr, identifier, member, assignment, Stmt, expression, PluginOptions, instance_name, member_name,
  track_call, runtime_call, visit_assignment,
}
use raceway.Sdk.BabelPlugin.Semantics.{
  Value, undefined, null, number, text, literal_names, literal_position, Entry, State, ◌>>=◌, bind,
  get_property, set_property, put_property, Host, object, eval, run,
}
use raceway.Sdk.BabelPlugin.Pure.{is_pure, mentions, value_in, value, eval-value, value-fresh}

bind-commutes :
    (x t : Text) (v w : Value) (vars : Text → Value)
    → (x == t) ≡ false
    → bind x v (bind t w vars) ≡ bind t w (bind x v vars)
unfolding bind
bind-commutes x t v w vars ne =
    fun_ext (λ y. ground (arith, ne, eq_iff x y, eq_iff t y, eq_iff x t))

abbrev pub or_undefined : Option Value → Value
or_undefined none = undefined
or_undefined (some v) = v

abbrev pub entry_of : Text → Value → Value → Entry
entry_of name old new = record {
  method = codes "trackStateChange";
  arguments = text name ∷ old ∷ new ∷ text (codes "Write") ∷ [];
}

pub put-throws :
    (a w : Value) (p : Text) (s : State)
    → get_property a p s.heap ≡ none
    → put_property a p w s ≡ none
put-throws undefined w p s h = refl
put-throws null w p s h = refl
put-throws (number n) w p s h = ground arith
put-throws (text u) w p s h = ground arith
put-throws (object b) w p s h = ground arith
put-throws (literal_names ns) w p s h = ground arith
put-throws (literal_position u n) w p s h = ground arith

abbrev pub put_heap : Value → Text → Value → (ℕ → Text → Value) → ℕ → Text → Value
put_heap (object b) p w heap = set_property b p w heap
put_heap _ p w heap = heap

pub put-some :
    (a w old : Value) (p : Text) (s : State)
    → get_property a p s.heap ≡ some old
    → put_property a p w s ≡ some (record s { heap = put_heap a p w s.heap })
put-some undefined w old p s h = ground arith
put-some null w old p s h = ground arith
put-some (number n) w old p s h = refl
put-some (text u) w old p s h = refl
put-some (object b) w old p s h = refl
put-some (literal_names ns) w old p s h = refl
put-some (literal_position u n) w old p s h = refl

module _ (host : Host) (options : PluginOptions) (t : Text) where
  abbrev instance : Text
  instance = instance_name options

  -- The state with the old value in the generated identifier.
  abbrev kept : Value → State → State
  kept old s = record s { vars = bind t old s.vars }

  track-run :
      (name : Text) (right : Expr) (old : Value) (s : State) (rest : List Stmt)
      → is_pure right ≡ true
      → mentions t right ≡ false
      → run host instance
          (track_call options name (identifier t) right (codes "Write") ∷ rest)
          (kept old s)
        ≡ (value host instance right s >>= (λ v.
            run host instance rest
              (record (kept old s) { log = s.log ++ entry_of name old v ∷ [] })))
  unfolding run eval track_call runtime_call bind
  track-run name right old s rest pure fresh = elim (Option-cases (value host instance right s)) [
    | inl e ↦
        simp
          (
            e,
            eval-value host instance right (kept old s) pure,
            value-fresh host instance t old right s fresh,
            eq_refl t,
          )
          refl
    | inr (v, e) ↦
        simp
          (
            e,
            eval-value host instance right (kept old s) pure,
            value-fresh host instance t old right s fresh,
            eq_refl t,
            eq_refl instance,
          )
          refl
  ]

  -- The runtime is told of the write, and the generated identifier holds the old value.
  abbrev pub traced : Text → Value → Value → State → State
  traced name old new after = record after {
    vars = bind t old after.vars;
    log = after.log ++ entry_of name old new ∷ [];
  }

  -- The old and the new value of an assignment, as the statement finds them.
  abbrev pub traced_run : Text → Expr → Expr → State → Option State
  traced_run name left right s =
      run host instance (expression (assignment left right) ∷ []) s >>= (λ after. some (
        traced name (or_undefined (value host instance left s))
          (or_undefined (value host instance right s)) after))

  pub identifier-traced :
      (x : Text) (right : Expr) (s : State)
      → is_pure right ≡ true
      → mentions t right ≡ false
      → (x == t) ≡ false
      → run host instance
          (visit_assignment options t (identifier x) right
            ++ expression (assignment (identifier x) right) ∷ [])
          s
        ≡ traced_run x (identifier x) right s
  unfolding run eval visit_assignment value_in
  identifier-traced x right s pure fresh ne =
      track-run x right (s.vars x) s (expression (assignment (identifier x) right) ∷ []) pure fresh
      ∙ elim (Option-cases (value host instance right s)) [
        | inl e ↦ simp (e, eval-value host instance right s pure) refl
        | inr (v, e) ↦
            simp
              (
                e,
                eval-value host instance right s pure,
                eval-value host instance right
                    (record (kept (s.vars x) s) { log = s.log ++ entry_of x (s.vars x) v ∷ [] })
                    pure,
                value-fresh host instance t (s.vars x) right s fresh,
                bind-commutes x t v (s.vars x) s.vars ne,
              )
              refl
      ]

  pub member-traced :
      (o : Expr) (p : Text) (right : Expr) (s : State)
      → is_pure o ≡ true
      → is_pure right ≡ true
      → mentions t o ≡ false
      → mentions t right ≡ false
      → run host instance
          (visit_assignment options t (member o p) right
            ++ expression (assignment (member o p) right) ∷ [])
          s
        ≡ traced_run (member_name options o p) (member o p) right s
  unfolding run eval visit_assignment value_in
  member-traced o p right s pure_o pure fresh_o fresh =
      let name = member_name options o p in
      let stmt = expression (assignment (member o p) right) ∷ [] in
      elim (Option-cases (value host instance o s)) [
        | inl e ↦ simp (e, eval-value host instance o s pure_o) refl
        | inr (a, e) ↦ elim (Option-cases (get_property a p s.heap)) [
          | inl f ↦ elim (Option-cases (value host instance right s)) [
            | inl g ↦
                simp
                  (
                    e,
                    f,
                    g,
                    eval-value host instance o s pure_o,
                    eval-value host instance right s pure,
                  )
                  refl
            | inr (v, g) ↦
                simp
                  (
                    e,
                    f,
                    g,
                    eval-value host instance o s pure_o,
                    eval-value host instance right s pure,
                    put-throws a v p s f,
                  )
                  refl
          ]
          | inr (old, f) ↦ elim (Option-cases (value host instance right s)) [
            | inl g ↦
                simp (e, f, eval-value host instance o s pure_o)
                  (track-run name right old s stmt pure fresh
                    ∙ simp (g, eval-value host instance right s pure) refl)
            | inr (v, g) ↦
                simp (e, f, eval-value host instance o s pure_o)
                  (track-run name right old s stmt pure fresh
                    ∙ simp
                        (
                          e,
                          g,
                          eval-value host instance right s pure,
                          eval-value host instance o
                              (record (kept old s) { log = s.log ++ entry_of name old v ∷ [] })
                              pure_o,
                          eval-value host instance right
                              (record (kept old s) { log = s.log ++ entry_of name old v ∷ [] })
                              pure,
                          value-fresh host instance t old o s fresh_o,
                          value-fresh host instance t old right s fresh,
                          put-some a v old p s f,
                          put-some a v old p
                              (record (kept old s) { log = s.log ++ entry_of name old v ∷ [] }) f,
                        )
                        refl)
          ]
        ]
      ]
