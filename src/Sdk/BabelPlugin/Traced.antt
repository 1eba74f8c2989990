-- ===== src/Sdk/BabelPlugin/Traced.antt =====
-- An instrumented assignment does what the assignment does, and is reported
-- (sdks/typescript/babel-plugin/src/index.ts).
use raceway.Prelude.{
  ℕ, ◌≡◌, refl, sym, ap, subst, ◌∙◌, Bool, true, false, List, [], ◌∷◌, ◌++◌, Option, some,
  Option-cases, Bool-cases, inl, inr, append_assoc, if◌then◌else◌,
}
use raceway.Text.{Text, codes, ◌==◌, eq_refl}
use raceway.Sdk.BabelPlugin.{
  Expr, identifier, string_literal, numeric_literal, null_literal, member, binary, assignment, call,
  shorthands, position, Stmt, expression, PluginOptions, unless_false, instance_name, name_or,
  member_name, track_call, runtime_call, visit_assignment, visit_member,
}
use raceway.Sdk.BabelPlugin.Traversal.{visit_expr}
use raceway.Sdk.BabelPlugin.Semantics.{
  Value, null, text, Entry, State, ◌>>=◌, bind, get_property, Host, eval, run,
}
use raceway.Sdk.BabelPlugin.Pure.{is_pure, mentions, value_in, value, eval-value}
use raceway.Sdk.BabelPlugin.Preserves.{
  entry_of, or_undefined, put-throws, put-some, put_heap, identifier-traced, member-traced,
}
use raceway.Sdk.BabelPlugin.Inserted.{has_no_reads, identifier-inserted, member-inserted}

abbrev pub read_of : Text → Value → Entry
read_of name value = record {
  method = codes "trackStateChange";
  arguments = text name ∷ null ∷ value ∷ text (codes "Read") ∷ [];
}

-- The reads that are reported: that of a member, if it is not one of the runtime's instance.
abbrev pub reads_of : PluginOptions → Expr → Value → List Entry
reads_of options (member o p) old =
    if name_or options [] o == instance_name options
    then []
    else read_of (member_name options o p) old ∷ []
reads_of options _ old = []

abbrev logged : Entry → State → State
logged e s = record s { log = s.log ++ e ∷ [] }

module _ (host : Host) (options : PluginOptions) where
  abbrev instance : Text
  instance = instance_name options

  read-run :
      (name : Text) (o : Expr) (p : Text) (rest : List Stmt) (s : State)
      → is_pure o ≡ true
      → run host instance
          (track_call options name null_literal (member o p) (codes "Read") ∷ rest)
          s
        ≡ (value host instance (member o p) s
            >>= (λ old. run host instance rest (logged (read_of name old) s)))
  unfolding run eval track_call runtime_call value_in
  read-run name o p rest s pure = elim (Option-cases (value host instance o s)) [
    | inl e ↦ simp (e, eval-value host instance o s pure) refl
    | inr (a, e) ↦ elim (Option-cases (get_property a p s.heap)) [
      | inl f ↦ simp (e, f, eval-value host instance o s pure) refl
      | inr (old, f) ↦ simp (e, f, eval-value host instance o s pure, eq_refl instance) refl
    ]
  ]

  -- The assignment alone, after which the generated identifier holds the old value, and the runtime
  -- has been told of the reads and of the write.
  abbrev pub reported_run : Text → Text → Expr → Expr → State → Option State
  reported_run t name left right s =
      let old = or_undefined (value host instance left s) in
      let new = or_undefined (value host instance right s) in
      run host instance (expression (assignment left right) ∷ []) s >>= (λ after.
        some (record after {
          vars = bind t old after.vars;
          log = after.log ++ (reads_of options left old ++ entry_of name old new ∷ []);
        }))

  module _ (t : Text) (o : Expr) (p : Text) (right : Expr) (pure_o : is_pure o ≡ true)
      (pure : is_pure right ≡ true) (fresh_o : mentions t o ≡ false)
      (fresh : mentions t right ≡ false) where
    abbrev name : Text
    name = member_name options o p

    abbrev written : List Stmt
    written =
        visit_assignment options t (member o p) right
        ++ expression (assignment (member o p) right) ∷ []

    member-reported :
        (s : State)
        → (name_or options [] o == instance_name options) ≡ false
        → run host instance
            (track_call options name null_literal (member o p) (codes "Read") ∷ written)
            s
          ≡ reported_run t name (member o p) right s
    unfolding run eval value_in
    member-reported s other =
        read-run name o p written s pure_o ∙ elim (Option-cases (value host instance o s)) [
          | inl e ↦ simp (e, eval-value host instance o s pure_o) refl
          | inr (a, e) ↦ elim (Option-cases (get_property a p s.heap)) [
            | inl f ↦ elim (Option-cases (value host instance right s)) [
              | inl g ↦
                  simp
                    (
                      e,
                      f,
                      g,
                      eval-value host instance o s pure_o,
                      eval-value host instance right s pure,
                    )
                    refl
              | inr (v, g) ↦
                  simp
                    (
                      e,
                      f,
                      g,
                      eval-value host instance o s pure_o,
                      eval-value host instance right s pure,
                      put-throws a v p s f,
                    )
                    refl
            ]
            | inr (old, f) ↦
                let told = logged (read_of name old) s in
                simp (e, f) refl
                ∙ member-traced host options t o p right told pure_o pure fresh_o fresh
                ∙ elim (Option-cases (value host instance right s)) [
                  | inl g ↦
                      simp
                        (
                          e,
                          g,
                          eval-value host instance o s pure_o,
                          eval-value host instance o told pure_o,
                          eval-value host instance right s pure,
                          eval-value host instance right told pure,
                        )
                        refl
                  | inr (v, g) ↦
                      simp
                        (
                          e,
                          f,
                          g,
                          other,
                          eval-value host instance o s pure_o,
                          eval-value host instance o told pure_o,
                          eval-value host instance right s pure,
                          eval-value host instance right told pure,
                          put-some a v old p s f,
                          put-some a v old p told f,
                        )
                        (ap
                          (λ es. some (record s {
                            vars = bind t old s.vars;
                            heap = put_heap a p v s.heap;
                            log = es;
                          }))
                          (append_assoc s.log (read_of name old ∷ []) (entry_of name old v ∷ [])))
                ]
          ]
        ]

    member-run :
        (s : State)
        → run host instance (visit_member options o p ++ written) s
          ≡ reported_run t name (member o p) right s
    unfolding visit_member
    member-run s = elim (Bool-cases (name_or options [] o == instance_name options)) [
      | inl is ↦ rw is (member-traced host options t o p right s pure_o pure fresh_o fresh)
      | inr other ↦
          subst
            (λ (b : Bool).
              let read = track_call options name null_literal (member o p) (codes "Read") in
              run host instance ((if b then [] else read ∷ []) ++ written) s
              ≡ reported_run t name (member o p) right s)
            (sym other) (member-reported s other)
    ]

abbrev pub IsTarget : Expr → Type 0
IsTarget (identifier x) = Unit
IsTarget (member o p) = Unit
IsTarget _ = ⊥

abbrev pub target_name : PluginOptions → Expr → Text
target_name options (identifier x) = x
target_name options (member o p) = member_name options o p
target_name options _ = []

-- For a plain assignment to a variable or a member, with the instrumentation of assignments on,
-- where neither side has effects or a member directly under an operator, and neither names the
-- generated identifier: running it after all that the traversal inserts before it throws exactly if
-- the assignment alone does, and else leaves the same state but for two things. The generated
-- identifier holds the old value, and the runtime has been told of the write, with its name, its
-- old and its new value, and before it, for a member that is not one of the runtime's instance, of
-- a read of the old value.
pub visit_expr-traced :
    (host : Host) (options : PluginOptions) (uid : ℕ → Text) (n : ℕ) (left right : Expr) (s : State)
    → unless_false options.instrument_assignments ≡ true
    → IsTarget left
    → is_pure left ≡ true
    → is_pure right ≡ true
    → has_no_reads left ≡ true
    → has_no_reads right ≡ true
    → mentions (uid n) left ≡ false
    → mentions (uid n) right ≡ false
    → run host
        (instance_name options)
        ((visit_expr options uid true (assignment left right) n).0
          ++ expression (assignment left right) ∷ [])
        s
      ≡ reported_run host options (uid n) (target_name options left) left right s
unfolding is_pure has_no_reads mentions
visit_expr-traced host options uid n (identifier x) right s on target pl pr ql qr fl fr =
    rw (identifier-inserted options uid n right x on qr)
      (identifier-traced host options (uid n) x right s pr fr fl)
visit_expr-traced host options uid n (member o p) right s on target pl pr ql qr fl fr =
    rw
      (
        member-inserted options uid n right o p on ql qr,
        append_assoc (visit_member options o p) _ (expression (assignment (member o p) right) ∷ []),
      )
      (member-run host options (uid n) o p right pl pr fl fr s)
visit_expr-traced host options uid n (string_literal u) right s on t pl pr ql qr fl fr = absurd t
visit_expr-traced host options uid n (numeric_literal m) right s on t pl pr ql qr fl fr = absurd t
visit_expr-traced host options uid n null_literal right s on t pl pr ql qr fl fr = absurd t
visit_expr-traced host options uid n (binary l r) right s on t pl pr ql qr fl fr = absurd t
visit_expr-traced host options uid n (assignment l r) right s on t pl pr ql qr fl fr = absurd t
visit_expr-traced host options uid n (call c es) right s on t pl pr ql qr fl fr = absurd t
visit_expr-traced host options uid n (shorthands ns) right s on t pl pr ql qr fl fr = absurd t
visit_expr-traced host options uid n (position u m) right s on t pl pr ql qr fl fr = absurd t
