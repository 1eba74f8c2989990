-- ===== src/Web/App/Details/Current.antt =====
-- The details that are shown are those of the selected trace (web/src/App.tsx).
use raceway.Prelude.{
  ℕ, zero, suc, ◌≡◌, refl, sym, ap, ◌∙◌, subst, if-both, true, List, [], ◌∷◌, Option, none, some,
  get_elem?, arith, Option-cases, Bool-cases, inl, inr,
}
use raceway.Text.{Text, eq_iff}
use raceway.Json.{Json}
use raceway.Web.App.Details.{
  CriticalPathData, DependenciesData, AnomaliesData, FullTraceAnalysisData, Answer, answered,
  aborted, failed, Request, Details, start, select, refresh, receive, fetch_trace_details,
  load_selected, is_current, new_anomalies, show_data, finish, or_keep, same_selection,
}

-- What happens to the application. The answer to the pending request at an index is given by what
-- the server answers to each trace id at that time.
pub data Act : Type 0 where
  selects : Option Text → Act
  refreshes : Act
  answers : ℕ → (Text → Answer) → Act

abbrev pub drop_at : ℕ → List Request → List Request
drop_at i [] = []
drop_at zero (r ∷ rs) = rs
drop_at (suc i) (r ∷ rs) = r ∷ drop_at i rs

unfoldable pub act : Act → Details → Details
unfolding select refresh receive
act (selects id) s = select id s
act refreshes s = refresh s
act (answers i server) s = elim (get_elem? s.requests i) [
  | none ↦ s
  | some r ↦ receive r (server r.trace_id) (record s { requests = drop_at i s.requests })
]

unfoldable pub act_all : List Act → Details → Details
unfolding act
act_all [] s = s
act_all (a ∷ acts) s = act_all acts (act a s)

-- The data, where there are any, carry the id.
abbrev pub PathOf : Text → Option CriticalPathData → Type 0
PathOf id none = Unit
PathOf id (some d) = d.trace_id ≡ id

abbrev pub DependenciesOf : Text → Option DependenciesData → Type 0
DependenciesOf id none = Unit
DependenciesOf id (some d) = d.trace_id ≡ id

abbrev pub AnomaliesOf : Text → Option AnomaliesData → Type 0
AnomaliesOf id none = Unit
AnomaliesOf id (some d) = d.trace_id ≡ id

-- The server answers with data of the trace that it is asked for.
abbrev pub IsHonest : Text → Answer → Type 0
IsHonest id (answered (some d)) = PathOf id d.critical_path × DependenciesOf id d.dependencies
IsHonest id _ = Unit

abbrev pub AllHonest : List Act → Type 0
AllHonest [] = Unit
AllHonest (answers i server ∷ acts) = ((id : Text) → IsHonest id (server id)) × AllHonest acts
AllHonest (_ ∷ acts) = AllHonest acts

abbrev pub ShownOf : Text → Details → Type 0
ShownOf id s =
    PathOf id s.critical_path_data
    × DependenciesOf id s.dependencies_data
    × AnomaliesOf id s.anomalies_data

-- The invariant: the selected trace is the one being loaded, and what is shown is of the trace last
-- loaded.
abbrev IsCurrent : Details → Type 0
IsCurrent s =
    ((id : Text) → s.selected_trace_id ≡ some id → s.loading_trace_id ≡ some id)
    × ((id : Text) → s.loading_trace_id ≡ some id → ShownOf id s)

pub is_current_iff : (id : Text) (o : Option Text) → is_current id o ≡ true → o ≡ some id
is_current_iff id none h = ground arith
is_current_iff id (some current) h = ap some ((eq_iff current id).0 h)

pub some-injective : (a b : Text) → ◌≡◌ {A = Option Text} (some a) (some b) → a ≡ b
some-injective a b h = ground (arith, h)

PathOf-keep :
    (id : Text) (new old : Option CriticalPathData)
    → PathOf id new
    → PathOf id old
    → PathOf id (or_keep new old)
PathOf-keep id none old n o = o
PathOf-keep id (some d) old n o = n

DependenciesOf-keep :
    (id : Text) (new old : Option DependenciesData)
    → DependenciesOf id new
    → DependenciesOf id old
    → DependenciesOf id (or_keep new old)
DependenciesOf-keep id none old n o = o
DependenciesOf-keep id (some d) old n o = n

AnomaliesOf-new :
    (id : Text) (new : Option (List Json)) (old : Option AnomaliesData)
    → AnomaliesOf id old
    → AnomaliesOf id (new_anomalies id new old)
AnomaliesOf-new id none old o = o
AnomaliesOf-new id (some []) old o = o
AnomaliesOf-new id (some (a ∷ more)) old o = refl

show_data-ShownOf :
    (id : Text) (d : Option FullTraceAnalysisData) (s : Details)
    → IsHonest id (answered d)
    → ShownOf id s
    → ShownOf id (show_data id d s)
unfolding show_data
show_data-ShownOf id none s honest (p, d, a) = (p, d, a)
show_data-ShownOf id (some found) s (hp, hd) (p, d, a) = (
  PathOf-keep id found.critical_path s.critical_path_data hp p,
  DependenciesOf-keep id found.dependencies s.dependencies_data hd d,
  AnomaliesOf-new id found.anomalies s.anomalies_data a,
)

-- Receiving changes neither the selection nor the trace being loaded.
pub show_data-ids :
    (id : Text) (d : Option FullTraceAnalysisData) (s : Details)
    → ((show_data id d s).selected_trace_id ≡ s.selected_trace_id)
      × ((show_data id d s).loading_trace_id ≡ s.loading_trace_id)
      × ((show_data id d s).requests ≡ s.requests)
      × ((show_data id d s).loading ≡ s.loading)
unfolding show_data
show_data-ids id none s = (refl, refl, refl, refl)
show_data-ids id (some d) s = (refl, refl, refl, refl)

receive-IsCurrent :
    (r : Request) (a : Answer) (s : Details)
    → IsHonest r.trace_id a
    → IsCurrent s
    → IsCurrent (receive r a s)
unfolding receive finish
receive-IsCurrent r (answered d) s honest (sel, shown) =
    elim (Bool-cases (is_current r.trace_id s.loading_trace_id)) [
      | inr other ↦ rw (other, receive) (sel, shown)
      | inl same ↦
          let cur = is_current_iff r.trace_id s.loading_trace_id same in
          let ids = show_data-ids r.trace_id d s in
          rw (same, receive)
            (
              (λ id h. ids.1 ∙ sel id (sym ids.0 ∙ h)),
              (λ id h.
                  let here = some-injective r.trace_id id (sym cur ∙ sym ids.1 ∙ h) in
                  subst (λ x. ShownOf x (show_data r.trace_id d s)) here
                    (show_data-ShownOf r.trace_id d s honest (shown r.trace_id cur))),
            )
    ]
receive-IsCurrent r aborted s honest h = h
receive-IsCurrent r (failed m) s honest h =
    if-both IsCurrent (is_current r.trace_id s.loading_trace_id) _ _ h h

clears-IsCurrent :
    (id : Text) (s : Details)
    → IsCurrent (load_selected (refresh (record s { selected_trace_id = some id })))
unfolding load_selected refresh fetch_trace_details
clears-IsCurrent id s = ((λ i h. h), (λ i h. (tt, tt, tt)))

refresh-IsCurrent : (s : Details) → IsCurrent s → IsCurrent (refresh s)
unfolding refresh fetch_trace_details
refresh-IsCurrent s (sel, shown) = elim (Option-cases s.selected_trace_id) [
  | inl none_ ↦ rw (none_, refresh) (sel, shown)
  | inr (id, e) ↦ rw (e, refresh) ((λ i h. sym e ∙ h), (λ i h. shown i (sel id e ∙ h)))
]

select-IsCurrent : (id : Option Text) (s : Details) → IsCurrent s → IsCurrent (select id s)
unfolding select
select-IsCurrent none s (sel, shown) =
    if-both IsCurrent (same_selection s.selected_trace_id none) _ _ (sel, shown)
      ((λ i h. absurd (ground (arith, h))), shown)
select-IsCurrent (some id) s h =
    if-both IsCurrent (same_selection s.selected_trace_id (some id)) _ _ h (clears-IsCurrent id s)

act-IsCurrent : (a : Act) (s : Details) → AllHonest (a ∷ []) → IsCurrent s → IsCurrent (act a s)
unfolding act
act-IsCurrent (selects id) s honest h = select-IsCurrent id s h
act-IsCurrent refreshes s honest h = refresh-IsCurrent s h
act-IsCurrent (answers i server) s honest h = elim (Option-cases (get_elem? s.requests i)) [
  | inl e ↦ rw (e, act) h
  | inr (r, e) ↦
      rw (e, act)
        (receive-IsCurrent r (server r.trace_id) (record s { requests = drop_at i s.requests })
          (honest.0 r.trace_id) h)
]

AllHonest-parts :
    (a : Act) (acts : List Act) → AllHonest (a ∷ acts) → AllHonest (a ∷ []) × AllHonest acts
AllHonest-parts (selects id) acts h = (tt, h)
AllHonest-parts refreshes acts h = (tt, h)
AllHonest-parts (answers i server) acts h = ((h.0, tt), h.1)

act_all-IsCurrent :
    (acts : List Act) (s : Details) → AllHonest acts → IsCurrent s → IsCurrent (act_all acts s)
unfolding act_all
act_all-IsCurrent [] s honest h = h
act_all-IsCurrent (a ∷ acts) s honest h =
    let parts = AllHonest-parts a acts honest in
    act_all-IsCurrent acts (act a s) parts.1 (act-IsCurrent a s parts.0 h)

-- If the server answers with data of the trace that it is asked for, then, after any selections,
-- refreshes, and answers to pending requests in any order, the critical path, the dependencies and
-- the anomalies that are kept, where there are any, are those of the selected trace.
pub act_all-ShownOf :
    (acts : List Act) (id : Text)
    → AllHonest acts
    → (act_all acts start).selected_trace_id ≡ some id
    → ShownOf id (act_all acts start)
act_all-ShownOf acts id honest sel =
    let h =
      act_all-IsCurrent acts start honest
        ((λ i e. absurd (ground (arith, e))), (λ i e. (tt, tt, tt))) in
    h.1 id (h.0 id sel)
