-- ===== src/Web/Keyboard/Arrows.antt =====
-- The arrow keys of web/src/hooks/useKeyboardShortcuts.ts go around the list of traces.
use raceway.Prelude.{
  ℕ, suc, zero, ◌<◌, ◌≡◌, refl, ap, ◌∙◌, Bool, true, false, List, [], ◌∷◌, Option, some, length,
  get_elem?, arith, All, subst, any, Option-cases, inl, inr,
}
use raceway.Text.{Text, codes, ◌==◌, eq_iff, is_truthy}
use raceway.Maps.{Distinct, contains}
use raceway.Web.Keyboard.{
  KeyboardEvent, Action, show_help, select, find_index, prev_index, next_index, select_at, shortcut,
  arrow, handle_key_down,
}

contains-get_elem :
    (id : Text) (ts : List Text) (i : ℕ) → get_elem? ts i ≡ some id → contains id ts ≡ true
unfolding contains
contains-get_elem id [] i h = absurd (ground arith)
contains-get_elem id (t ∷ ts) zero h = ground (arith, eq_iff t id)
contains-get_elem id (t ∷ ts) (suc i) h = ground (arith, contains-get_elem id ts i h)

-- In a list without repetition the index of an element is found.
find_index-get_elem :
    (id : Text) (ts : List Text) (i : ℕ)
    → Distinct ts
    → get_elem? ts i ≡ some id
    → find_index id ts ≡ some i
unfolding find_index
find_index-get_elem id [] i d h = absurd (ground arith)
find_index-get_elem id (t ∷ ts) zero d h = ground (arith, eq_iff t id)
find_index-get_elem id (t ∷ ts) (suc i) d h =
    ground (arith, find_index-get_elem id ts i d.1 h, contains-get_elem id ts i h, eq_iff t id, d)

-- Down after up and up after down come back.
prev-next : (i n : ℕ) → i < n → prev_index (some (next_index (some i) n)) n ≡ i
unfolding prev_index next_index
prev-next i n lt = ground arith

next-prev : (i n : ℕ) → i < n → next_index (some (prev_index (some i) n)) n ≡ i
unfolding prev_index next_index
next-prev i n lt = ground arith

abbrev pub press : Text → KeyboardEvent
press key = record {
  key = key;
  meta_key = false;
  ctrl_key = false;
  shift_key = false;
  alt_key = false;
  in_field = false;
}

press_up :
    (id : Text) (ts : List Text)
    → is_truthy id ≡ true
    → 0 < length ts
    → handle_key_down (press (codes "ArrowUp")) (some id) ts
      ≡ select_at (prev_index (find_index id ts) (length ts)) ts
unfolding handle_key_down shortcut arrow codes ◌==◌
press_up id ts h lt = ground arith

press_down :
    (id : Text) (ts : List Text)
    → is_truthy id ≡ true
    → 0 < length ts
    → handle_key_down (press (codes "ArrowDown")) (some id) ts
      ≡ select_at (next_index (find_index id ts) (length ts)) ts
unfolding handle_key_down shortcut arrow codes ◌==◌
press_down id ts h lt = ground arith

abbrev pub IsTruthy : Text → Type 0
IsTruthy t = is_truthy t ≡ true

elem_at :
    (ts : List Text) (i : ℕ)
    → i < length ts
    → All IsTruthy ts
    → (t : Text) × (get_elem? ts i ≡ some t) × IsTruthy t
elem_at [] i lt h = absurd (omega (arith, lt))
elem_at (t ∷ ts) zero lt h = (t, refl, h.0)
elem_at (t ∷ ts) (suc i) lt h = elem_at ts i (omega (arith, lt)) h.1

get_elem-bound : (ts : List Text) (i : ℕ) (t : Text) → get_elem? ts i ≡ some t → i < length ts
get_elem-bound [] i t h = absurd (ground arith)
get_elem-bound (u ∷ ts) zero t h = omega arith
get_elem-bound (u ∷ ts) (suc i) t h = omega (arith, get_elem-bound ts i t h)

next_index-bound : (i n : ℕ) → i < n → next_index (some i) n < n
unfolding next_index
next_index-bound i n lt = ground arith

prev_index-bound : (i n : ℕ) → i < n → prev_index (some i) n < n
unfolding prev_index
prev_index-bound i n lt = ground arith

select_at-found :
    (ts : List Text) (i : ℕ) (t : Text) → get_elem? ts i ≡ some t → select_at i ts ≡ select t ∷ []
unfolding select_at
select_at-found ts i t h = ground (arith, h)

-- `move` selects `other`, and `back` comes back from there.
abbrev pub GoesBack : Text → Text → Text → List Text → Type 0
GoesBack move back id ts =
    (other : Text) × (handle_key_down (press move) (some id) ts ≡ select other ∷ [])
    × (handle_key_down (press back) (some other) ts ≡ select id ∷ [])

-- Where the ids of the traces differ and none is empty, each arrow key selects a trace, from which
-- the other arrow key leads back, at the ends of the list too.
pub arrows-inverse :
    (ts : List Text) (i : ℕ) (id : Text)
    → Distinct ts
    → All IsTruthy ts
    → get_elem? ts i ≡ some id
    → GoesBack (codes "ArrowDown") (codes "ArrowUp") id ts
      × GoesBack (codes "ArrowUp") (codes "ArrowDown") id ts
arrows-inverse ts i id d h at =
    let n = length ts in
    let lt = get_elem-bound ts i id at in
    let (own, own_at, own_truthy) = elem_at ts i lt h in
    let same : own ≡ id = ground (arith, own_at, at) in
    let truthy = subst IsTruthy same own_truthy in
    let found = find_index-get_elem id ts i d at in
    let nonempty : 0 < n = omega (arith, lt) in
    let below = elem_at ts (next_index (some i) n) (next_index-bound i n lt) h in
    let above = elem_at ts (prev_index (some i) n) (prev_index-bound i n lt) h in
    (
      (
        below.0,
        press_down id ts truthy nonempty
            ∙ ap (λ j. select_at (next_index j n) ts) found
            ∙ select_at-found ts (next_index (some i) n) below.0 below.1,
        press_up below.0 ts below.2 nonempty
            ∙ ap (λ j. select_at (prev_index j n) ts)
                (find_index-get_elem below.0 ts (next_index (some i) n) d below.1)
            ∙ ap (λ j. select_at j ts) (prev-next i n lt)
            ∙ select_at-found ts i id at,
      ),
      (
        above.0,
        press_up id ts truthy nonempty
            ∙ ap (λ j. select_at (prev_index j n) ts) found
            ∙ select_at-found ts (prev_index (some i) n) above.0 above.1,
        press_down above.0 ts above.2 nonempty
            ∙ ap (λ j. select_at (next_index j n) ts)
                (find_index-get_elem above.0 ts (prev_index (some i) n) d above.1)
            ∙ ap (λ j. select_at j ts) (next-prev i n lt)
            ∙ select_at-found ts i id at,
      ),
    )

pub is_help : Action → Bool
is_help show_help = true
is_help _ = false

select_at-help : (i : ℕ) (ts : List Text) → any is_help (select_at i ts) ≡ false
unfolding select_at is_help
select_at-help i ts = elim (Option-cases (get_elem? ts i)) [
  | inl e ↦ ground (arith, e)
  | inr (t, e) ↦ ground (arith, e)
]

arrow-help :
    (event : KeyboardEvent) (id : Text) (ts : List Text) → any is_help (arrow event id ts) ≡ false
unfolding arrow is_help
arrow-help event id ts = ground (
  arith,
  select_at-help (prev_index (find_index id ts) (length ts)) ts,
  select_at-help (next_index (find_index id ts) (length ts)) ts,
)

-- While the shift key is held, no key shows the help, `?` neither.
shift-no_help :
    (event : KeyboardEvent) (selected : Option Text) (ts : List Text)
    → event.shift_key ≡ true
    → any is_help (handle_key_down event selected ts) ≡ false
unfolding handle_key_down is_help
shift-no_help event selected ts shift = elim (Option-cases selected) [
  | inl e ↦ ground (arith, shift, e)
  | inr (id, e) ↦ ground (arith, shift, e, arrow-help event id ts)
]
