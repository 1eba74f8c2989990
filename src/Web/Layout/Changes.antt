-- ===== src/Web/Layout/Changes.antt =====
-- getStateChangesForEvent of web/src/lib/debugger-layout.ts: what the causal debugger lists for an
-- event. `none` is the TypeError of calling `includes` on a value that has no such method.
use raceway.Prelude.{
  Bool, true, false, ◌||◌, List, [], ◌∷◌, ◌++◌, Option, none, some, if◌then◌else◌,
}
use raceway.Text.{Text, codes, ◌==◌, includes}
use raceway.Json.{Json, Items, null, str, arr, nil, cons, field_value, member, truthy}
use raceway.Web.Types.{Event}

-- A value that is not in the details is `none`, which is undefined.
pub record StateChange : Type 0 where
  pub variable : Option Json
  pub old_value : Json
  pub new_value : Option Json
  pub access_type : Option Json
  pub is_write : Bool
  pub is_lock : Bool

-- event.kind[name], where it is truthy
unfoldable pub details : Text → Event → Option Json
unfolding field_value truthy
details name event = let value = field_value name event.kind in if truthy value then value else none

-- value || null
abbrev pub or_null : Option Json → Json
unfolding truthy
or_null none = null
or_null (some v) = if truthy (some v) then v else null

unfoldable pub items_include : Text → Items → Bool
items_include s nil = false
items_include s (cons (str t) rest) = t == s || items_include s rest
items_include s (cons _ rest) = items_include s rest

-- access_type.includes('Write')
unfoldable pub includes_write : Option Json → Option Bool
unfolding includes items_include codes
includes_write (some (str s)) = some (includes s (codes "Write"))
includes_write (some (arr items)) = some (items_include (codes "Write") items)
includes_write _ = none

abbrev pub state_change : Json → Option Bool → Option (List StateChange)
unfolding member codes or_null
state_change change none = none
state_change change (some is_write) = some (
    record {
      variable = member (codes "variable") change;
      old_value = or_null (member (codes "old_value") change);
      new_value = member (codes "new_value") change;
      access_type = member (codes "access_type") change;
      is_write = is_write;
      is_lock = false;
    }
    ∷ [])

-- lock.lock_id || 'unknown'
abbrev pub lock_of : Json → Json
unfolding member codes truthy
lock_of lock = elim (member (codes "lock_id") lock) [
  | none ↦ str (codes "unknown")
  | some id ↦ if truthy (some id) then id else str (codes "unknown")
]

abbrev pub lock_change : Text → Json → Text → Json → StateChange
unfolding lock_of
lock_change access_type old_value new_value lock = record {
  variable = some (lock_of lock);
  old_value = old_value;
  new_value = some (str new_value);
  access_type = some (str access_type);
  is_write = false;
  is_lock = true;
}

-- The changes of the locks, which come after that of the state.
unfoldable pub lock_changes : Event → List StateChange
unfolding details codes lock_change
lock_changes event =
    elim (details (codes "LockAcquire") event) [
      | none ↦ []
      | some lock ↦ lock_change (codes "LockAcquire") null (codes "acquired") lock ∷ []
    ]
    ++ elim (details (codes "LockRelease") event) [
      | none ↦ []
      | some lock ↦
          lock_change (codes "LockRelease") (str (codes "acquired")) (codes "released") lock ∷ []
    ]

abbrev pub with_locks : List StateChange → Option (List StateChange) → Option (List StateChange)
with_locks locks none = none
with_locks locks (some changes) = some (changes ++ locks)

unfoldable pub get_state_changes_for_event : Event → Option (List StateChange)
unfolding details member codes includes_write state_change lock_changes
get_state_changes_for_event event = elim (details (codes "StateChange") event) [
  | none ↦ some (lock_changes event)
  | some change ↦
      with_locks (lock_changes event)
        (state_change change (includes_write (member (codes "access_type") change)))
]
