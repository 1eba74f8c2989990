-- ===== src/Sdk/AutoTrack.antt =====
-- sdks/typescript/src/auto-track.ts: proxies that report each access to an object. Objects are
-- addresses in a heap; a proxy's target may itself be a proxy. Where the stack trace says that an
-- access happens is the parameter `location`.
pub mod Transparent
pub mod Programs
pub mod Tests
use raceway.Prelude.{
  ℕ, Bool, true, false, ◌&&◌, ◌||◌, List, [], ◌∷◌, ◌++◌, Option, none, some, nat_eq, if◌then◌else◌,
}
use raceway.Text.{Text, codes, ◌==◌}
use raceway.Json.{Json}

-- string | symbol
pub data Key : Type 0 where
  name : Text → Key
  symbol : ℕ → Key

pub data Object : Type 0 where
  plain : ℕ → Object
  tracked : (target : Object) (current_path : Text) → Object

pub data Value : Type 0 where
  undefined : Value
  primitive : Json → Value  -- null too
  array : ℕ → Value
  object : Object → Value

pub data Access : Type 0 where
  read : (path : Text) (new_value : Value) (location : Text) → Access
  write : (path : Text) (old_value new_value : Value) (location : Text) → Access

-- The properties of each object, `undefined` for those that it does not have.
abbrev pub Heap : Type 0
Heap = ℕ → Key → Value

key_eq : Key → Key → Bool
key_eq (name s) (name t) = s == t
key_eq (symbol m) (symbol n) = nat_eq m n
key_eq _ _ = false

unfoldable pub put : ℕ → Key → Value → Heap → Heap
unfolding key_eq
put a k v h b l = if nat_eq a b && key_eq k l then v else h b l

-- The heap, and what `onAccess` was called with.
pub record Store : Type 0 where
  pub heap : Heap
  pub accesses : List Access

abbrev pub log : Access → Store → Store
log access s = record s { accesses = s.accesses ++ access ∷ [] }

-- `${currentPath}.${String(prop)}`
abbrev pub full_path : Text → Text → Text
full_path current_path prop = current_path ++ (b'.' ∷ prop)

-- prop === 'toJSON' || prop === 'constructor'
unfoldable pub is_special : Text → Bool
unfolding codes
is_special prop = prop == codes "toJSON" || prop == codes "constructor"

module _ (track_nested : Bool) (location : Text) where
  -- the end of `get`
  unfoldable pub wrap : Text → Value → Value
  wrap path (object o) = if track_nested then object (tracked o path) else object o
  wrap path v = v

  -- o[k]
  unfoldable pub get_property : Object → Key → Store → Value × Store
  unfolding is_special wrap
  get_property (plain a) k s = (s.heap a k, s)
  get_property (tracked o current_path) (symbol n) s = get_property o (symbol n) s
  get_property (tracked o current_path) (name prop) s =
      let got = get_property o (name prop) s in
      let path = full_path current_path prop in
      if is_special prop then got else (wrap path got.0, log (read path got.0 location) got.1)

  -- o[k] = v
  unfoldable pub set_property : Object → Key → Value → Store → Store
  unfolding put get_property
  set_property (plain a) k v s = record s { heap = put a k v s.heap }
  set_property (tracked o current_path) (symbol n) v s = set_property o (symbol n) v s
  set_property (tracked o current_path) (name prop) v s =
      let old = get_property o (name prop) s in
      log (write (full_path current_path prop) old.0 v location)
        (set_property o (name prop) v old.1)
