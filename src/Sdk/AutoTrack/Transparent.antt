-- ===== src/Sdk/AutoTrack/Transparent.antt =====
-- One access through the proxies of sdks/typescript/src/auto-track.ts.
use raceway.Prelude.{ℕ, ◌≡◌, refl, ap, ◌∙◌, Bool, arith, Bool-cases, inl, inr}
use raceway.Text.{Text}
use raceway.Sdk.AutoTrack.{
  Key, name, symbol, Object, plain, tracked, Value, undefined, primitive, array, object, put, Store,
  full_path, is_special, wrap, get_property, set_property,
}

-- The object behind all proxies.
abbrev pub base : Object → ℕ
base (plain a) = a
base (tracked o path) = base o

abbrev pub bare : Value → Value
bare (object o) = object (plain (base o))
bare v = v

module _ (track_nested : Bool) (location : Text) where
  pub bare-wrap : (path : Text) (v : Value) → bare (wrap track_nested location path v) ≡ bare v
  unfolding wrap
  bare-wrap path undefined = refl
  bare-wrap path (primitive j) = refl
  bare-wrap path (array a) = refl
  bare-wrap path (object o) = ground arith

  pub get-heap :
      (o : Object) (k : Key) (s : Store)
      → (get_property track_nested location o k s).1.heap ≡ s.heap
  unfolding get_property
  get-heap (plain a) k s = refl
  get-heap (tracked o path) (symbol n) s = get-heap o (symbol n) s
  get-heap (tracked o path) (name prop) s = elim (Bool-cases (is_special prop)) [
    | inl e ↦ simp e (get-heap o (name prop) s)
    | inr e ↦ simp e (get-heap o (name prop) s)
  ]

  pub get-bare :
      (o : Object) (k : Key) (s : Store)
      → bare (get_property track_nested location o k s).0 ≡ bare (s.heap (base o) k)
  unfolding get_property
  get-bare (plain a) k s = refl
  get-bare (tracked o path) (symbol n) s = get-bare o (symbol n) s
  get-bare (tracked o path) (name prop) s =
      let got = get_property track_nested location o (name prop) s in
      elim (Bool-cases (is_special prop)) [
        | inl e ↦ simp e (get-bare o (name prop) s)
        | inr e ↦ simp e (bare-wrap (full_path path prop) got.0 ∙ get-bare o (name prop) s)
      ]

  pub set-heap :
      (o : Object) (k : Key) (v : Value) (s : Store)
      → (set_property track_nested location o k v s).heap ≡ put (base o) k v s.heap
  unfolding set_property
  set-heap (plain a) k v s = refl
  set-heap (tracked o path) (symbol n) v s = set-heap o (symbol n) v s
  set-heap (tracked o path) (name prop) v s =
      set-heap o (name prop) v _ ∙ ap (put (base o) (name prop) v) (get-heap o (name prop) s)
