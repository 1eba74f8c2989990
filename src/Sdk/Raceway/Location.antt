-- ===== src/Sdk/Raceway/Location.antt =====
-- `captureLocation` and `parseLocation` of sdks/typescript/src/raceway.ts.
use raceway.Prelude.{
  ℕ, ◌+◌, ◌-◌, ◌*◌, Bool, ◌&&◌, not, List, [], ◌∷◌, ◌++◌, Option, none, some, leb, drop,
  if◌then◌else◌,
}
use raceway.Text.{Text, codes, includes}
use raceway.Text.Split.{split, trim_start}

-- The groups 1 and 2 of the first of the two patterns for a stack frame that matches; the regular
-- expressions are the engine's.
abbrev pub FramePattern : Type 0
FramePattern = Text → Option (Text × Text)

abbrev frame_location : Option (Text × Text) → Text → Text
frame_location none rest = rest
frame_location (some (file, line)) rest = file ++ b':' ∷ line

-- the loop over the lines of the stack
first_location : FramePattern → List Text → Text
first_location frame [] = codes "unknown:0"
first_location frame (line ∷ lines) =
    let rest = first_location frame lines in
    if not (includes line (codes "raceway.ts")) && not (includes line (codes "raceway.js"))
    then frame_location (frame line) rest
    else rest

-- `stack` is the text of `err.stack`, empty where there is none
unfoldable pub capture_location : FramePattern → Text → Text
unfolding first_location
capture_location frame stack = first_location frame (drop 2 (split 10 stack))

is_digit : ℕ → Bool
is_digit c = leb b'0' c && leb c b'9'

digits_from : ℕ → Text → ℕ
digits_from n [] = n
digits_from n (c ∷ s) =
    let more = digits_from (n * 10 + (c - b'0')) s in if is_digit c then more else n

-- parseInt(s) || 0, where `s` does not begin with a sign or with 0x
unfoldable pub parse_int_or_zero : Text → ℕ
unfolding digits_from is_digit
parse_int_or_zero s = digits_from 0 (trim_start s)

unfoldable pub parse_location_parts : List Text → Text × ℕ
parse_location_parts (file ∷ line ∷ rest) = (file, parse_int_or_zero line)
parse_location_parts _ = (codes "unknown", 0)

unfoldable pub parse_location : Text → Text × ℕ
unfolding parse_location_parts
parse_location location = parse_location_parts (split b':' location)
