-- ===== src/Sdk/Raceway/Frames.antt =====
-- What `parseLocation` makes of a frame (sdks/typescript/src/raceway.ts).
use raceway.Prelude.{◌≡◌, refl, List, [], ◌∷◌, ◌++◌, arith}
use raceway.Text.{Text}
use raceway.Text.Split.{
  split, split-append, split-Lacks, split-ne, cons_head, trim_start, Lacks, is_space,
}
use raceway.Sdk.Raceway.Location.{parse_location, parse_location_parts, parse_int_or_zero}

-- A location `file:line` whose two parts have no colon is read as these.
pub parse_location-file :
    (file line : Text)
    → Lacks b':' file
    → Lacks b':' line
    → parse_location (file ++ b':' ∷ line) ≡ (file, parse_int_or_zero line)
unfolding parse_location
parse_location-file file line f l = rw (split-append b':' file line f, split-Lacks b':' line l)

slash_line :
    (scheme : Text) (pieces : List Text)
    → parse_location_parts (scheme ∷ cons_head b'/' pieces) ≡ (scheme, 0)
unfolding parse_location_parts parse_int_or_zero is_space trim_start
slash_line scheme [] = refl
slash_line scheme (s ∷ pieces) = refl

-- A location in a file URL, such as an ES module's frame has, loses its path and its line: the file
-- becomes the scheme and the line 0.
parse_location-url :
    (scheme rest : Text)
    → Lacks b':' scheme
    → parse_location (scheme ++ b':' ∷ b'/' ∷ rest) ≡ (scheme, 0)
unfolding parse_location
parse_location-url scheme rest h =
    rw (split-append b':' scheme (b'/' ∷ rest) h, split-ne b':' b'/' rest (omega arith))
      (slash_line scheme (split b':' rest))
