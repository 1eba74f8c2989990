-- ===== src/Text/Hex.antt =====
-- Hexadecimal digits.
use raceway.Prelude.{
  ℕ, ◌+◌, ◌≡◌, refl, ap₂, ◌≢◌, Bool, true, ◌||◌, ◌&&◌, [], ◌∷◌, map, arith, leb, if◌then◌else◌, all,
  All,
}
use raceway.Text.{Text}
use raceway.Text.Split.{Lacks}

unfoldable pub is_hex_digit : ℕ → Bool
is_hex_digit c =
    (leb b'0' c && leb c b'9') || (leb b'a' c && leb c b'f') || (leb b'A' c && leb c b'F')

-- toLowerCase on a hexadecimal digit (and on every other ASCII character)
unfoldable pub lower : ℕ → ℕ
lower c = if leb b'A' c && leb c b'Z' then c + 32 else c

abbrev pub IsHexText : Text → Type 0
IsHexText s = All (λ c. is_hex_digit c ≡ true) s

is_hex_digit-not-dash : (c : ℕ) → is_hex_digit c ≡ true → c ≢ b'-'
unfolding is_hex_digit
is_hex_digit-not-dash c h = ground arith

pub IsHexText-Lacks : (s : Text) → IsHexText s → Lacks b'-' s
IsHexText-Lacks [] h = tt
IsHexText-Lacks (c ∷ s) h = (is_hex_digit-not-dash c h.0, IsHexText-Lacks s h.1)

pub IsHexText-all : (s : Text) → IsHexText s → all is_hex_digit s ≡ true
IsHexText-all [] h = refl
IsHexText-all (c ∷ s) h = ground (arith, IsHexText-all s h.1)

-- No upper-case letter: toLowerCase leaves the text as it is.
abbrev pub IsLowerText : Text → Type 0
IsLowerText s = All (λ c. lower c ≡ c) s

pub map-lower : (s : Text) → IsLowerText s → map lower s ≡ s
map-lower [] h = refl
map-lower (c ∷ s) h = ap₂ (λ d r. d ∷ r) h.0 (map-lower s h.1)
