-- ===== src/Text/Split.antt =====
-- split and trim.
use raceway.Prelude.{
  ℕ, ◌≡◌, refl, ◌≢◌, Bool, true, false, not, ◌||◌, ◌&&◌, List, [], ◌∷◌, ◌++◌, arith, leb, nat_eq,
  if◌then◌else◌, All,
}
use raceway.Text.{Text, is_truthy}

abbrev pub cons_head : ℕ → List Text → List Text
cons_head c [] = (c ∷ []) ∷ []
cons_head c (s ∷ ss) = (c ∷ s) ∷ ss

-- s.split(c) for a separator of one character
unfoldable pub split : ℕ → Text → List Text
split c [] = [] ∷ []
split c (a ∷ s) = let rest = split c s in if nat_eq a c then [] ∷ rest else cons_head a rest

-- The separator does not occur.
abbrev pub Lacks : ℕ → Text → Type 0
Lacks c s = All (λ a. a ≢ c) s

pub split-Lacks : (c : ℕ) (s : Text) → Lacks c s → split c s ≡ s ∷ []
unfolding split
split-Lacks c [] h = refl
split-Lacks c (a ∷ s) h = ground (arith, split-Lacks c s h.1)

pub split-append : (c : ℕ) (s t : Text) → Lacks c s → split c (s ++ c ∷ t) ≡ s ∷ split c t
unfolding split
split-append c [] t h = ground arith
split-append c (a ∷ s) t h = ground (arith, split-append c s t h.1)

-- WhiteSpace and LineTerminator of ECMAScript
unfoldable pub is_space : ℕ → Bool
is_space c =
    (leb 9 c && leb c 13)
    || nat_eq c 32
    || nat_eq c 160
    || nat_eq c 0x1680
    || (leb 0x2000 c && leb c 0x200a)
    || nat_eq c 0x2028
    || nat_eq c 0x2029
    || nat_eq c 0x202f
    || nat_eq c 0x205f
    || nat_eq c 0x3000
    || nat_eq c 0xfeff

unfoldable pub trim_start : Text → Text
trim_start [] = []
trim_start (c ∷ s) = if is_space c then trim_start s else c ∷ s

unfoldable pub trim_end : Text → Text
trim_end [] = []
trim_end (c ∷ s) =
    let rest = trim_end s in if not (is_truthy rest) && is_space c then [] else c ∷ rest

-- s.trim()
unfoldable pub trim : Text → Text
unfolding trim_start trim_end
trim s = trim_end (trim_start s)

pub trim_end-append :
    (s t : Text) → trim_end t ≡ t → is_truthy t ≡ true → trim_end (s ++ t) ≡ s ++ t
unfolding trim_end
trim_end-append [] t e h = e
trim_end-append (c ∷ []) t e h = ground (arith, e, h)
trim_end-append (c ∷ d ∷ s) t e h = ground (arith, trim_end-append (d ∷ s) t e h)

-- A text that begins with no space, and whose end stays, is trimmed to itself.
pub trim_exact :
    (a : ℕ) (s : Text) → is_space a ≡ false → trim_end (a ∷ s) ≡ a ∷ s → trim (a ∷ s) ≡ a ∷ s
unfolding trim
trim_exact a s h e = ground (arith, h, e)

pub split-ne : (c a : ℕ) (s : Text) → a ≢ c → split c (a ∷ s) ≡ cons_head a (split c s)
unfolding split
split-ne c a s h = ground (arith, h)
