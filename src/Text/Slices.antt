-- ===== src/Text/Slices.antt =====
-- Pieces of a text that is put together from parts of known lengths.
use raceway.Prelude.{
  ℕ, zero, suc, ◌+◌, ◌-◌, ◌≡◌, refl, ap, [], ◌∷◌, ◌++◌, arith, length, take, drop,
}
use raceway.Text.{Text, pad_start, remove_all}
use raceway.Text.Split.{Lacks}

pub take_exact : (n : ℕ) (s t : Text) → length s ≡ n → take n (s ++ t) ≡ s
take_exact zero [] t h = refl
take_exact zero (a ∷ s) t h = absurd (omega arith)
take_exact (suc n) [] t h = absurd (omega arith)
take_exact (suc n) (a ∷ s) t h = ap (λ r. a ∷ r) (take_exact n s t (omega arith))

pub take_all : (n : ℕ) (s : Text) → length s ≡ n → take n s ≡ s
take_all zero [] h = refl
take_all zero (a ∷ s) h = absurd (omega arith)
take_all (suc n) [] h = refl
take_all (suc n) (a ∷ s) h = ap (λ r. a ∷ r) (take_all n s (omega arith))

pub drop_skip : (n m : ℕ) (s t : Text) → length s ≡ n → drop (n + m) (s ++ t) ≡ drop m t
drop_skip zero m [] t h = rw zero_add
  where
    zero_add : 0 + m ≡ m
    zero_add = omega arith
drop_skip zero m (a ∷ s) t h = absurd (omega arith)
drop_skip (suc n) m [] t h = absurd (omega arith)
drop_skip (suc n) m (a ∷ s) t h = rw suc_add (drop_skip n m s t (omega arith))
  where
    suc_add : suc n + m ≡ suc (n + m)
    suc_add = omega arith

pub pad_start_full : (n c : ℕ) (s : Text) → length s ≡ n → pad_start n c s ≡ s
unfolding pad_start
pad_start_full n c s h = let e : n - length s ≡ 0 = omega arith in rw e

pub remove_all-append :
    (c : ℕ) (s t : Text) → remove_all c (s ++ t) ≡ remove_all c s ++ remove_all c t
unfolding remove_all
remove_all-append c [] t = refl
remove_all-append c (a ∷ s) t = ground (arith, remove_all-append c s t)

pub remove_all-Lacks : (c : ℕ) (s : Text) → Lacks c s → remove_all c s ≡ s
unfolding remove_all
remove_all-Lacks c [] h = refl
remove_all-Lacks c (a ∷ s) h = ground (arith, remove_all-Lacks c s h.1)

pub remove_all_self : (c : ℕ) (s : Text) → remove_all c (c ∷ s) ≡ remove_all c s
unfolding remove_all
remove_all_self c s = ground arith
