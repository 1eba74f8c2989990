-- ===== src/Web/Kinds/Urls.antt =====
-- How long the URLs are that are shown (web/src/lib/event-utils.ts).
use raceway.Prelude.{
  ℕ, zero, suc, ◌+◌, ◌-◌, ◌≤◌, ltb, leb, max, [], ◌∷◌, ◌++◌, take, length, length-append, arith,
  if◌then◌else◌, Bool-cases, Option-cases, inl, inr,
}
use raceway.Text.{Text}
use raceway.Web.Kinds.{Browser, shorten, ellipsis, truncate_url}

length-take : (n : ℕ) (s : Text) → length (take n s) ≤ n
length-take zero s = omega arith
length-take (suc n) [] = omega arith
length-take (suc n) (c ∷ s) = omega (arith, length-take n s)

shorten-bound : (n : ℕ) (s : Text) → length (shorten n s) ≤ n + 3
unfolding shorten
shorten-bound n s = elim (Bool-cases (ltb n (length s))) [
  | inl long ↦
      rw (shorten, long) (omega (arith, length-append (take n s) ellipsis, length-take n s))
  | inr fits ↦ rw (shorten, fits) (ground (arith, fits))
]

with_search-bound :
    (path search : Text)
    → length path ≤ 33
    → length (
        if leb (length path + length search) 50
        then path ++ search
        else path ++ (take (max 10 (50 - length path - 3)) search ++ ellipsis))
      ≤ 53
with_search-bound path search le = elim (Bool-cases (leb (length path + length search) 50)) [
  | inl fits ↦ simp fits (ground (arith, fits, length-append path search))
  | inr long ↦
      let cut = take (max 10 (50 - length path - 3)) search in
      simp long (
        omega (
          arith,
          le,
          length-append path (cut ++ ellipsis),
          length-append cut ellipsis,
          length-take (max 10 (50 - length path - 3)) search,
        ))
]

-- A URL is shown with at most 53 code units.
truncate_url-bound : (browser : Browser) (url : Text) → length (truncate_url browser url 50) ≤ 53
unfolding truncate_url
truncate_url-bound browser url = elim (Option-cases (browser.parse_url url)) [
  | inl none_ ↦ rw (truncate_url, none_) (shorten-bound 50 url)
  | inr ((path, []), e) ↦ rw (truncate_url, e) (shorten-bound 50 path)
  | inr ((path, c ∷ search), e) ↦
      rw (truncate_url, e)
        (with_search-bound (shorten 30 path) (c ∷ search) (shorten-bound 30 path))
]
