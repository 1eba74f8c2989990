-- ===== src/Web/Csv/Quotes.antt =====
-- Quotes in the cells that `exportToCSV` of web/src/lib/export.ts writes.
use raceway.Prelude.{
  ℕ, ◌≡◌, refl, sym, ap, ◌∙◌, List, [], ◌∷◌, ◌++◌, arith, All, append_assoc, append-nil,
}
use raceway.Text.{Text}
use raceway.Text.Split.{split, split-append, split-ne, cons_head, Lacks}
use raceway.Web.Types.{Event}
use raceway.Web.Csv.{join, quoted, csv_row, cells, export_to_csv}

-- Every second text.
unfoldable seconds : List Text → List Text
seconds [] = []
seconds (s ∷ []) = []
seconds (s ∷ t ∷ rest) = t ∷ seconds rest

seconds-cons_head : (a : ℕ) (ts : List Text) → seconds (cons_head a ts) ≡ seconds ts
unfolding seconds
seconds-cons_head a [] = refl
seconds-cons_head a (s ∷ []) = refl
seconds-cons_head a (s ∷ t ∷ rest) = refl

seconds-quoted :
    (c rest : Text)
    → Lacks b'"' c
    → seconds (split b'"' (quoted c ++ rest)) ≡ c ∷ seconds (split b'"' rest)
unfolding seconds quoted split
seconds-quoted c rest h =
    ap (λ s. seconds ([] ∷ split b'"' s)) (append_assoc c (b'"' ∷ []) rest)
    ∙ ap (λ ts. seconds ([] ∷ ts)) (split-append b'"' c rest h)

seconds-comma : (s : Text) → seconds (split b'"' (b',' ∷ s)) ≡ seconds (split b'"' s)
seconds-comma s =
    ap seconds (split-ne b'"' b',' s (omega arith)) ∙ seconds-cons_head b',' (split b'"' s)

-- A row can be read back where no cell has a quote, with commas and line ends in cells or without:
-- what stands between the quotes, every second part of the row split at them, is the row.
seconds-csv_row :
    (row : List Text) → All (Lacks b'"') row → seconds (split b'"' (csv_row row)) ≡ row
unfolding csv_row join
seconds-csv_row [] h = unfold seconds split in refl
seconds-csv_row (c ∷ []) h =
    ap (λ s. seconds (split b'"' s)) (sym (append-nil (quoted c)))
    ∙ seconds-quoted c [] h.0
    ∙ ap (λ r. c ∷ r) (unfold seconds split in refl)
seconds-csv_row (c ∷ d ∷ row) h =
    seconds-quoted c (b',' ∷ csv_row (d ∷ row)) h.0
    ∙ ap (λ r. c ∷ r) (seconds-comma (csv_row (d ∷ row)) ∙ seconds-csv_row (d ∷ row) h.1)

abbrev comma_quoted : Text
comma_quoted = b'"' ∷ b',' ∷ b'"' ∷ []

abbrev with_thread : Text → Text → Event → Event
with_thread thread service e = record e {
  metadata = record e.metadata { thread_id = thread; service_name = service };
}

-- Quotes in a cell are not escaped: for any x, y and z, the thread `x","y` of the service `z` and the
-- thread `x` of the service `y","z` are written alike.
quotes_not_escaped :
    (e : Event) (x y z : Text)
    → export_to_csv (with_thread (x ++ (comma_quoted ++ y)) z e ∷ [])
      ≡ export_to_csv (with_thread x (y ++ (comma_quoted ++ z)) e ∷ [])
unfolding export_to_csv csv_row cells join quoted
quotes_not_escaped e x y z = simp append_assoc refl
