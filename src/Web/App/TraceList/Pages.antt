-- ===== src/Web/App/TraceList/Pages.antt =====
-- Which pages the list of traces has (web/src/App.tsx).
use raceway.Prelude.{
  ℕ, zero, suc, ◌+◌, ◌≤◌, ◌<◌, ltb, lt→ltb, ◌≡◌, refl, ap, ◌∙◌, append_assoc, append-nil, sym,
  subst, true, false, List, [], ◌++◌, Option, none, some, if◌then◌else◌, arith,
}
use raceway.Web.App.TraceList.{
  TraceMetadata, TracesPage, page_of, PageRequest, TraceList, fetch_traces, receive_traces,
  load_more_traces, receive_more,
}

-- The answer of a server to a request for the list.
abbrev pub Server : Type 0
Server = PageRequest → TracesPage

-- A refresh, and a click on the button for more, with the answer before anything else happens.
unfoldable pub fetched : Server → TraceList → TraceList
unfolding fetch_traces receive_traces
fetched server s =
    let begun = fetch_traces s in receive_traces (page_of (some (server begun.1))) begun.0

abbrev answer_more : Server → TraceList × Option PageRequest → TraceList
answer_more server (s, none) = s
answer_more server (s, some r) = receive_more r (page_of (some (server r))) s

unfoldable pub more : Server → TraceList → TraceList
unfolding load_more_traces receive_more
more server s = answer_more server (load_more_traces s)

unfoldable pub more_times : ℕ → Server → TraceList → TraceList
unfolding more
more_times zero server s = s
more_times (suc n) server s = more_times n server (more server s)

-- A server with `count` traces on `total` pages that do not change.
abbrev pub serving : (count total : ℕ) → (ℕ → List TraceMetadata) → Server
serving count total pages r = record {
  total_traces = count;
  page = r.page;
  page_size = r.page_size;
  total_pages = total;
  traces = pages r.page;
}

-- The pages from one on.
unfoldable pub pages_from : (ℕ → List TraceMetadata) → ℕ → ℕ → List TraceMetadata
pages_from pages p zero = []
pages_from pages p (suc n) = pages p ++ pages_from pages (suc p) n

-- The list has the traces `ts`, up to the page `p` of `total`, and no request for more is pending.
pub record IsAtPage (total p : ℕ) (ts : List TraceMetadata) (s : TraceList) : Type 0 where
  pub traces : s.traces ≡ ts
  pub page : s.current_page ≡ p
  pub more_there : s.has_more_traces ≡ ltb p total
  pub idle : s.loading_more ≡ false

module _ (count total : ℕ) (pages : ℕ → List TraceMetadata) where
  -- What a click for more does where there are more pages.
  abbrev asked : TraceList → PageRequest
  asked s = record {
    page = suc s.current_page;
    page_size = 20;
    min_events = if ltb 1 s.min_events then some s.min_events else none;
  }

  load_more_traces-on :
      (p : ℕ) (ts : List TraceMetadata) (s : TraceList)
      → p < total
      → IsAtPage total p ts s
      → load_more_traces s ≡ (record s { loading_more = true }, some (asked s))
  unfolding load_more_traces
  load_more_traces-on p ts s lt h =
      let has_more : s.has_more_traces ≡ true = h.more_there ∙ lt→ltb p total lt in
      simp (h.idle, has_more) refl

  more-IsAtPage :
      (p : ℕ) (ts : List TraceMetadata) (s : TraceList)
      → p < total
      → IsAtPage total p ts s
      → IsAtPage total (suc p) (ts ++ pages (suc p)) (more (serving count total pages) s)
  unfolding more load_more_traces receive_more
  more-IsAtPage p ts s lt h =
      rw (more, load_more_traces-on p ts s lt h)
        record {
          traces =
              ap (λ t. t ++ pages (suc s.current_page)) h.traces
              ∙ ap (λ q. ts ++ pages (suc q)) h.page;
          page = ap suc h.page;
          more_there = ap (λ q. ltb (suc q) total) h.page;
          idle = refl;
        }

  more_times-IsAtPage :
      (n p : ℕ) (ts : List TraceMetadata) (s : TraceList)
      → n + p ≤ total
      → IsAtPage total p ts s
      → IsAtPage total
          (n + p)
          (ts ++ pages_from pages (suc p) n)
          (more_times n (serving count total pages) s)
  unfolding more_times pages_from
  more_times-IsAtPage zero p ts s le h =
      let here : p ≡ 0 + p = omega arith in
      subst (λ q. IsAtPage total q (ts ++ []) s) here (rw (append-nil ts) h)
  more_times-IsAtPage (suc n) p ts s le h =
      let rest =
        more_times-IsAtPage n (suc p) (ts ++ pages (suc p)) (more (serving count total pages) s)
          (omega (arith, le)) (more-IsAtPage p ts s (omega (arith, le)) h) in
      let sum : n + suc p ≡ suc n + p = omega arith in
      rw (sym sum, sym (append_assoc ts (pages (suc p)) (pages_from pages (suc (suc p)) n))) rest

-- For a server whose pages do not change, a fresh list after `n` clicks for more, each answered
-- before the next and not more than there are pages, has the traces of the first `n + 1` pages in
-- their order, stands at that page, and offers more exactly if there are further pages.
pub more_times-pages :
    (n count total : ℕ) (pages : ℕ → List TraceMetadata) (s : TraceList)
    → n < total
    → s.loading_more ≡ false
    → IsAtPage total
        (n + 1)
        (pages_from pages 1 (suc n))
        (more_times n (serving count total pages) (fetched (serving count total pages) s))
unfolding pages_from fetched fetch_traces receive_traces
more_times-pages n count total pages s lt idle =
    more_times-IsAtPage count total pages n 1 (pages 1) (fetched (serving count total pages) s)
      (omega (arith, lt)) (record { traces = refl; page = refl; more_there = refl; idle = idle })

-- The list at page `p`, where more is asked for, and the list is fetched again before the answer.
abbrev pub overtaken : Server → TraceList → TraceList
overtaken server s =
    let begun = load_more_traces s in answer_more server (fetched server begun.0, begun.1)

-- If the list of traces is fetched again, as every twenty seconds, between a click for more and its
-- answer, then the list has the first page and the page after the last that was shown, stands at the
-- latter, and does not have the pages between them.
pub overtaken-skips :
    (p count total : ℕ) (pages : ℕ → List TraceMetadata) (ts : List TraceMetadata) (s : TraceList)
    → p < total
    → IsAtPage total p ts s
    → IsAtPage total (p + 1) (pages 1 ++ pages (p + 1)) (overtaken (serving count total pages) s)
unfolding load_more_traces receive_more fetched fetch_traces receive_traces
overtaken-skips p count total pages ts s lt h =
    let next : suc s.current_page ≡ p + 1 = omega (arith, h.page) in
    rw (load_more_traces-on count total pages p ts s lt h) record {
      traces = ap (λ q. pages 1 ++ pages q) next;
      page = next;
      more_there = ap (λ q. ltb q total) next;
      idle = refl;
    }
