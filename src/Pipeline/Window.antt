-- ===== src/Pipeline/Window.antt =====
-- `classify_discovery_window` of application/pipeline.py, and its description: the window is read up
-- to its first page that failed or is empty, and what comes after an empty page is only counted.
use govpars.Prelude.{
  ℕ, ◌+◌, ◌≡◌, ◌∙◌, Bool, true, false, Option, none, some, List, [], ◌∷◌, ◌++◌, append_assoc,
  append-nil, arith, count_if,
}
use govpars.Domain.Errors.{Exc, Result, ok, raised, plain_error}
use govpars.Domain.Models.{DiscoveredEntity}

-- What a page gave: its items, or the exception that `gather` returned in their place.
pub data PageResult : Type 0 where
  items : List DiscoveredEntity → PageResult
  failure : Exc → PageResult

pub record DiscoveryPageSuccess : Type 0 where
  pub page : ℕ
  pub page_items : List DiscoveredEntity

pub record DiscoveryWindowAnalysis : Type 0 where
  pub meaningful_pages : List DiscoveryPageSuccess
  pub terminal_page : Option ℕ
  pub speculative_empty_pages : ℕ
  pub ignored_speculative_failures : ℕ
  pub failed_page : Option ℕ
  pub window_failure : Option Exc

analysed : List DiscoveryPageSuccess → Option ℕ → ℕ → ℕ → DiscoveryWindowAnalysis
analysed meaningful terminal empties ignored = record {
  meaningful_pages = meaningful;
  terminal_page = terminal;
  speculative_empty_pages = empties;
  ignored_speculative_failures = ignored;
  failed_page = none;
  window_failure = none;
}

failed_at : List DiscoveryPageSuccess → ℕ → Exc → DiscoveryWindowAnalysis
failed_at meaningful page e = record {
  meaningful_pages = meaningful;
  terminal_page = none;
  speculative_empty_pages = 0;
  ignored_speculative_failures = 0;
  failed_page = some page;
  window_failure = some e;
}

-- The loop over `zip(pages, results, strict=True)` with its four variables.
classify_loop :
    List ℕ
    → List PageResult
    → List DiscoveryPageSuccess
    → Option ℕ
    → ℕ
    → ℕ
    → Result DiscoveryWindowAnalysis
unfolding analysed failed_at
classify_loop [] [] meaningful terminal empties ignored =
    ok (analysed meaningful terminal empties ignored)
classify_loop [] (r ∷ rs) meaningful terminal empties ignored = raised (plain_error "ValueError")
classify_loop (p ∷ ps) [] meaningful terminal empties ignored = raised (plain_error "ValueError")
classify_loop (p ∷ ps) (failure e ∷ rs) meaningful (some t) empties ignored =
    classify_loop ps rs meaningful (some t) empties (ignored + 1)
classify_loop (p ∷ ps) (items [] ∷ rs) meaningful (some t) empties ignored =
    classify_loop ps rs meaningful (some t) (empties + 1) ignored
classify_loop (p ∷ ps) (items (x ∷ xs) ∷ rs) meaningful (some t) empties ignored =
    classify_loop ps rs meaningful (some t) empties ignored
classify_loop (p ∷ ps) (failure e ∷ rs) meaningful none empties ignored =
    ok (failed_at meaningful p e)
classify_loop (p ∷ ps) (items [] ∷ rs) meaningful none empties ignored =
    classify_loop ps rs meaningful (some p) empties ignored
classify_loop (p ∷ ps) (items (x ∷ xs) ∷ rs) meaningful none empties ignored =
    classify_loop ps rs (meaningful ++ record { page = p; page_items = x ∷ xs } ∷ []) none empties
      ignored

unfoldable pub classify_discovery_window : List ℕ → List PageResult → Result DiscoveryWindowAnalysis
unfolding classify_loop
classify_discovery_window pages results = classify_loop pages results [] none 0 0

-- A window as pages with their results.
abbrev pub Window : Type 0
Window = List (ℕ × PageResult)

abbrev pub pages_of : Window → List ℕ
pages_of [] = []
pages_of ((p, r) ∷ w) = p ∷ pages_of w

abbrev pub results_of : Window → List PageResult
results_of [] = []
results_of ((p, r) ∷ w) = r ∷ results_of w

-- The non-empty pages before the first that failed or is empty, and the rest of the window.
unfoldable pub good_prefix : Window → List DiscoveryPageSuccess
good_prefix [] = []
good_prefix ((p, failure e) ∷ w) = []
good_prefix ((p, items []) ∷ w) = []
good_prefix ((p, items (x ∷ xs)) ∷ w) = record { page = p; page_items = x ∷ xs } ∷ good_prefix w

unfoldable pub rest_of : Window → Window
rest_of [] = []
rest_of ((p, failure e) ∷ w) = (p, failure e) ∷ w
rest_of ((p, items []) ∷ w) = (p, items []) ∷ w
rest_of ((p, items (x ∷ xs)) ∷ w) = rest_of w

abbrev pub is_empty_page : ℕ × PageResult → Bool
is_empty_page (p, items []) = true
is_empty_page _ = false

abbrev pub is_failed_page : ℕ × PageResult → Bool
is_failed_page (p, failure e) = true
is_failed_page _ = false

unfoldable pub analysis_from : List DiscoveryPageSuccess → Window → DiscoveryWindowAnalysis
unfolding analysed failed_at
analysis_from good [] = analysed good none 0 0
analysis_from good ((p, failure e) ∷ w) = failed_at good p e
analysis_from good ((p, items xs) ∷ w) =
    analysed good (some p) (count_if is_empty_page w) (count_if is_failed_page w)

-- after the terminal page the loop only counts
loop_terminal :
    (w : Window) (good : List DiscoveryPageSuccess) (t m n : ℕ)
    → classify_loop (pages_of w) (results_of w) good (some t) m n
      ≡ ok (analysed good (some t) (m + count_if is_empty_page w) (n + count_if is_failed_page w))
unfolding classify_loop
loop_terminal [] good t m n = ground arith
loop_terminal ((p, failure e) ∷ w) good t m n = loop_terminal w good t m (n + 1) ∙ ground arith
loop_terminal ((p, items []) ∷ w) good t m n = loop_terminal w good t (m + 1) n ∙ ground arith
loop_terminal ((p, items (x ∷ xs)) ∷ w) good t m n = loop_terminal w good t m n

loop_open :
    (w : Window) (good : List DiscoveryPageSuccess)
    → classify_loop (pages_of w) (results_of w) good none 0 0
      ≡ ok (analysis_from (good ++ good_prefix w) (rest_of w))
unfolding classify_loop analysis_from good_prefix rest_of
loop_open [] good = rw append-nil
loop_open ((p, failure e) ∷ w) good = rw append-nil
loop_open ((p, items []) ∷ w) good = loop_terminal w good p 0 0 ∙ ground (arith, append-nil good)
loop_open ((p, items (x ∷ xs)) ∷ w) good =
    loop_open w (good ++ record { page = p; page_items = x ∷ xs } ∷ []) ∙ rw append_assoc

-- On a window with a result for every page, the analysis has as meaningful pages the non-empty ones
-- before the first page that failed or is empty. If that page failed, the window has its number
-- and its exception as the failure and no terminal page; if it is empty, it is the terminal page,
-- no failure after it counts as one, and the empty and the failed pages after it are counted.
pub classify_discovery_window_lem :
    (w : Window)
    → classify_discovery_window (pages_of w) (results_of w)
      ≡ ok (analysis_from (good_prefix w) (rest_of w))
unfolding classify_discovery_window
classify_discovery_window_lem w = loop_open w []
