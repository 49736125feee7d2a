-- ===== src/Pipeline/Discovery.antt =====
-- `DiscoveryService` of application/pipeline.py: the loop over windows of pages. The adapter is the
-- result of each page, the frontier an interface of three calls for the source, the entity type and
-- the scope of the run; a method that the frontier lacks is `none`, as `getattr` finds it. The
-- catalogue may never end, so the loop has fuel, one unit for a window. Cancellation is left out.
pub mod Pages
pub mod Persisted
pub mod Crawl
use govpars.Prelude.{
  ℕ, zero, suc, ◌+◌, ◌-◌, min, Bool, true, false, ◌&&◌, Option, none, some, List, [], ◌∷◌, ◌++◌,
  map, ltb, leb, if◌then◌else◌, set,
}
use govpars.Domain.Errors.{Exc, Result, ok, raised, plain_error}
use govpars.Domain.Models.{DiscoveredEntity}
use govpars.Pipeline.Window.{
  PageResult, DiscoveryPageSuccess, DiscoveryWindowAnalysis, classify_discovery_window,
}

pub record FrontierPort : Type 1 where
  pub State : Type 0
  pub enqueue : State → List DiscoveredEntity → Result ℕ × State
  pub get_checkpoint : Option (State → Result (ℕ × Bool))
  pub set_checkpoint : Option (State → ℕ → Bool → Result (Unit {0}) × State)

-- How a run ends: as the method does, or with the fuel used up.
pub data RunEnd : Type 0 where
  finished : Result ℕ → RunEnd
  out_of_fuel : RunEnd

-- `DiscoveryService(concurrency=…)`
unfoldable pub check_concurrency : ℕ → Result (Unit {0})
check_concurrency concurrency =
    if leb 1 concurrency && leb concurrency 64
    then ok tt
    else raised (plain_error "discovery concurrency must be between 1 and 64")

-- range(page, page + n)
unfoldable pub range : ℕ → ℕ → List ℕ
range page zero = []
range page (suc n) = page ∷ range (suc page) n

-- `[item for page_result in meaningful_pages for item in page_result.items]`
unfoldable pub all_items : List DiscoveryPageSuccess → List DiscoveredEntity
all_items [] = []
all_items (p ∷ ps) = p.page_items ++ all_items ps

-- `min(self.concurrency, max_pages - pages_processed)`; the loop's test keeps the difference positive
abbrev pub window_size : ℕ → Option ℕ → ℕ → ℕ
window_size concurrency none processed = concurrency
window_size concurrency (some max_pages) processed = min concurrency (max_pages - processed)

-- `max_pages is None or pages_processed < max_pages`
abbrev pub goes_on : Option ℕ → ℕ → Bool
goes_on none processed = true
goes_on (some max_pages) processed = ltb processed max_pages

-- `terminal_page if terminal_page is not None else pages[-1] + 1`
abbrev pub next_page_of : Option ℕ → ℕ → ℕ → ℕ
next_page_of none page n = page + n
next_page_of (some t) page n = t

abbrev pub is_some {ℓ} : {A : Type ℓ} → Option A → Bool
is_some none = false
is_some (some a) = true

module _ (port : FrontierPort) (fetch : ℕ → PageResult) where
  open port use {State, enqueue, get_checkpoint, set_checkpoint}

  -- `await self.frontier.enqueue(items) if items else 0`
  pub enqueue_if_any : List DiscoveredEntity → State → Result ℕ × State
  enqueue_if_any [] s = (ok 0, s)
  enqueue_if_any (x ∷ xs) s = enqueue s (x ∷ xs)

  -- `if set_checkpoint: await set_checkpoint(…)`
  pub checkpoint_if_any : ℕ → Bool → State → Result (Unit {0}) × State
  checkpoint_if_any next_page completed s = elim set_checkpoint [
    | none ↦ (ok tt, s)
    | some set ↦ set s next_page completed
  ]

  -- The `async with self._persistence_lock` block: what was enqueued stays if the second call raises.
  unfoldable pub persist_window : List DiscoveredEntity → ℕ → Bool → State → Result ℕ × State
  unfolding enqueue_if_any checkpoint_if_any
  persist_window items next_page completed s =
      let (r, s') = enqueue_if_any items s in
      elim r [
        | raised e ↦ (raised e, s')
        | ok enqueued ↦
            let (c, s'') = checkpoint_if_any next_page completed s' in
            elim c [ raised e ↦ (raised e, s'') | ok _ ↦ (ok enqueued, s'') ]
      ]

  -- A window with no failure, of `n` pages from `page` on: the count of what was enqueued.
  unfoldable pub finish_window : DiscoveryWindowAnalysis → ℕ → ℕ → State → Result ℕ × State
  unfolding persist_window
  finish_window a page n s =
      persist_window (all_items a.meaningful_pages) (next_page_of a.terminal_page page n)
        (is_some a.terminal_page) s

  -- One window: fetched whole, classified, and persisted unless it failed.
  unfoldable pub run_window : ℕ → ℕ → State → Result (DiscoveryWindowAnalysis × ℕ) × State
  unfolding finish_window
  run_window page n s = elim (classify_discovery_window (range page n) (map fetch (range page n))) [
    | raised e ↦ (raised e, s)
    | ok a ↦ elim a.window_failure [
      | some e ↦ (raised e, s)
      | none ↦
          let (r, s') = finish_window a page n s in
          elim r [ raised e ↦ (raised e, s') | ok enqueued ↦ (ok (a, enqueued), s') ]
    ]
  ]

  unfoldable pub run_loop : ℕ → ℕ → Option ℕ → ℕ → ℕ → ℕ → State → RunEnd × State
  run_loop zero concurrency max_pages page processed total s = (out_of_fuel, s)
  run_loop (suc fuel) concurrency max_pages page processed total s =
      elim (goes_on max_pages processed) [
        | false ↦ (finished (ok total), s)
        | true ↦
            let n = window_size concurrency max_pages processed in
            let (r, s') = run_window page n s in
            elim r [
              | raised e ↦ (finished (raised e), s')
              | ok (a, enqueued) ↦ elim a.terminal_page [
                | some t ↦ (finished (ok (total + enqueued)), s')
                | none ↦
                    run_loop fuel concurrency max_pages (page + n) (processed + n)
                      (total + enqueued) s'
              ]
            ]
      ]

  -- `start_page or 1`
  abbrev first_page : Option ℕ → ℕ
  first_page none = 1
  first_page (some zero) = 1
  first_page (some (suc p)) = suc p

  -- The page to begin with and whether the catalogue is done, from the checkpoint where there is one.
  unfoldable pub start_of : Option ℕ → Bool → State → Result (ℕ × Bool)
  start_of (some p) resume s = ok (first_page (some p), false)
  start_of none false s = ok (1, false)
  start_of none true s = elim get_checkpoint [ none ↦ ok (1, false) | some get ↦ get s ]

  unfoldable pub run : ℕ → ℕ → Option ℕ → Option ℕ → Bool → State → RunEnd × State
  unfolding run_loop start_of
  run fuel concurrency start_page max_pages resume s = elim (start_of start_page resume s) [
    | raised e ↦ (finished (raised e), s)
    | ok (page, completed) ↦
        if completed then (finished (ok 0), s) else run_loop fuel concurrency max_pages page 0 0 s
  ]
