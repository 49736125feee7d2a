-- ===== src/Pipeline/Discovery/Crawl.antt =====
-- What a run of the discovery loop of application/pipeline.py leaves in a frontier that keeps the
-- items in order, whatever the concurrency.
use govpars.Prelude.{
  ℕ, zero, suc, ◌+◌, ◌-◌, ◌≤◌, ◌<◌, ◌≡◌, refl, sym, ap, ◌∙◌, Bool, true, false, none, some, [],
  ◌++◌, append_assoc, append-nil, arith, ◌==◌, if◌then◌else◌,
}
use native.Mathlib.Decide.{dec_lt}
use govpars.Domain.Errors.{Exc, ok, raised}
use govpars.Pipeline.Window.{PageResult, items, failure, DiscoveryWindowAnalysis}
use govpars.Pipeline.Discovery.{FrontierPort, RunEnd, finished, run_window, run_loop, run}
use govpars.Pipeline.Discovery.Pages.{
  GoodPages, GoodPages-take, GoodPages-drop, page_items, page_items-append,
}
use govpars.Pipeline.Discovery.Persisted.{
  KeepsOrder, Leaves, run_window_good, run_window_stops, run_window_fails,
}

module _ (port : FrontierPort) (fetch : ℕ → PageResult) (keeps : KeepsOrder port) where
  open port use {State}
  open keeps use {queued, checkpoint}

  -- Two stretches of pages one after the other.
  Leaves-trans :
      (s u v : State) (p c k q : ℕ) (b : Bool) (next : ℕ)
      → p + c ≡ q
      → c ≤ k
      → Leaves port fetch keeps s u (page_items fetch p c) q false
      → Leaves port fetch keeps u v (page_items fetch q (k - c)) next b
      → Leaves port fetch keeps s v (page_items fetch p k) next b
  Leaves-trans s u v p c k q b next e h l m =
      let split = page_items-append fetch p c (k - c) q k e (omega arith) in
      (
        m.0
            ∙ ap (λ w. w ++ page_items fetch q (k - c)) l.0
            ∙ append_assoc (queued s) (page_items fetch p c) (page_items fetch q (k - c))
            ∙ ap (λ w. queued s ++ w) (sym split),
        m.1,
      )

  run_loop_step :
      (fuel c p n m total : ℕ) (s s' : State) (a : DiscoveryWindowAnalysis)
      → run_window port fetch p c s ≡ (ok (a, m), s')
      → a.terminal_page ≡ none
      → run_loop port fetch (suc fuel) c none p n total s
        ≡ run_loop port fetch fuel c none (p + c) (n + c) (total + m) s'
  unfolding run_loop
  run_loop_step fuel c p n m total s s' a h t = ground arith

  run_loop_end :
      (fuel c p n m total t : ℕ) (s s' : State) (a : DiscoveryWindowAnalysis)
      → run_window port fetch p c s ≡ (ok (a, m), s')
      → a.terminal_page ≡ some t
      → run_loop port fetch (suc fuel) c none p n total s ≡ (finished (ok (total + m)), s')
  unfolding run_loop
  run_loop_end fuel c p n m total t s s' a h e = ground arith

  run_loop_raise :
      (fuel c p n total : ℕ) (s s' : State) (e : Exc)
      → run_window port fetch p c s ≡ (raised e, s')
      → run_loop port fetch (suc fuel) c none p n total s ≡ (finished (raised e), s')
  unfolding run_loop
  run_loop_raise fuel c p n total s s' e h = ground arith

  -- How a run to the empty page `t` ends.
  abbrev pub Crawled : RunEnd × State → State → ℕ → ℕ → ℕ → Type 0
  Crawled r s p k t =
      (total : ℕ) × (r.0 ≡ finished (ok total))
      × Leaves port fetch keeps s r.1 (page_items fetch p k) t true

  run_loop-Crawled :
      (fuel c p n total k t : ℕ) (s : State)
      → 1 ≤ c
      → k < fuel
      → GoodPages fetch p k
      → p + k ≡ t
      → fetch t ≡ items []
      → Crawled (run_loop port fetch fuel c none p n total s) s p k t
  run_loop-Crawled zero c p n total k t s one h g e empty = absurd (omega arith)
  run_loop-Crawled (suc fuel) c p n total k t s one h g e empty = elim (dec_lt k c) [
    | yes last ↦
        let (a, m, s', r, term, leaves) =
          run_window_stops port fetch keeps p c k t s g e last empty in
        rw (run_loop_end fuel c p n m total t s s' a r term) (total + m, refl, leaves)
    | no more ↦
        let le : c ≤ k = omega arith in
        let (a, m, s', r, term, leaves) =
          run_window_good port fetch keeps p c s (GoodPages-take fetch p k c le g) in
        let (m', r', leaves') =
          run_loop-Crawled fuel c (p + c) (n + c) (total + m) (k - c) t s' one (omega arith)
            (GoodPages-drop fetch p k c (p + c) refl le g) (omega arith) empty in
        rw (run_loop_step fuel c p n m total s s' a r term)
          (m', r', Leaves-trans s s' _ p c k (p + c) true t refl le leaves leaves')
  ]

  -- How a run to the failed page `t` ends: `m` pages are persisted, in whole windows.
  abbrev pub Interrupted : RunEnd × State → State → ℕ → ℕ → ℕ → Exc → Type 0
  Interrupted r s p k c e =
      (m : ℕ) × (r.0 ≡ finished (raised e))
      × (m ≤ k)
      × (k < m + c)
      × (queued r.1 ≡ queued s ++ page_items fetch p m)
      × (checkpoint r.1 ≡ (if m == 0 then checkpoint s else (p + m, false)))

  Interrupted-extend :
      (r : RunEnd × State) (s u : State) (p k c q : ℕ) (e : Exc)
      → p + c ≡ q
      → 1 ≤ c
      → c ≤ k
      → Leaves port fetch keeps s u (page_items fetch p c) q false
      → Interrupted r u q (k - c) c e
      → Interrupted r s p k c e
  Interrupted-extend r s u p k c q e h one le l (m, f, a, b, i, d) =
      let split = page_items-append fetch p c m q (c + m) h refl in
      (
        c + m,
        f,
        omega arith,
        omega arith,
        i
            ∙ ap (λ w. w ++ page_items fetch q m) l.0
            ∙ append_assoc (queued s) (page_items fetch p c) (page_items fetch q m)
            ∙ ap (λ w. queued s ++ w) (sym split),
        d ∙ ground (arith, l.1),
      )

  run_loop-Interrupted :
      (fuel c p n total k t : ℕ) (s : State) (e : Exc)
      → 1 ≤ c
      → k < fuel
      → GoodPages fetch p k
      → p + k ≡ t
      → fetch t ≡ failure e
      → Interrupted (run_loop port fetch fuel c none p n total s) s p k c e
  run_loop-Interrupted zero c p n total k t s x one h g e failed = absurd (omega arith)
  run_loop-Interrupted (suc fuel) c p n total k t s x one h g e failed = elim (dec_lt k c) [
    | yes last ↦
        rw
          (run_loop_raise fuel c p n total s s x
            (run_window_fails port fetch keeps p c k t s x g e last failed))
          (
            0,
            refl,
            omega arith,
            omega arith,
            unfold page_items in sym (append-nil (queued s)),
            refl,
          )
    | no more ↦
        let le : c ≤ k = omega arith in
        let (a, m, s', r, term, leaves) =
          run_window_good port fetch keeps p c s (GoodPages-take fetch p k c le g) in
        let ih =
          run_loop-Interrupted fuel c (p + c) (n + c) (total + m) (k - c) t s' x one (omega arith)
            (GoodPages-drop fetch p k c (p + c) refl le g) (omega arith) failed in
        rw (run_loop_step fuel c p n m total s s' a r term)
          (Interrupted-extend _ s s' p k c (p + c) x refl one le leaves ih)
  ]

  -- An unbounded run from page `p` over a catalogue with `k` non-empty pages before its first empty
  -- page `t`, on a frontier that keeps the order, ends without an exception on more fuel than `k`.
  -- Whatever the concurrency is, and whatever the pages after `t` give, it enqueues exactly the items
  -- of those `k` pages, in order and once, and leaves a completed checkpoint at `t`.
  pub run-Crawled :
      (fuel c p k t : ℕ) (resume : Bool) (s : State)
      → 1 ≤ c
      → 1 ≤ p
      → k < fuel
      → GoodPages fetch p k
      → p + k ≡ t
      → fetch t ≡ items []
      → Crawled (run port fetch fuel c (some p) none resume s) s p k t
  unfolding run
  run-Crawled fuel c zero k t resume s one pos h g e empty = elim pos [ ]
  run-Crawled fuel c (suc p) k t resume s one pos h g e empty =
      run_loop-Crawled fuel c (suc p) 0 0 k t s one h g e empty

  -- An unbounded run from page `p` over a catalogue with `k` non-empty pages before its first page `t`
  -- that failed, on a frontier that keeps the order and on more fuel than `k`, raises that failure.
  -- What it has enqueued are the items of the first `m` pages, where `m` is at most `k` and less than
  -- one window short of it, and the checkpoint is the page after those, not completed, or as it was
  -- if there are none: no item of the failed window is enqueued, and none before the checkpoint is
  -- lost.
  pub run-Interrupted :
      (fuel c p k t : ℕ) (resume : Bool) (s : State) (e : Exc)
      → 1 ≤ c
      → 1 ≤ p
      → k < fuel
      → GoodPages fetch p k
      → p + k ≡ t
      → fetch t ≡ failure e
      → Interrupted (run port fetch fuel c (some p) none resume s) s p k c e
  unfolding run
  run-Interrupted fuel c zero k t resume s x one pos h g e failed = elim pos [ ]
  run-Interrupted fuel c (suc p) k t resume s x one pos h g e failed =
      run_loop-Interrupted fuel c (suc p) 0 0 k t s x one h g e failed
