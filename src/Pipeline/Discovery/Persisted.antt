-- ===== src/Pipeline/Discovery/Persisted.antt =====
-- What one window of the discovery loop of application/pipeline.py leaves in a frontier that keeps
-- the items in order.
use govpars.Prelude.{
  ℕ, suc, ◌+◌, ◌-◌, ◌<◌, ◌≡◌, refl, sym, ap, ◌∙◌, Bool, true, false, none, some, List, [], ◌∷◌,
  ◌++◌, map, append-nil, arith,
}
use mathlib.Core.Path.{ap₂}
use govpars.Domain.Errors.{Exc, ok, raised}
use govpars.Domain.Models.{DiscoveredEntity}
use govpars.Pipeline.Window.{
  PageResult, items, failure, DiscoveryWindowAnalysis, classify_discovery_window, good_prefix,
  rest_of, analysis_from, classify_discovery_window_lem,
}
use govpars.Pipeline.Discovery.{
  FrontierPort, range, all_items, run_window, finish_window, persist_window, checkpoint_if_any,
}
use govpars.Pipeline.Discovery.Pages.{
  IsGood, GoodPages, page_items, window_at, pages_of-window_at, results_of-window_at, window_good,
  window_stops,
}

-- A frontier whose calls succeed, which keeps the items in the order of the calls, and the last
-- checkpoint.
pub record KeepsOrder (port : FrontierPort) : Type 0 where
  pub queued : port.State → List DiscoveredEntity
  pub checkpoint : port.State → ℕ × Bool
  pub counted : port.State → List DiscoveredEntity → ℕ
  pub stored : port.State → List DiscoveredEntity → port.State
  pub marked : port.State → ℕ → Bool → port.State
  pub enqueue_lem :
      (s : port.State) (xs : List DiscoveredEntity)
      → port.enqueue s xs ≡ (ok (counted s xs), stored s xs)
  pub set_checkpoint_lem : port.set_checkpoint ≡ some (λ s p c. (ok tt, marked s p c))
  pub queued-stored :
      (s : port.State) (xs : List DiscoveredEntity) → queued (stored s xs) ≡ queued s ++ xs
  pub queued-marked : (s : port.State) (p : ℕ) (c : Bool) → queued (marked s p c) ≡ queued s
  pub checkpoint-marked : (s : port.State) (p : ℕ) (c : Bool) → checkpoint (marked s p c) ≡ (p, c)

module _ (port : FrontierPort) (fetch : ℕ → PageResult) (keeps : KeepsOrder port) where
  open port use {State}
  open keeps use {queued, checkpoint, counted, stored, marked}

  abbrev counted_if_any : State → List DiscoveredEntity → ℕ
  counted_if_any s [] = 0
  counted_if_any s (x ∷ xs) = counted s (x ∷ xs)

  abbrev stored_if_any : State → List DiscoveredEntity → State
  stored_if_any s [] = s
  stored_if_any s (x ∷ xs) = stored s (x ∷ xs)

  persist_window_lem :
      (xs : List DiscoveredEntity) (next : ℕ) (completed : Bool) (s : State)
      → persist_window port fetch xs next completed s
        ≡ (ok (counted_if_any s xs), marked (stored_if_any s xs) next completed)
  unfolding persist_window
  persist_window_lem [] next completed s = rw (keeps.set_checkpoint_lem, checkpoint_if_any)
  persist_window_lem (x ∷ xs) next completed s =
      ground (arith, keeps.enqueue_lem s (x ∷ xs), keeps.set_checkpoint_lem)

  queued_if_any :
      (s : State) (xs : List DiscoveredEntity) → queued (stored_if_any s xs) ≡ queued s ++ xs
  queued_if_any s [] = sym (append-nil (queued s))
  queued_if_any s (x ∷ xs) = keeps.queued-stored s (x ∷ xs)

  -- The analysis of a window through its description.
  classify_window :
      (p n : ℕ)
      → classify_discovery_window (range p n) (map fetch (range p n))
        ≡ ok (analysis_from (good_prefix (window_at fetch p n)) (rest_of (window_at fetch p n)))
  classify_window p n =
      ap₂ classify_discovery_window (sym (pages_of-window_at fetch p n))
        (sym (results_of-window_at fetch p n))
      ∙ classify_discovery_window_lem (window_at fetch p n)

  -- What a window leaves that has no failure: its items, and a checkpoint.
  abbrev pub Leaves : State → State → List DiscoveredEntity → ℕ → Bool → Type 0
  Leaves s s' xs next completed = (queued s' ≡ queued s ++ xs) × (checkpoint s' ≡ (next, completed))

  Leaves-window :
      (s : State) (xs ys : List DiscoveredEntity) (next : ℕ) (completed : Bool)
      → xs ≡ ys
      → Leaves s (marked (stored_if_any s xs) next completed) ys next completed
  Leaves-window s xs ys next completed e = (
    keeps.queued-marked (stored_if_any s xs) next completed
        ∙ queued_if_any s xs
        ∙ ap (λ l. queued s ++ l) e,
    keeps.checkpoint-marked (stored_if_any s xs) next completed,
  )

  run_window_step :
      (p n m : ℕ) (s s' : State) (a : DiscoveryWindowAnalysis)
      → classify_discovery_window (range p n) (map fetch (range p n)) ≡ ok a
      → a.window_failure ≡ none
      → finish_window port fetch a p n s ≡ (ok m, s')
      → run_window port fetch p n s ≡ (ok (a, m), s')
  unfolding run_window
  run_window_step p n m s s' a c f h = ground arith

  run_window_raise :
      (p n : ℕ) (s : State) (a : DiscoveryWindowAnalysis) (e : Exc)
      → classify_discovery_window (range p n) (map fetch (range p n)) ≡ ok a
      → a.window_failure ≡ some e
      → run_window port fetch p n s ≡ (raised e, s)
  unfolding run_window
  run_window_raise p n s a e c f = ground arith

  -- A window of good pages.
  pub run_window_good :
      (p n : ℕ) (s : State)
      → GoodPages fetch p n
      → (a : DiscoveryWindowAnalysis) × (m : ℕ) × (s' : State) × (run_window port fetch p n s
          ≡ (ok (a, m), s'))
        × (a.terminal_page ≡ none)
        × Leaves s s' (page_items fetch p n) (p + n) false
  unfolding analysis_from finish_window
  run_window_good p n s g =
      let (same, rest) = window_good fetch p n g in
      let good = good_prefix (window_at fetch p n) in
      let a = analysis_from good [] in
      (
        a,
        counted_if_any s (all_items good),
        marked (stored_if_any s (all_items good)) (p + n) false,
        run_window_step p n _ s _ a (classify_window p n ∙ ap (λ w. ok (analysis_from good w)) rest)
            refl (persist_window_lem (all_items good) (p + n) false s),
        refl,
        Leaves-window s (all_items good) (page_items fetch p n) (p + n) false same,
      )

  -- A window that reaches the empty page `t`.
  pub run_window_stops :
      (p n k t : ℕ) (s : State)
      → GoodPages fetch p k
      → p + k ≡ t
      → k < n
      → fetch t ≡ items []
      → (a : DiscoveryWindowAnalysis) × (m : ℕ) × (s' : State) × (run_window port fetch p n s
          ≡ (ok (a, m), s'))
        × (a.terminal_page ≡ some t)
        × Leaves s s' (page_items fetch p k) t true
  unfolding analysis_from finish_window
  run_window_stops p n k t s g e h empty =
      let bad : IsGood (fetch t) → ⊥ = rw empty (λ x. x) in
      let (same, rest) = window_stops fetch p n k t g e h bad in
      let good = good_prefix (window_at fetch p n) in
      let later = window_at fetch (suc t) (n - suc k) in
      let a = analysis_from good ((t, items []) ∷ later) in
      (
        a,
        counted_if_any s (all_items good),
        marked (stored_if_any s (all_items good)) t true,
        run_window_step p n _ s _ a
            (classify_window p n
              ∙ ap (λ w. ok (analysis_from good w)) (rest ∙ ap (λ r. (t, r) ∷ later) empty))
            refl (persist_window_lem (all_items good) t true s),
        refl,
        Leaves-window s (all_items good) (page_items fetch p k) t true same,
      )

  -- A window that reaches the failed page `t`: nothing is written.
  pub run_window_fails :
      (p n k t : ℕ) (s : State) (e : Exc)
      → GoodPages fetch p k
      → p + k ≡ t
      → k < n
      → fetch t ≡ failure e
      → run_window port fetch p n s ≡ (raised e, s)
  unfolding analysis_from
  run_window_fails p n k t s x g e h failed =
      let bad : IsGood (fetch t) → ⊥ = rw failed (λ x. x) in
      let (same, rest) = window_stops fetch p n k t g e h bad in
      let good = good_prefix (window_at fetch p n) in
      let later = window_at fetch (suc t) (n - suc k) in
      run_window_raise p n s (analysis_from good ((t, failure x) ∷ later)) x
        (classify_window p n
          ∙ ap (λ w. ok (analysis_from good w)) (rest ∙ ap (λ r. (t, r) ∷ later) failed))
        refl
