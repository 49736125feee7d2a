-- ===== src/Pipeline/Discovery/Pages.antt =====
-- The windows of the discovery loop of application/pipeline.py over a catalogue whose pages are good
-- (not empty, and not failed) up to a first page that is not.
use govpars.Prelude.{
  ℕ, zero, suc, ◌+◌, ◌-◌, ◌≤◌, ◌<◌, ◌≡◌, refl, ap, List, [], ◌∷◌, ◌++◌, map, append_assoc, arith,
}
use govpars.Domain.Models.{DiscoveredEntity}
use govpars.Pipeline.Window.{
  PageResult, items, failure, Window, pages_of, results_of, good_prefix, rest_of,
}
use govpars.Pipeline.Discovery.{range, all_items}

abbrev pub IsGood : PageResult → Type 0
IsGood (items (x ∷ xs)) = Unit {0}
IsGood (items []) = ⊥
IsGood (failure e) = ⊥

abbrev pub items_of : PageResult → List DiscoveredEntity
items_of (items xs) = xs
items_of (failure e) = []

stops_here :
    (p : ℕ) (r : PageResult) (w : Window)
    → (IsGood r → ⊥)
    → (good_prefix ((p, r) ∷ w) ≡ []) × (rest_of ((p, r) ∷ w) ≡ (p, r) ∷ w)
unfolding good_prefix rest_of
stops_here p (items []) w bad = (refl, refl)
stops_here p (items (x ∷ xs)) w bad = absurd (bad tt)
stops_here p (failure e) w bad = (refl, refl)

passes_here :
    (p : ℕ) (r : PageResult) (w : Window)
    → IsGood r
    → (good_prefix ((p, r) ∷ w) ≡ record { page = p; page_items = items_of r } ∷ good_prefix w)
      × (rest_of ((p, r) ∷ w) ≡ rest_of w)
unfolding good_prefix rest_of
passes_here p (items []) w g = absurd g
passes_here p (items (x ∷ xs)) w g = (refl, refl)
passes_here p (failure e) w g = absurd g

module _ (fetch : ℕ → PageResult) where
  -- The `k` pages from `p` on are good.
  abbrev pub GoodPages : ℕ → ℕ → Type 0
  GoodPages p zero = Unit {0}
  GoodPages p (suc k) = IsGood (fetch p) × GoodPages (suc p) k

  -- The items of the `k` pages from `p` on, in order.
  unfoldable pub page_items : ℕ → ℕ → List DiscoveredEntity
  page_items p zero = []
  page_items p (suc k) = items_of (fetch p) ++ page_items (suc p) k

  unfoldable pub window_at : ℕ → ℕ → Window
  window_at p zero = []
  window_at p (suc n) = (p, fetch p) ∷ window_at (suc p) n

  pub pages_of-window_at : (p n : ℕ) → pages_of (window_at p n) ≡ range p n
  unfolding window_at range
  pages_of-window_at p zero = refl
  pages_of-window_at p (suc n) = ap (λ l. p ∷ l) (pages_of-window_at (suc p) n)

  pub results_of-window_at : (p n : ℕ) → results_of (window_at p n) ≡ map fetch (range p n)
  unfolding window_at range
  results_of-window_at p zero = refl
  results_of-window_at p (suc n) = ap (λ l. fetch p ∷ l) (results_of-window_at (suc p) n)

  pub GoodPages-take : (p k m : ℕ) → m ≤ k → GoodPages p k → GoodPages p m
  GoodPages-take p k zero h g = tt
  GoodPages-take p zero (suc m) h g = absurd (omega arith)
  GoodPages-take p (suc k) (suc m) h g = (g.0, GoodPages-take (suc p) k m (omega arith) g.1)

  pub GoodPages-drop : (p k m q : ℕ) → p + m ≡ q → m ≤ k → GoodPages p k → GoodPages q (k - m)
  GoodPages-drop p k zero q e h g =
      let e' : p ≡ q = omega arith in let z : k - 0 ≡ k = omega arith in rw (z, ← e') g
  GoodPages-drop p zero (suc m) q e h g = absurd (omega arith)
  GoodPages-drop p (suc k) (suc m) q e h g =
      let z : suc k - suc m ≡ k - m = omega arith in
      rw z (GoodPages-drop (suc p) k m q (omega arith) (omega arith) g.1)

  pub page_items-append :
      (p m k q n : ℕ) → p + m ≡ q → m + k ≡ n → page_items p n ≡ page_items p m ++ page_items q k
  unfolding page_items
  page_items-append p zero k q n e f =
      let e' : p ≡ q = omega arith in let f' : k ≡ n = omega arith in rw (e', f')
  page_items-append p (suc m) k q zero e f = absurd (omega arith)
  page_items-append p (suc m) k q (suc n) e f =
      rw (page_items-append (suc p) m k q n (omega arith) (omega arith), append_assoc)

  -- A window of good pages alone.
  pub window_good :
      (p n : ℕ)
      → GoodPages p n
      → (all_items (good_prefix (window_at p n)) ≡ page_items p n) × (rest_of (window_at p n) ≡ [])
  unfolding all_items good_prefix rest_of window_at page_items
  window_good p zero g = (refl, refl)
  window_good p (suc n) g = ground (arith, window_good (suc p) n g.1)

  -- A window with good pages up to the page `t`, which is not good.
  pub window_stops :
      (p n k t : ℕ)
      → GoodPages p k
      → p + k ≡ t
      → k < n
      → (IsGood (fetch t) → ⊥)
      → (all_items (good_prefix (window_at p n)) ≡ page_items p k)
        × (rest_of (window_at p n) ≡ (t, fetch t) ∷ window_at (suc t) (n - suc k))
  unfolding all_items window_at page_items
  window_stops p zero k t g e h bad = absurd (omega arith)
  window_stops p (suc n) zero t g e h bad =
      let e' : t ≡ p = omega arith in
      let z : suc n - 1 ≡ n = omega arith in
      let (none_good, here) = stops_here p (fetch p) (window_at (suc p) n) (rw e' at bad) in
      rw (e', z, none_good, here) (refl, refl)
  window_stops p (suc n) (suc k) t g e h bad =
      let z : suc n - suc (suc k) ≡ n - suc k = omega arith in
      let (one_good, later) = passes_here p (fetch p) (window_at (suc p) n) g.0 in
      let (same, rest) = window_stops (suc p) n k t g.1 (omega arith) (omega arith) bad in
      rw (one_good, later, z) (ap (λ l. items_of (fetch p) ++ l) same, rest)
