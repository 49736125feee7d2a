-- ===== src/Examples/Network.antt =====
-- Concrete breakers and proxy pools for src/procurement_parser/infrastructure/network.
use govpars.Prelude.{
  ℕ, String, ◌≡◌, refl, ◌≢◌, true, false, none, some, List, [], ◌∷◌, arith, find?,
}
use govpars.Prelude.Dict.{get}
use govpars.Prelude.Walk.{walk}
use govpars.Domain.Errors.{ok}
use govpars.Network.CircuitBreaker
use govpars.Network.CircuitBreaker.Trips
use govpars.Network.CircuitBreaker.{
  CircuitBreaker, open_state, half_open, closed, is_open, BreakerState,
}
use govpars.Network.CircuitBreaker.Restore.{restore_lem}
use govpars.Network.CircuitBreaker.Trips.{
  Report, status, transport_failure, observe_all, trip_iff, operate, IsValid, operate-IsValid,
  reports, asks, restores,
}
use govpars.Network.ProxyPool
use govpars.Network.ProxyPool.Rotation
use govpars.Network.ProxyPool.{ProxyPoolCursor, is_excluded}
use govpars.Network.ProxyPool.Rotation.{
  is_usable, next-eq-find?, next-none, mark_failed_lem, new-IsValid,
}

abbrev fresh_breaker : CircuitBreaker
fresh_breaker = record {
  threshold = 2;
  cooldown = 600;
  blocked_statuses = 403 ∷ 418 ∷ 429 ∷ [];
  state = closed;
  consecutive_blocks = 0;
  opened_at = none;
  half_open_probe_active = false;
}

new_breaker : CircuitBreaker.new 2 600 none ≡ fresh_breaker
unfolding CircuitBreaker.new
new_breaker = refl

abbrev opened : CircuitBreaker
opened = record fresh_breaker { state = open_state; consecutive_blocks = 2; opened_at = some 1000 }

abbrev probing : CircuitBreaker
probing = record opened { state = half_open; half_open_probe_active = true }

abbrev two_failures : List (ℕ × Report)
two_failures = (990, status 429) ∷ (1000, transport_failure) ∷ []

opens : observe_all fresh_breaker two_failures ≡ opened
unfolding observe_all Trips.observe
opens = refl

trip_iff_example :
    (is_open (observe_all fresh_breaker two_failures).state ≡ true)
    × ((observe_all fresh_breaker two_failures).consecutive_blocks ≡ 2)
unfolding Trips.is_failure
trip_iff_example = trip_iff fresh_breaker two_failures refl refl (omega arith) (refl, (refl, tt))

opened-IsValid : IsValid opened
opened-IsValid = record {
  open_since = λ _ e. cc;
  closed_clean = λ e. cc;
  probe_half_open = λ e. cc;
}

operate-IsValid_example : IsValid (operate opened 1700 (restores "open" 4 (some 2400)))
operate-IsValid_example =
    operate-IsValid opened 1700 (restores "open" 4 (some 2400)) (λ _. (2400, refl, omega arith))
      opened-IsValid

half_opens : CircuitBreaker.allow opened 1600 ≡ (ok tt, probing)
unfolding CircuitBreaker.allow
half_opens = refl

reopens :
    CircuitBreaker.record_transport_failure probing 1700
    ≡ (true, record opened { consecutive_blocks = 3; opened_at = some 1700 })
unfolding CircuitBreaker.record_transport_failure
reopens = refl

restore_lem_example :
    let (r, b') =
      CircuitBreaker.restore fresh_breaker
        (CircuitBreaker.state_value open_state)
        2
        (CircuitBreaker.cooldown_until opened) in
    (r ≡ ok tt)
    × (b'.state ≡ open_state)
    × (b'.consecutive_blocks ≡ 2)
    × (b'.half_open_probe_active ≡ false)
    × (CircuitBreaker.is_available b' 1599 ≡ CircuitBreaker.is_available opened 1599)
    × (CircuitBreaker.cooldown_until b' ≡ CircuitBreaker.cooldown_until opened)
restore_lem_example = restore_lem opened fresh_breaker 1599 opened-IsValid refl

abbrev two_proxies : ProxyPoolCursor
two_proxies = record {
  urls = "a" ∷ "b" ∷ [];
  cursor = 1;
  cooldown_seconds = 600;
  cooldown_until = ("b", 700) ∷ [];
}

not_empty : ◌≢◌ {A = List String} ("a" ∷ "b" ∷ []) []
not_empty e = cc

two_proxies-IsValid : Rotation.IsValid two_proxies
two_proxies-IsValid = record { in_range = λ _. omega arith }

takes_the_other : (ProxyPool.next two_proxies 100 []).0 ≡ ok (some "a")
unfolding ProxyPool.next get
takes_the_other = refl

next-eq-find?_example :
    let (res, p') = ProxyPool.next two_proxies 100 [] in
    (res ≡ ok (find? (is_usable two_proxies 100 []) (walk two_proxies.urls two_proxies.cursor)))
    × (p' ≡ record two_proxies { cursor = p'.cursor })
    × Rotation.IsValid p'
next-eq-find?_example = next-eq-find? two_proxies 100 [] two_proxies-IsValid not_empty

none_left : (ProxyPool.next two_proxies 100 ("a" ∷ [])).0 ≡ ok none
unfolding ProxyPool.next get
none_left = refl

new-IsValid_example : Rotation.IsValid (ProxyPool.new ("a" ∷ "b" ∷ []) 5 600)
new-IsValid_example = new-IsValid ("a" ∷ "b" ∷ []) 5 600
