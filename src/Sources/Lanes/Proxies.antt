-- ===== src/Sources/Lanes/Proxies.antt =====
-- The proxies of the lanes under `_replace_lane` of infrastructure/sources/eep_mitwork/client.py.
use govpars.Prelude.{
  ℕ, zero, suc, ◌+◌, String, ◌≡◌, refl, ap, Bool, true, false, not, ◌&&◌, Option, none, some, List,
  [], ◌∷◌, map, arith, str_eq, eq_iff, set, any,
}
use govpars.Domain.Errors.{Result, ok, raised}
use govpars.Network.ProxyPool.{ProxyPoolCursor, next, is_excluded}
use govpars.Network.ProxyPool.Excluded.{next-is_excluded}
use govpars.Sources.Lanes.{
  EepHttpLane, EepHttpClient, build_lane, active_proxies, install, use_next, failed_pool,
  replace_from_pool, replace_lane,
}

-- No two lanes have one proxy.
abbrev proxy_is : String → EepHttpLane → Bool
proxy_is url l = str_eq l.proxy_url url

abbrev pub distinct_proxies : List EepHttpLane → Bool
distinct_proxies [] = true
distinct_proxies (l ∷ ls) = not (any (proxy_is l.proxy_url) ls) && distinct_proxies ls

any-map :
    (url : String) (ls : List EepHttpLane)
    → is_excluded (map (λ (x : EepHttpLane). x.proxy_url) ls) url ≡ any (proxy_is url) ls
any-map url [] = refl
any-map url (l ∷ ls) = ground (arith, any-map url ls)

any-set :
    (p : EepHttpLane → Bool) (ls : List EepHttpLane) (index : ℕ) (v : EepHttpLane)
    → p v ≡ false
    → any p ls ≡ false
    → any p (set ls index v) ≡ false
any-set p [] index v h k = refl
any-set p (l ∷ ls) zero v h k = ground arith
any-set p (l ∷ ls) (suc index) v h k = ground (arith, any-set p ls index v h)

set-distinct :
    (ls : List EepHttpLane) (index : ℕ) (v : EepHttpLane)
    → distinct_proxies ls ≡ true
    → is_excluded (active_proxies ls index) v.proxy_url ≡ false
    → distinct_proxies (set ls index v) ≡ true
unfolding active_proxies
set-distinct [] index v h k = refl
set-distinct (l ∷ ls) zero v h k = ground (arith, any-map v.proxy_url ls)
set-distinct (l ∷ ls) (suc index) v h k = ground (
  arith,
  set-distinct ls index v,
  any-set (proxy_is l.proxy_url) ls index v,
  eq_iff v.proxy_url l.proxy_url,
  eq_iff l.proxy_url v.proxy_url,
)

install-distinct :
    (c : EepHttpClient) (index : ℕ) (lane : EepHttpLane) (url : String)
    → distinct_proxies c.lanes ≡ true
    → is_excluded (active_proxies c.lanes index) url ≡ false
    → distinct_proxies (install c index lane url).1.lanes ≡ true
unfolding install build_lane
install-distinct c index lane url h k =
    ground (arith, set-distinct c.lanes index (build_lane c url (lane.generation + 1)) h k)

use_next-distinct :
    (c : EepHttpClient) (index : ℕ) (lane : EepHttpLane) (r : Result (Option String))
    → distinct_proxies c.lanes ≡ true
    → ((url : String) → r ≡ ok (some url) → is_excluded (active_proxies c.lanes index) url ≡ false)
    → distinct_proxies (use_next c index lane r).1.lanes ≡ true
unfolding use_next
use_next-distinct c index lane (raised e) h fresh = h
use_next-distinct c index lane (ok none) h fresh = h
use_next-distinct c index lane (ok (some url)) h fresh =
    install-distinct c index lane url h (fresh url refl)

excluded_active :
    (url new : String) (active : List String)
    → is_excluded (url ∷ active) new ≡ false
    → is_excluded active new ≡ false
excluded_active url new active h = ground arith

replace_from_pool-distinct :
    (c : EepHttpClient) (pool : ProxyPoolCursor) (now index : ℕ) (lane : EepHttpLane)
    (failed : Bool)
    → distinct_proxies c.lanes ≡ true
    → distinct_proxies (replace_from_pool c pool now index lane failed).1.lanes ≡ true
unfolding replace_from_pool
replace_from_pool-distinct c pool now index lane failed h =
    let active = active_proxies c.lanes index in
    let n = next (failed_pool pool now lane.proxy_url failed) now (lane.proxy_url ∷ active) in
    use_next-distinct (record c { proxy_pool = some n.1 }) index lane n.0 h
      (λ url e.
        excluded_active lane.proxy_url url active
          (next-is_excluded _ n.1 now (lane.proxy_url ∷ active) url (ap (λ r. (r, n.1)) e)))

-- `_replace_lane` with a pool of proxies keeps the proxies of the lanes distinct, whether or not the
-- lane has been replaced before, and whatever the pool still has to give.
pub replace_lane-distinct :
    (c : EepHttpClient) (pool : ProxyPoolCursor) (now index : ℕ) (lane : EepHttpLane)
    (failed : Bool) (rotation : Result (Unit {0}))
    → c.proxy_pool ≡ some pool
    → distinct_proxies c.lanes ≡ true
    → distinct_proxies (replace_lane c now index lane failed rotation).1.lanes ≡ true
unfolding replace_lane
replace_lane-distinct c pool now index lane failed rotation e h =
    let r = replace_from_pool-distinct c pool now index lane failed h in ground arith
