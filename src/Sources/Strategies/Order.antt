-- ===== src/Sources/Strategies/Order.antt =====
-- Which strategies a request of infrastructure/sources/zakup_sk/strategies.py may use.
use govpars.Prelude.{
  String, ◌≡◌, refl, Bool, true, false, not, ◌&&◌, Option, none, some, arith, if◌then◌else◌, all,
}
use govpars.Domain.Errors.{Result, ok, raised}
use govpars.Sources.Strategies.{
  RequestProfile, ApiResponse, StrategyCall, direct_request, dom_request, browser_start,
  intercept_request, browser_fetch_request, Stack, Answers, Step, is_blocked, allow_source,
  allow_lane, respond, keep_profile, dom_stage, browser_request, captured_stage, escalate,
  is_browser_only, known_profile, request_with, request_locked, call, continue_with, ◌>>=◌, ◌>>◌,
}

-- No direct request has a browser-only profile, and the DOM is read on discovery pages only.
abbrev pub is_allowed : Bool → StrategyCall → Bool
is_allowed d (direct_request p) = not (is_browser_only p)
is_allowed d dom_request = d
is_allowed d _ = true

-- A stage that makes allowed requests only.
record KeepsAllowed (d : Bool) (m : Step ApiResponse) : Type 0 where
  keeps : (s : Stack) → all (is_allowed d) s.calls ≡ true → all (is_allowed d) (m s).1.calls ≡ true

call-KeepsAllowed :
    {A : Type 0} (d : Bool) (c : StrategyCall) (r : Result A) (f : A → Step ApiResponse)
    → is_allowed d c ≡ true
    → ((x : A) → KeepsAllowed d (f x))
    → KeepsAllowed d (call c r >>= f)
call-KeepsAllowed d c (ok x) f allowed keep = record {
  keeps = λ s h. (keep x).keeps _ (ground arith);
}
call-KeepsAllowed d c (raised e) f allowed keep = record { keeps = λ s h. ground arith }

keep_profile-KeepsAllowed :
    (d : Bool) (key : String) (p : Option RequestProfile) (m : Step ApiResponse)
    → KeepsAllowed d m
    → KeepsAllowed d (keep_profile key p >> m)
unfolding keep_profile
keep_profile-KeepsAllowed d key none m keep = record { keeps = λ s h. keep.keeps s h }
keep_profile-KeepsAllowed d key (some p) m keep = record { keeps = λ s h. keep.keeps _ h }

if-KeepsAllowed :
    (d b : Bool) (m n : Step ApiResponse)
    → (b ≡ true → KeepsAllowed d m)
    → (b ≡ false → KeepsAllowed d n)
    → KeepsAllowed d (if b then m else n)
if-KeepsAllowed d true m n h k = h refl
if-KeepsAllowed d false m n h k = k refl

respond-KeepsAllowed : (a : Answers) (d : Bool) (r : ApiResponse) → KeepsAllowed d (respond a r)
unfolding respond
respond-KeepsAllowed a d r = record { keeps = λ s h. h }

dom_stage-KeepsAllowed :
    (a : Answers) (d : Bool) (r : ApiResponse) → KeepsAllowed d (dom_stage a d r)
unfolding dom_stage
dom_stage-KeepsAllowed a d r =
    if-KeepsAllowed d (is_blocked r && d) _ _
      (λ y. call-KeepsAllowed d dom_request _ _ (ground arith) (respond-KeepsAllowed a d))
      (λ n. respond-KeepsAllowed a d r)

browser_request-KeepsAllowed :
    (a : Answers) (d : Bool) (p : Option RequestProfile) → KeepsAllowed d (browser_request a d p)
unfolding browser_request
browser_request-KeepsAllowed a d p = call-KeepsAllowed d (browser_fetch_request p) _ _ refl (λ r.
    if-KeepsAllowed d (is_blocked r) _ _
      (λ y. call-KeepsAllowed d (intercept_request p) _ _ refl (dom_stage-KeepsAllowed a d))
      (λ n. dom_stage-KeepsAllowed a d r))

-- A direct request, with the browser as the next resort.
direct_stage-KeepsAllowed :
    (a : Answers) (d : Bool) (p : Option RequestProfile) (r : Result ApiResponse)
    (next : Step ApiResponse)
    → is_browser_only p ≡ false
    → KeepsAllowed d next
    → KeepsAllowed d (call (direct_request p) r >>= λ x. if is_blocked x then next else respond a x)
direct_stage-KeepsAllowed a d p r next b keeps =
    call-KeepsAllowed d (direct_request p) r _ (ground arith)
      (λ x. if-KeepsAllowed d (is_blocked x) _ _ (λ y. keeps) (λ n. respond-KeepsAllowed a d x))

captured_stage-KeepsAllowed :
    (a : Answers) (key : String) (d : Bool) (p : Option RequestProfile)
    → KeepsAllowed d (captured_stage a key d p)
unfolding captured_stage
captured_stage-KeepsAllowed a key d none =
    call-KeepsAllowed d (intercept_request none) _ _ refl (λ r.
      keep_profile-KeepsAllowed d key a.captured_later _ (
        if-KeepsAllowed d (is_blocked r) _ _
          (λ y. browser_request-KeepsAllowed a d a.captured_later)
          (λ n. respond-KeepsAllowed a d r)))
captured_stage-KeepsAllowed a key d (some p) = keep_profile-KeepsAllowed d key (some p) _ (
    if-KeepsAllowed d p.browser_only _ _ (λ y. browser_request-KeepsAllowed a d (some p))
      (λ n.
        direct_stage-KeepsAllowed a d (some p) a.direct_again _ n
          (browser_request-KeepsAllowed a d (some p))))

request_with-KeepsAllowed :
    (a : Answers) (key : String) (d : Bool) (p : Option RequestProfile)
    → KeepsAllowed d (request_with a key d p)
unfolding request_with escalate
request_with-KeepsAllowed a key d p = keep_profile-KeepsAllowed d key p _ (
    if-KeepsAllowed d (is_browser_only p) _ _
      (λ y. call-KeepsAllowed d (intercept_request p) _ _ refl (respond-KeepsAllowed a d))
      (λ n. direct_stage-KeepsAllowed a d p a.direct _ n (
        call-KeepsAllowed d browser_start _ _ refl
          (λ _. captured_stage-KeepsAllowed a key d a.captured))))

-- What follows the breakers' answers.
with_lane-KeepsAllowed :
    (a : Answers) (key : String) (d : Bool) (r : Result (Unit {0})) (u : Stack)
    → all (is_allowed d) u.calls ≡ true
    → all
        (is_allowed d)
        (continue_with (r, u) (λ _ s. request_with a key d (known_profile a key s) s)).1.calls
      ≡ true
with_lane-KeepsAllowed a key d (ok _) u h =
    (request_with-KeepsAllowed a key d (known_profile a key u)).keeps u h
with_lane-KeepsAllowed a key d (raised e) u h = h

with_source-KeepsAllowed :
    (a : Answers) (key : String) (d : Bool) (r : Result (Unit {0})) (u : Stack)
    → all (is_allowed d) u.calls ≡ true
    → all
        (is_allowed d)
        (continue_with
          (r, u)
          (λ _. allow_lane a >> λ s. request_with a key d (known_profile a key s) s)).1.calls
      ≡ true
unfolding allow_lane
with_source-KeepsAllowed a key d (ok _) u h =
    with_lane-KeepsAllowed a key d (allow_lane a u).0 (allow_lane a u).1 h
with_source-KeepsAllowed a key d (raised e) u h = h

-- A request keeps the calls of the stack allowed, whatever the browser and the strategies give: no
-- direct request is made with a profile that works in the browser only, and the DOM is read in a
-- request for a discovery page only.
pub request_locked-KeepsAllowed :
    (a : Answers) (key : String) (d : Bool) (s : Stack)
    → all (is_allowed d) s.calls ≡ true
    → all (is_allowed d) (request_locked a key d s).1.calls ≡ true
unfolding request_locked
request_locked-KeepsAllowed a key d s h =
    with_source-KeepsAllowed a key d (allow_source a s).0 (allow_source a s).1 h
