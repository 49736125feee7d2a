-- ===== src/Sources/Strategies/Tells.antt =====
-- What the stages of a request in infrastructure/sources/zakup_sk/strategies.py do with the breakers.
use govpars.Prelude.{
  String, ◌≡◌, refl, ap, ◌∙◌, Bool, true, false, ◌&&◌, Option, none, some, if◌then◌else◌,
}
use govpars.Domain.Errors.{Result, ok, raised}
use govpars.Sources.Strategies.{
  RequestProfile, ApiResponse, StrategyCall, Stack, Answers, Step, is_blocked, told, respond,
  keep_profile, dom_stage, browser_request, with_captured, without_captured, captured_stage,
  escalate, is_browser_only, request_with, call, continue_with, ◌>>=◌, ◌>>◌,
}

-- How a stage may leave the breakers: as they were if it raises, and told of the response otherwise.
abbrev pub Tells : Answers → Stack → Result ApiResponse × Stack → Type 0
Tells a s (ok r, s') =
    (s'.lane_breaker ≡ told a.lane_told r s.lane_breaker)
    × (s'.source_breaker ≡ told a.source_told r s.source_breaker)
Tells a s (raised e, s') =
    (s'.lane_breaker ≡ s.lane_breaker) × (s'.source_breaker ≡ s.source_breaker)

-- The breakers are those of `s`.
abbrev SameBreakers : Stack → Stack → Type 0
SameBreakers s u = (u.lane_breaker ≡ s.lane_breaker) × (u.source_breaker ≡ s.source_breaker)

Tells-same :
    (a : Answers) (s u : Stack) (e : Result ApiResponse × Stack)
    → SameBreakers s u
    → Tells a u e
    → Tells a s e
Tells-same a s u (ok r, v) (l, m) (h, k) =
    (h ∙ ap (told a.lane_told r) l, k ∙ ap (told a.source_told r) m)
Tells-same a s u (raised x, v) (l, m) (h, k) = (h ∙ l, k ∙ m)

-- A stage that does so from every state.
abbrev AlwaysTells : Answers → Step ApiResponse → Type 0
AlwaysTells a m = (s : Stack) → Tells a s (m s)

-- A stage after a step that leaves the breakers as they are.
continue-Tells :
    {A : Type 0} (a : Answers) (r : Result A) (u : Stack) (f : A → Step ApiResponse) (s : Stack)
    → SameBreakers s u
    → ((x : A) → AlwaysTells a (f x))
    → Tells a s (continue_with (r, u) f)
continue-Tells a (ok x) u f s same tells = Tells-same a s u (f x u) same (tells x u)
continue-Tells a (raised e) u f s same tells = same

call-Tells :
    {A : Type 0} (a : Answers) (c : StrategyCall) (r : Result A) (f : A → Step ApiResponse)
    → ((x : A) → AlwaysTells a (f x))
    → AlwaysTells a (call c r >>= f)
call-Tells a c r f tells s = continue-Tells a r _ f s (refl, refl) tells

keep_profile-Tells :
    (a : Answers) (key : String) (p : Option RequestProfile) (m : Step ApiResponse)
    → AlwaysTells a m
    → AlwaysTells a (keep_profile key p >> m)
unfolding keep_profile
keep_profile-Tells a key none m tells s = tells s
keep_profile-Tells a key (some p) m tells s =
    continue-Tells a (ok tt) _ (λ _. m) s (refl, refl) (λ _. tells)

if-Tells :
    (a : Answers) (b : Bool) (m n : Step ApiResponse)
    → AlwaysTells a m
    → AlwaysTells a n
    → AlwaysTells a (if b then m else n)
if-Tells a true m n h k = h
if-Tells a false m n h k = k

respond-Tells : (a : Answers) (r : ApiResponse) → AlwaysTells a (respond a r)
unfolding respond
respond-Tells a r s = (refl, refl)

dom_stage-Tells : (a : Answers) (d : Bool) (r : ApiResponse) → AlwaysTells a (dom_stage a d r)
unfolding dom_stage
dom_stage-Tells a d r =
    if-Tells a (is_blocked r && d) _ _ (call-Tells a _ _ _ (respond-Tells a)) (respond-Tells a r)

browser_request-Tells :
    (a : Answers) (d : Bool) (p : Option RequestProfile) → AlwaysTells a (browser_request a d p)
unfolding browser_request
browser_request-Tells a d p = call-Tells a _ _ _ (λ r.
    if-Tells a (is_blocked r) _ _ (call-Tells a _ _ _ (dom_stage-Tells a d))
      (dom_stage-Tells a d r))

with_captured-Tells :
    (a : Answers) (key : String) (d : Bool) (p : RequestProfile)
    → AlwaysTells a (with_captured a key d p)
unfolding with_captured
with_captured-Tells a key d p = keep_profile-Tells a key (some p) _ (
    if-Tells a p.browser_only _ _ (browser_request-Tells a d (some p)) (
      call-Tells a _ _ _ (λ r.
        if-Tells a (is_blocked r) _ _ (browser_request-Tells a d (some p)) (respond-Tells a r))))

without_captured-Tells :
    (a : Answers) (key : String) (d : Bool) → AlwaysTells a (without_captured a key d)
unfolding without_captured
without_captured-Tells a key d = call-Tells a _ _ _ (λ r.
    keep_profile-Tells a key a.captured_later _ (
      if-Tells a (is_blocked r) _ _ (browser_request-Tells a d a.captured_later)
        (respond-Tells a r)))

captured_stage-Tells :
    (a : Answers) (key : String) (d : Bool) (p : Option RequestProfile)
    → AlwaysTells a (captured_stage a key d p)
unfolding captured_stage
captured_stage-Tells a key d none = without_captured-Tells a key d
captured_stage-Tells a key d (some p) = with_captured-Tells a key d p

pub request_with-Tells :
    (a : Answers) (key : String) (d : Bool) (p : Option RequestProfile)
    → AlwaysTells a (request_with a key d p)
unfolding request_with escalate
request_with-Tells a key d p = keep_profile-Tells a key p _ (
    if-Tells a (is_browser_only p) _ _ (call-Tells a _ _ _ (respond-Tells a)) (
      call-Tells a _ _ _ (λ r.
        if-Tells a (is_blocked r) _ _
          (call-Tells a _ _ _ (λ _. captured_stage-Tells a key d a.captured)) (respond-Tells a r))))
