-- ===== src/Domain/Errors.antt =====
-- domain/errors.py, with the exceptions that cross the components as values. A function that may
-- raise returns a `Result`; one that also mutates an object returns the object beside it.
use govpars.Prelude.{
  ℕ, String, ◌≡◌, refl, ◌⊎◌, inl, inr, Bool, false, ◌||◌, Option, none, some, arith, ◌==◌,
}

-- The fields of a `RetriableSourceError`.
pub record SourceFailure : Type 0 where
  pub message : String
  pub delay_seconds : ℕ
  pub strategy : String
  pub http_status : Option ℕ

-- Any other `Exception`: `repr(exc)`, and what `getattr` finds of `exc.response.status_code` and
-- of `exc.strategy`.
pub record Failure : Type 0 where
  pub repr : String
  pub response_status : Option ℕ
  pub strategy_attribute : Option String

pub data Exc : Type 0 where
  retriable : SourceFailure → Exc
  lease_lost : String → Exc
  cancelled : Exc
  other : Failure → Exc

pub data Result {ℓ} (A : Type ℓ) : Type ℓ where
  ok : A → Result A
  raised : Exc → Result A

infixl 10 ◌>>=◌ ◌>>◌
abbrev pub ◌>>=◌ {ℓ κ} : {A : Type ℓ} {B : Type κ} → Result A → (A → Result B) → Result B
ok a >>= f = f a
raised e >>= f = raised e

abbrev pub ◌>>◌ {ℓ} : {B : Type ℓ} → Result (Unit {0}) → Result B → Result B
m >> k = m >>= λ _. k

-- `ValueError(message)`, `OverflowError(message)` and the like: no response, no strategy.
abbrev pub plain_error : String → Exc
plain_error message =
    other (record { repr = message; response_status = none; strategy_attribute = none })

unfoldable pub circuit_open_error : String → Exc
circuit_open_error message = retriable (record {
  message = message;
  delay_seconds = 600;
  strategy = "circuit-breaker";
  http_status = none;
})

unfoldable pub is_permanent_http_status : Option ℕ → Bool
is_permanent_http_status none = false
is_permanent_http_status (some status) = status == 404 || status == 410

pub Result-cases {ℓ} :
    {A : Type ℓ} (r : Result A) → ((a : A) × (r ≡ ok a)) ⊎ ((e : Exc) × (r ≡ raised e))
Result-cases (ok a) = inl (a, refl)
Result-cases (raised e) = inr (e, refl)

-- Where a chain succeeds, its first part did.
pub >>=-ok {ℓ κ} :
    {A : Type ℓ} {B : Type κ} (m : Result A) (f : A → Result B) (b : B)
    → (m >>= f) ≡ ok b
    → (a : A) × (m ≡ ok a) × (f a ≡ ok b)
>>=-ok (ok a) f b h = (a, refl, h)
>>=-ok (raised e) f b h = absurd (ground arith)
