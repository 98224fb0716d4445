-- ===== src/Errors.antt =====
-- errors/public-error.ts: the errors that may leave the gateway, and the responses that carry them.
-- security/errors.ts: a `ValidationError` is a `GatewayError` that is not retryable.
use aws_mcp_gateway.Base.{ℕ, ◌≡◌, refl, ◌↔◌, ◌⊎◌, inl, inr, Bool, true, false, String, List, arith}
use aws_mcp_gateway.Js.{Value}

pub data GatewayErrorCode : Type 0 where
  unauthorized forbidden rate_limited configuration_error validation_error : GatewayErrorCode
  aws_request_failed not_found internal_error : GatewayErrorCode

pub record GatewayError : Type 0 where
  pub code : GatewayErrorCode
  pub message : String
  pub retryable : Bool

-- `new GatewayError(code, message)`: `retryable` is false by default
abbrev pub gateway_error : GatewayErrorCode → String → GatewayError
gateway_error code message = record { code = code; message = message; retryable = false }

abbrev pub retryable_error : GatewayErrorCode → String → GatewayError
retryable_error code message = record { code = code; message = message; retryable = true }

-- `new ValidationError("validation_error", message)`
abbrev pub invalid : String → GatewayError
invalid message = gateway_error validation_error message

-- What can be thrown: an error of the gateway's own, one that `ValidationError` marks, or any other.
pub data Result {ℓ} (A : Type ℓ) : Type ℓ where
  ok : A → Result A
  thrown : GatewayError → Result A

abbrev pub ◌>>=◌ {κ ℓ} : {B : Type κ} {A : Type ℓ} → Result B → (B → Result A) → Result A
thrown error >>= next = thrown error
ok value >>= next = next value

abbrev pub ◌>>◌ {ℓ} : {A : Type ℓ} → Result (Unit {0}) → Result A → Result A
check >> next = check >>= λ _. next

infixl 5 ◌>>◌ ◌>>=◌
pub thrown_ne_ok {ℓ} : {A : Type ℓ} {e : GatewayError} {a : A} → thrown e ≡ ok a → ⊥
thrown_ne_ok h = ground arith

pub ok-injective {ℓ} : {A : Type ℓ} {a b : A} → ok a ≡ ok b → a ≡ b
ok-injective h = ground arith

-- a check that is followed by its result
pub >>-eq-ok_iff {ℓ} :
    {A : Type ℓ} (m : Result (Unit {0})) (x y : A) → ((m >> ok x) ≡ ok y) ↔ ((m ≡ ok tt) × (y ≡ x))
>>-eq-ok_iff (ok _) x y = (λ h. (refl, ground arith), λ (_, e). rw e refl)
>>-eq-ok_iff (thrown e) x y = (λ h. absurd (thrown_ne_ok h), λ (h, _). absurd (thrown_ne_ok h))

-- what makes a value of a check the successful one
pub Result-cases {ℓ} :
    {A : Type ℓ} (m : Result A) → ((a : A) × (m ≡ ok a)) ⊎ ((e : GatewayError) × (m ≡ thrown e))
Result-cases (ok a) = inl (a, refl)
Result-cases (thrown e) = inr (e, refl)

pub data Body : Type 0 where
  error_body : GatewayError → Body
  json_body : Value → Body

pub record Response : Type 0 where
  pub status : ℕ
  pub headers : List (String × String)
  pub body : Body

-- `errorResponse`
abbrev pub error_response : GatewayError → ℕ → List (String × String) → Response
error_response error status headers = record {
  status = status;
  headers = headers;
  body = error_body error;
}

-- what a step that came to an end has given to the next
pub >>=-ok {κ ℓ} :
    {B : Type κ} {A : Type ℓ} (m : Result B) (next : B → Result A) (y : A)
    → (m >>= next) ≡ ok y
    → (b : B) × ((m ≡ ok b) × (next b ≡ ok y))
>>=-ok (ok b) next y h = (b, (refl, h))
>>=-ok (thrown e) next y h = absurd (thrown_ne_ok h)

pub >>-ok {ℓ} :
    {A : Type ℓ} (m : Result (Unit {0})) (next : Result A) (y : A)
    → (m >> next) ≡ ok y
    → (m ≡ ok tt) × (next ≡ ok y)
>>-ok (ok _) next y h = (refl, h)
>>-ok (thrown e) next y h = absurd (thrown_ne_ok h)
