-- ===== src/RateLimit.antt =====
-- security/rate-limit.ts: the fixed window of one identity, the identity of a request, and the check
-- that goes through the durable object of that identity.
pub mod Window
pub mod Retry
pub mod Identity
pub mod Enforce
use aws_mcp_gateway.Base.{
  ℕ, suc, ◌+◌, ◌-◌, ◌*◌, ◌/◌, Bool, true, false, Option, none, some, String, List, [], ◌∷◌, ◌==◌,
  string_eq, leb, max, is_empty, is_comma, trim, split, strip_prefix, show, ◌<>◌, if◌then◌else◌,
}
use aws_mcp_gateway.Errors.{Response, error_response, retryable_error, rate_limited, internal_error}
use aws_mcp_gateway.Http.{Request}

pub record RateLimitWindowState : Type 0 where
  pub count : ℕ
  pub reset_at_ms : ℕ

pub record RateLimitDecision : Type 0 where
  pub allowed : Bool
  pub limit : ℕ
  pub remaining : ℕ
  pub reset_at_ms : ℕ
  pub retry_after_seconds : ℕ

pub record RateLimitCheckPayload : Type 0 where
  pub max_requests : ℕ
  pub window_seconds : ℕ
  pub now_ms : ℕ

-- `Math.max(1, Math.ceil(d / 1000))`. The caller has `reset_at_ms` above `now_ms`; for a time that has
-- passed the source's quotient is not positive and the truncated one is 0, so both give 1.
seconds_until : ℕ → ℕ → ℕ
seconds_until reset_at_ms now_ms = max 1 ((reset_at_ms - now_ms + 999) / 1000)

open_window : RateLimitCheckPayload → RateLimitWindowState × RateLimitDecision
open_window payload =
    let reset_at_ms = payload.now_ms + payload.window_seconds * 1000 in
    (
      record { count = 1; reset_at_ms = reset_at_ms },
      record {
        allowed = true;
        limit = payload.max_requests;
        remaining = max 0 (payload.max_requests - 1);
        reset_at_ms = reset_at_ms;
        retry_after_seconds = payload.window_seconds;
      },
    )

count_request :
    RateLimitWindowState → RateLimitCheckPayload → RateLimitWindowState × RateLimitDecision
unfolding seconds_until
count_request existing payload =
    let next_count = existing.count + 1 in
    (
      record { count = next_count; reset_at_ms = existing.reset_at_ms },
      record {
        allowed = leb next_count payload.max_requests;
        limit = payload.max_requests;
        remaining = max 0 (payload.max_requests - next_count);
        reset_at_ms = existing.reset_at_ms;
        retry_after_seconds = seconds_until existing.reset_at_ms payload.now_ms;
      },
    )

-- `evaluateRateLimitWindow`
unfoldable pub evaluate :
    Option RateLimitWindowState → RateLimitCheckPayload → RateLimitWindowState × RateLimitDecision
unfolding open_window count_request
evaluate none payload = open_window payload
evaluate (some existing) payload =
    if leb existing.reset_at_ms payload.now_ms
    then open_window payload
    else count_request existing payload

-- `rateLimitHeaders`
rate_limit_headers : RateLimitDecision → List (String × String)
rate_limit_headers decision =
    ("RateLimit-Limit", show decision.limit)
    ∷ ("RateLimit-Remaining", show decision.remaining)
    ∷ ("RateLimit-Reset", show ((decision.reset_at_ms + 999) / 1000))
    ∷ ("Retry-After", show decision.retry_after_seconds)
    ∷ []

-- `value.split(",")[0]?.trim()`
first_hop : String → String
first_hop value = elim (split is_comma value) [ [] ↦ "" | part ∷ parts ↦ trim part ]

-- `CF-Connecting-IP`, or else the first hop of `X-Forwarded-For`, or else "unknown"
unfoldable pub forwarded_for : Option String → Option String → String
unfolding first_hop
forwarded_for (some ip) hops = ip
forwarded_for none (some hops) = first_hop hops
forwarded_for none none = "unknown"

-- the token of an `Authorization: Bearer` header, trimmed, unless it is empty
unfoldable pub bearer_token : Option String → Option String
bearer_token none = none
bearer_token (some header) = elim (strip_prefix "Bearer " header) [
  | none ↦ none
  | some rest ↦ if is_empty (trim rest) then none else some (trim rest)
]

-- `sha256Hex` stands for the platform's digest.
module _ (sha256_hex : String → String) where
  identity_of : Option String → String → String
  identity_of (some token) ip = "token:" <> sha256_hex token
  identity_of none ip = "ip:" <> ip

  -- `buildRateLimitIdentity`
  unfoldable pub build_identity : Request → String
  unfolding identity_of bearer_token forwarded_for
  build_identity request =
      identity_of (bearer_token (request.header "Authorization"))
        (forwarded_for (request.header "CF-Connecting-IP") (request.header "X-Forwarded-For"))

-- The storage of every durable object of the namespace, by the name it is reached under.
abbrev pub Namespace : Type 0
Namespace = String → Option RateLimitWindowState

put : Namespace → String → RateLimitWindowState → Namespace
put objects name state other = if other == name then some state else objects other

-- `AuthRateLimitDurableObject.fetch`: read the window, evaluate it, write it back, answer.
unfoldable pub object_fetch :
    String → RateLimitCheckPayload → Namespace → Namespace × RateLimitDecision
unfolding put
object_fetch name payload objects =
    let (state, decision) = evaluate (objects name) payload in (put objects name state, decision)

-- What the call of the object may run into: it can fail before the object has handled the request, or
-- its answer can be lost afterwards.
pub data Delivery : Type 0 where
  delivered request_lost answer_lost : Delivery

pub record RateLimitConfig : Type 0 where
  pub max_requests : ℕ
  pub window_seconds : ℕ

throttling_unavailable : Response
throttling_unavailable =
    error_response (retryable_error internal_error "Request throttling is temporarily unavailable.")
      503 []

too_many_requests : RateLimitDecision → Response
unfolding rate_limit_headers
too_many_requests decision =
    error_response (retryable_error rate_limited "Rate limit exceeded. Retry later.") 429
      (rate_limit_headers decision)

module _ (sha256_hex : String → String) where
  -- `enforceRateLimit`: `none` lets the request through
  unfoldable pub enforce :
      Request → Option RateLimitConfig → ℕ → Delivery → Namespace → Namespace × Option Response
  unfolding too_many_requests throttling_unavailable
  enforce request none now_ms how objects = (objects, none)
  enforce request (some config) now_ms request_lost objects = (objects, some throttling_unavailable)
  enforce request (some config) now_ms answer_lost objects =
      let payload : RateLimitCheckPayload = record {
        max_requests = config.max_requests;
        window_seconds = config.window_seconds;
        now_ms = now_ms;
      } in
      let (objects', decision) =
        object_fetch ("mcp:" <> build_identity sha256_hex request) payload objects in
      (objects', some throttling_unavailable)
  enforce request (some config) now_ms delivered objects =
      let payload : RateLimitCheckPayload = record {
        max_requests = config.max_requests;
        window_seconds = config.window_seconds;
        now_ms = now_ms;
      } in
      let (objects', decision) =
        object_fetch ("mcp:" <> build_identity sha256_hex request) payload objects in
      (objects', if decision.allowed then none else some (too_many_requests decision))
