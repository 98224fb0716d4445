-- ===== src/Tests/Limits.antt =====
-- The rate limit, the regions and the dates at concrete inputs.
use aws_mcp_gateway.Base.{
  ◌-◌, strip_prefix, ℕ, ◌+◌, ◌*◌, ◌≤◌, ◌<◌, ◌≡◌, ◌≢◌, ◌↔◌, refl, true, false, none, some, String,
  List, [], ◌∷◌, Memᴰ, All, arith, string_eq, trim,
}
use aws_mcp_gateway.Errors.{ok, thrown, invalid}
use aws_mcp_gateway.Js.{Value, Fields, get, number, boolean, text, end, field}
use aws_mcp_gateway.Js.Numbers.{whole, nan}
use aws_mcp_gateway.RateLimit.{
  RateLimitWindowState, RateLimitConfig, RateLimitCheckPayload, evaluate, delivered, answer_lost,
  build_identity, enforce,
}
use aws_mcp_gateway.RateLimit.Window.{serve, serve-eq-quota}
use aws_mcp_gateway.RateLimit.Retry.{IsNext, evaluate_accounts, evaluate-retry}
use aws_mcp_gateway.RateLimit.Identity.{IsSameCaller, build_identity_iff}
use aws_mcp_gateway.RateLimit.Enforce.{enforce-others, passes, passes-le}
use aws_mcp_gateway.Regions.{resolve_regions, resolve_regions_iff}
use aws_mcp_gateway.Dates.{day_number, parse_iso_date, validate_cost_dates}
use aws_mcp_gateway.Dates.Range.{RangeFits, validate_cost_dates_iff}
use aws_mcp_gateway.Tests.Inputs.{request_of, two_regions, may_2024_ms}

epoch_day : day_number (record { year = 1970; month = 1; day = 1 }) ≡ 719528
unfolding day_number
epoch_day = refl

parsed_date : parse_iso_date "2024-02-29" ≡ ok 739310
unfolding parse_iso_date
parsed_date = refl

no_such_date : parse_iso_date "2023-02-29" ≡ thrown (invalid "Dates must be valid calendar dates.")
unfolding parse_iso_date
no_such_date = refl

-- requests

abbrev digest : String → String
digest s = s

abbrev two_per_minute : RateLimitConfig
two_per_minute = record { max_requests = 2; window_seconds = 60 }

abbrev full_window : RateLimitWindowState
full_window = record { count = 2; reset_at_ms = 61000 }

abbrev at_30s : RateLimitCheckPayload
at_30s = record { max_requests = 2; window_seconds = 60; now_ms = 30500 }

serve-eq-quota_example : serve 2 60 none (1000 ∷ 2000 ∷ 3000 ∷ []) ≡ true ∷ true ∷ false ∷ []
serve-eq-quota_example =
    serve-eq-quota 2 60 none 1000 (2000 ∷ 3000 ∷ []) (omega arith) tt
      (omega arith, (omega arith, tt))

evaluate_accounts_example :
    let (s', d) = evaluate (some full_window) at_30s in
    IsNext (some full_window) at_30s s'
    × (30500 < s'.reset_at_ms)
    × (d.reset_at_ms ≡ s'.reset_at_ms)
    × (d.limit ≡ 2)
    × (d.remaining ≡ 2 - s'.count)
    × ((d.allowed ≡ true) ↔ (s'.count ≤ 2))
evaluate_accounts_example = evaluate_accounts (some full_window) at_30s (omega arith) (omega arith)

evaluate-retry_example :
    let next = λ (t : ℕ).
      evaluate (some (evaluate (some full_window) at_30s).0) (record at_30s { now_ms = t }) in
    ((next 61500).1.allowed ≡ true) × ((next (30500 + 30 * 1000)).1.allowed ≡ false)
unfolding evaluate
evaluate-retry_example =
    evaluate-retry (some full_window) at_30s 61500 30 refl (omega arith) (omega arith)

build_identity_iff_example :
    IsSameCaller digest (request_of (some "Bearer abc")) (request_of (some "Bearer abc "))
unfolding build_identity strip_prefix trim
build_identity_iff_example =
    (build_identity_iff digest (request_of (some "Bearer abc")) (request_of (some "Bearer abc "))).0
      refl

enforce-others_example :
    (enforce digest (request_of none) (some two_per_minute) 5000 delivered (λ _. none)).0
      "mcp:other"
    ≡ none
unfolding build_identity
enforce-others_example =
    enforce-others digest two_per_minute (request_of none) 5000 delivered (λ _. none) "mcp:other"
      (λ e. cc e)

passes-le_example :
    passes digest two_per_minute "mcp:ip:unknown"
      (λ _. none)
      ((request_of none, 1000, delivered) ∷ (request_of none, 2000, answer_lost) ∷ [])
    ≤ 2 * 2
passes-le_example =
    passes-le digest two_per_minute "mcp:ip:unknown" 1000 (λ _. none)
      ((request_of none, 1000, delivered) ∷ (request_of none, 2000, answer_lost) ∷ []) (omega arith)
      ((omega arith, omega arith), ((omega arith, omega arith), tt))

-- regions and dates

resolve_regions_iff_example :
    (resolve_regions (some ("eu-west-1" ∷ [])) two_regions ≡ ok ("eu-west-1" ∷ [])) ↔ (
      (two_regions ≢ [])
      × All (λ r. Memᴰ r two_regions) ("eu-west-1" ∷ [])
      × (◌≡◌ {A = List String} ("eu-west-1" ∷ []) ("eu-west-1" ∷ [])))
resolve_regions_iff_example =
    resolve_regions_iff (some ("eu-west-1" ∷ [])) two_regions ("eu-west-1" ∷ [])

validate_cost_dates_iff_example : RangeFits may_2024_ms "2024-02-28" "2024-03-01" (whole 31)
unfolding validate_cost_dates parse_iso_date aws_mcp_gateway.Js.Numbers.num_lt
validate_cost_dates_iff_example =
    (validate_cost_dates_iff may_2024_ms "2024-02-28" "2024-03-01" (whole 31)).0 refl
