-- ===== src/Policy/CostControl.antt =====
-- mcp/tools/cost-control-policy.ts: the limits that a tool declares, and those of a request.
pub mod Limits
pub mod Fanout
pub mod Admitted
use aws_mcp_gateway.Base.{
  ℕ, Bool, true, false, ◌&&◌, not, Option, none, some, String, List, length, if◌then◌else◌, ◌<|>◌,
  or_else,
}
use aws_mcp_gateway.Errors.{GatewayError, gateway_error, validation_error, Result, ok, thrown}
use aws_mcp_gateway.Js.{Fields, get, as_text, as_number, as_texts}
use aws_mcp_gateway.Js.Numbers.{Num, whole, num_lt, num_eq, num_min, is_positive_integer}
use aws_mcp_gateway.Dates.{validate_cost_dates}
use aws_mcp_gateway.Regions.{resolve_regions}
use aws_mcp_gateway.Manifest.{
  ToolManifest, ToolCostControl, CostControlClass, free, low, bounded_multi_region, AwsRegionMode,
  is_aws_backed_manifest,
}

-- `policyDenial`
abbrev pub policy_denial : String → GatewayError
policy_denial message = gateway_error validation_error message

-- `if (test) return policyDenial(message)`
abbrev pub reject_if : Bool → String → Option GatewayError
reject_if true message = some (policy_denial message)
reject_if false message = none

-- `try { … } catch (error) { return policyDenial(error.message) }`
abbrev pub as_denial {ℓ} : {A : Type ℓ} → Result A → Option GatewayError
as_denial (ok a) = none
as_denial (thrown e) = some (policy_denial e.message)

abbrev missing : String
missing = "Tool is missing required cost-control metadata."

abbrev malformed : String
malformed = "Tool cost-control metadata is invalid."

-- `isPositiveInteger`, of a value that may not be a number at all
unfoldable pub positive : Option Num → Bool
positive none = false
positive (some n) = is_positive_integer n

-- `limit !== undefined && !isPositiveInteger(limit)`
unfoldable pub bad_limit : Option Num → Bool
bad_limit none = false
bad_limit (some n) = not (is_positive_integer n)

unfoldable pub same_number : Option Num → Option Num → Bool
same_number (some a) (some b) = num_eq a b
same_number none none = true
same_number a b = false

-- `CACHE_REQUIRED_CLASSES.has`
unfoldable pub requires_caching : CostControlClass → Bool
requires_caching free = false
requires_caching low = false
requires_caching c = true

is_free : CostControlClass → Bool
is_free free = true
is_free c = false

-- an AWS tool is not free; any other is, and caches nothing
unfoldable pub class_fits : ToolManifest → CostControlClass → Bool → Bool
unfolding is_free
class_fits manifest class requires_cache =
    if is_aws_backed_manifest manifest
    then not (is_free class)
    else is_free class && not requires_cache

unfoldable pub below : Num → Option Num → Bool
below n none = false
below n (some m) = num_lt n m

-- the tests of `validateCostControlManifest` once the class and `requiresCache` are known
cost_limits : ToolManifest → ToolCostControl → CostControlClass → Bool → Option GatewayError
unfolding positive bad_limit same_number class_fits below requires_caching
cost_limits manifest control class requires_cache =
    reject_if (not (positive control.timeout_ms)) malformed
    <|> reject_if (not (same_number manifest.timeout_ms control.timeout_ms)) malformed
    <|> reject_if (bad_limit control.max_regions) malformed
    <|> reject_if (bad_limit control.max_date_range_days) malformed
    <|> reject_if (bad_limit control.max_result_count) malformed
    <|> reject_if (bad_limit control.max_lookback_hours) malformed
    <|> reject_if (bad_limit control.min_cache_ttl_seconds) malformed
    <|> reject_if (not (class_fits manifest class requires_cache)) malformed
    <|> reject_if (requires_caching class && not requires_cache) malformed
    <|> reject_if (requires_caching class && not (positive control.min_cache_ttl_seconds)) malformed
    <|> reject_if
        (requires_caching class && below manifest.cache_ttl_seconds control.min_cache_ttl_seconds)
        malformed

known_class :
    ToolManifest → ToolCostControl → Option CostControlClass → Option Bool → Option GatewayError
unfolding cost_limits
known_class manifest control none requires_cache = some (policy_denial missing)
known_class manifest control (some class) none = some (policy_denial missing)
known_class manifest control (some class) (some requires_cache) =
    cost_limits manifest control class requires_cache

control_denial : ToolManifest → Option ToolCostControl → Option GatewayError
unfolding known_class
control_denial manifest none = some (policy_denial missing)
control_denial manifest (some control) =
    known_class manifest control control.class control.requires_cache

-- `validateCostControlManifest`
unfoldable pub validate_cost_control_manifest : ToolManifest → Option GatewayError
unfolding control_denial
validate_cost_control_manifest manifest = control_denial manifest manifest.cost_control

-- `limit !== undefined && typeof value === "number" && value > limit`
unfoldable pub exceeds : Option Num → Option Num → Bool
exceeds (some limit) (some n) = num_lt limit n
exceeds limit n = false

dates_result : Result (Unit {0}) → Option GatewayError
dates_result (ok _) = none
dates_result (thrown e) = some (policy_denial "Date range is not allowed for this tool.")

-- the check of `startDate` and `endDate`, made only where both are strings and a limit is declared
dates_denial : ℕ → Option Num → Option String → Option String → Option GatewayError
unfolding dates_result
dates_denial now_ms (some limit) (some start_date) (some end_date) =
    dates_result (validate_cost_dates now_ms start_date end_date limit)
dates_denial now_ms limit start_date end_date = none

-- `configuredMax` and `effectiveMax`
unfoldable pub effective_max : Option Num → List String → Num
effective_max max_regions allowed =
    num_min (or_else max_regions (whole (length allowed))) (whole (length allowed))

fanout_result : Option Num → List String → Result (List String) → Option GatewayError
unfolding effective_max
fanout_result max_regions allowed (ok resolved) =
    reject_if (num_lt (effective_max max_regions allowed) (whole (length resolved)))
      "Region fanout is not allowed for this tool."
fanout_result max_regions allowed (thrown e) = some (policy_denial e.message)

-- the check of `args.regions`, made for tools that take several regions
fanout_denial :
    AwsRegionMode → Option Num → List String → Option (List String) → Option GatewayError
unfolding fanout_result
fanout_denial bounded_multi_region max_regions allowed requested =
    fanout_result max_regions allowed (resolve_regions requested allowed)
fanout_denial mode max_regions allowed requested = none

request_denial :
    AwsRegionMode → Option ToolCostControl → ℕ → List String → Fields → Option GatewayError
unfolding dates_denial fanout_denial exceeds
request_denial mode none now_ms allowed args = some (policy_denial missing)
request_denial mode (some control) now_ms allowed args =
    dates_denial now_ms control.max_date_range_days (as_text (get "startDate" args))
      (as_text (get "endDate" args))
    <|> reject_if (exceeds control.max_result_count (as_number (get "limit" args)))
        "Result count is not allowed for this tool."
    <|> reject_if (exceeds control.max_result_count (as_number (get "serviceLimit" args)))
        "Result count is not allowed for this tool."
    <|> reject_if (exceeds control.max_lookback_hours (as_number (get "hours" args)))
        "Lookback window is not allowed for this tool."
    <|> fanout_denial mode control.max_regions allowed (as_texts (get "regions" args))

-- `validateCostControlRequest`, at a time
unfoldable pub validate_cost_control_request :
    ToolManifest → ℕ → List String → Fields → Option GatewayError
unfolding request_denial
validate_cost_control_request manifest now_ms allowed args =
    request_denial manifest.region_mode manifest.cost_control now_ms allowed args
