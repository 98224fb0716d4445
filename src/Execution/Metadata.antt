-- ===== src/Execution/Metadata.antt =====
-- mcp/execution/build.ts, pricing.ts and metadata.ts: the metadata of a call of a tool.
pub mod Charge
use aws_mcp_gateway.Base.{
  ℕ, suc, ◌%◌, Bool, true, false, ◌&&◌, ◌||◌, not, Option, none, some, or_else, String, List, [],
  ◌∷◌, ltb, eqb, is_empty, if◌then◌else◌,
}
use aws_mcp_gateway.Js.Numbers.{Num, ratio}
use aws_mcp_gateway.Errors.{
  Result, ok, thrown, GatewayError, gateway_error, internal_error, invalid,
}
use aws_mcp_gateway.Manifest.{
  ToolManifest, ToolCostControl, CostControlClass, CostClass, cached_read, no_cost,
  is_aws_backed_manifest,
}
use aws_mcp_gateway.Telemetry.{CacheStatus, disabled, unavailable}
use aws_mcp_gateway.Execution.{
  ToolExecutionCache, ToolExecutionBilling, AwsRequestSummary, ToolExecutionMetadata,
  ExecutionRuntimeFacts, resolve_pricing_model, resolve_billing_note, estimate_cost, should_charge,
  sum_request_counts,
}

-- What any error that is not the gateway's own is reported as.
abbrev pub unexpected : GatewayError
unexpected = gateway_error internal_error "An unexpected error occurred."

is_cached_read : CostClass → Bool
is_cached_read cached_read = true
is_cached_read no_cost = false

default_status : Bool → CacheStatus
default_status true = unavailable
default_status false = disabled

-- `resolveDefaultCacheBlock`
unfoldable pub resolve_default_cache_block :
    ToolManifest → ToolCostControl → Option CacheStatus → ToolExecutionCache
unfolding is_cached_read default_status
resolve_default_cache_block manifest control status =
    let enabled = or_else control.requires_cache false || is_cached_read manifest.cost_class in
    record {
      enabled = enabled;
      status = or_else status (default_status enabled);
      ttl_seconds = if enabled then some manifest.cache_ttl_seconds else none;
    }

-- `resolveBillingFromManifest`
unfoldable pub resolve_billing :
    CostControlClass → Bool → ℕ → Option CacheStatus → ToolExecutionBilling
resolve_billing class charged cost status = record {
  cost_class = class;
  estimated_cost = cost;
  charged = charged;
  pricing_model = resolve_pricing_model class;
  note = resolve_billing_note class status charged;
}

charges : Option CacheStatus → Bool
charges none = false
charges (some status) = should_charge status

is_charged : ExecutionRuntimeFacts → Bool
unfolding charges
is_charged facts = charges facts.cache_status && ltb 0 (estimate_cost facts.aws_requests)

-- the metadata before its schema is checked
unfoldable pub metadata_of :
    ToolManifest
    → ToolCostControl
    → CostControlClass
    → ExecutionRuntimeFacts
    → ToolExecutionMetadata
unfolding is_charged
metadata_of manifest control class facts = record {
  cache = resolve_default_cache_block manifest control facts.cache_status;
  billing =
      resolve_billing class (is_charged facts)
        (if is_charged facts then estimate_cost facts.aws_requests else 0) facts.cache_status;
  aws_requests = facts.aws_requests;
  aws_request_count = sum_request_counts facts.aws_requests;
}

-- `z.number().int().nonnegative().optional()`
is_count : Option Num → Bool
is_count none = true
is_count (some (ratio n d)) = eqb (n % suc d) 0
is_count (some n) = false

-- `z.string().min(1).optional()`
is_named : Option String → Bool
is_named none = true
is_named (some s) = not (is_empty s)

are_summaries : List AwsRequestSummary → Bool
unfolding is_named
are_summaries [] = true
are_summaries (r ∷ rs) =
    not (is_empty r.service) && not (is_empty r.action) && is_named r.region && are_summaries rs

-- `parseToolExecutionMetadata`: what of `toolExecutionMetadataSchema` the types do not say already
unfoldable pub parse_tool_execution_metadata : ToolExecutionMetadata → Result ToolExecutionMetadata
unfolding is_count are_summaries
parse_tool_execution_metadata m =
    if is_count m.cache.ttl_seconds && are_summaries m.aws_requests && not (is_empty m.billing.note)
    then ok m
    else thrown unexpected

with_class :
    ToolManifest
    → ToolCostControl
    → Option CostControlClass
    → ExecutionRuntimeFacts
    → Result ToolExecutionMetadata
with_class manifest control none facts = thrown unexpected
with_class manifest control (some class) facts =
    parse_tool_execution_metadata (metadata_of manifest control class facts)

with_control :
    ToolManifest → Option ToolCostControl → ExecutionRuntimeFacts → Result ToolExecutionMetadata
unfolding with_class
with_control manifest none facts = thrown unexpected
with_control manifest (some control) facts = with_class manifest control control.class facts

-- `buildAwsExecutionMetadataFromManifest`, with facts
unfoldable pub build_aws_execution_metadata :
    ToolManifest → ExecutionRuntimeFacts → Result ToolExecutionMetadata
unfolding with_control
build_aws_execution_metadata manifest facts =
    if not (is_aws_backed_manifest manifest)
    then thrown (invalid "Execution metadata is not applicable to non-AWS tools.")
    else with_control manifest manifest.cost_control facts
