-- ===== src/Execution.antt =====
-- mcp/execution/metadata.ts, pricing.ts and runtime-facts.ts: what a call has asked of AWS and what it may cost.
-- Amounts are whole cents; the source adds doubles, whose rounding is left out.
pub mod Metadata
pub mod Call
use aws_mcp_gateway.Base.{
  ℕ, ◌+◌, ◌*◌, Bool, true, false, ◌&&◌, ◌||◌, not, Option, none, some, is_some, String, List, [],
  ◌∷◌, ltb, eqb, ◌==◌, string_eq, if◌then◌else◌,
}
use aws_mcp_gateway.Js.Numbers.{Num}
use aws_mcp_gateway.Capabilities.{AwsCapabilityDefinition, get_aws_capability}
use aws_mcp_gateway.Manifest.{CostControlClass, free, low, paid, volume_sensitive, fanout_sensitive}
use aws_mcp_gateway.Telemetry.{
  CacheStatus, hit, miss, disabled, unavailable, bypass, same_status, has_status,
  cache_status_priority, RecordedAwsRequest,
}

-- `PricingModel`
pub data PricingModel : Type 0 where
  no_price per_request per_1000_requests usage_dependent : PricingModel

-- `ToolExecutionCache`
pub record ToolExecutionCache : Type 0 where
  pub enabled : Bool
  pub status : CacheStatus
  pub ttl_seconds : Option Num

-- `ToolExecutionBilling`, less the provider and the currency, which never differ
pub record ToolExecutionBilling : Type 0 where
  pub cost_class : CostControlClass
  pub estimated_cost : ℕ
  pub charged : Bool
  pub pricing_model : PricingModel
  pub note : String

-- `AwsRequestSummary`
pub record AwsRequestSummary : Type 0 where
  pub service : String
  pub action : String
  pub region : Option String
  pub request_count : ℕ
  pub estimated_unit_cost : Option ℕ

-- `ToolExecutionMetadata`
pub record ToolExecutionMetadata : Type 0 where
  pub cache : ToolExecutionCache
  pub billing : ToolExecutionBilling
  pub aws_requests : List AwsRequestSummary
  pub aws_request_count : ℕ

-- `getCapabilityUnitCostUsd`
unfoldable pub get_capability_unit_cost : String → Option ℕ
get_capability_unit_cost id = if id == "ce:GetCostAndUsage" then some 1 else none

-- `resolvePricingModel`
unfoldable pub resolve_pricing_model : CostControlClass → PricingModel
resolve_pricing_model free = no_price
resolve_pricing_model low = no_price
resolve_pricing_model paid = per_request
resolve_pricing_model fanout_sensitive = usage_dependent
resolve_pricing_model volume_sensitive = usage_dependent

-- `BILLING_NOTES`
billing_note : CostControlClass → String
billing_note free = "No AWS API charges are expected for this tool."
billing_note low =
    "AWS API usage for this tool is typically low cost; no fixed per-request estimate is published."
billing_note paid =
    "Estimated AWS Cost Explorer API charge for a non-cached request. Final billing is determined by AWS."
billing_note class =
    "No fixed per-request AWS API charge is estimated for this tool. High-volume usage may still contribute to provider or platform costs."

is_hit : Option CacheStatus → Bool
is_hit (some hit) = true
is_hit status = false

-- `resolveBillingNote`
unfoldable pub resolve_billing_note : CostControlClass → Option CacheStatus → Bool → String
unfolding billing_note is_hit
resolve_billing_note paid status charged =
    if is_hit status || not charged && is_some status
    then "No new AWS Cost Explorer API request was made. Final billing is determined by AWS."
    else billing_note paid
resolve_billing_note class status charged = billing_note class

-- `estimateCostUsdFromRequests`
cost_of : ℕ → Option ℕ → ℕ
cost_of count none = 0
cost_of count (some cost) = if eqb count 0 then 0 else count * cost

unfoldable pub estimate_cost : List AwsRequestSummary → ℕ
unfolding cost_of
estimate_cost [] = 0
estimate_cost (r ∷ rs) = cost_of r.request_count r.estimated_unit_cost + estimate_cost rs

-- `shouldChargeForCacheStatus`
unfoldable pub should_charge : CacheStatus → Bool
should_charge miss = true
should_charge bypass = true
should_charge status = false

-- `sumRequestCounts`
unfoldable pub sum_request_counts : List AwsRequestSummary → ℕ
sum_request_counts [] = 0
sum_request_counts (r ∷ rs) = r.request_count + sum_request_counts rs

summary_of : AwsCapabilityDefinition → String → ℕ → Option String → AwsRequestSummary
summary_of capability id count region = record {
  service = capability.iam_service;
  action = capability.iam_action;
  region = region;
  request_count = count;
  estimated_unit_cost = get_capability_unit_cost id;
}

prepend : {A : Type 0} → A → Option (List A) → Option (List A)
prepend x none = none
prepend x (some xs) = some (x ∷ xs)

empty_row :
    Option AwsCapabilityDefinition
    → String
    → Option (List AwsRequestSummary)
    → Option (List AwsRequestSummary)
unfolding summary_of prepend
empty_row none id rest = none
empty_row (some capability) id rest = prepend (summary_of capability id 0 none) rest

-- `buildAwsRequestsFromManifest`, which throws on a capability that is not registered
unfoldable pub empty_rows : List String → Option (List AwsRequestSummary)
unfolding empty_row
empty_rows [] = some []
empty_rows (id ∷ ids) = empty_row (get_aws_capability id) id (empty_rows ids)

is_row_of : AwsCapabilityDefinition → AwsRequestSummary → Bool
is_row_of capability row =
    row.service == capability.iam_service && row.action == capability.iam_action

first_region : Option String → Option String → Option String
first_region (some region) new = some region
first_region none new = new

-- the row that is found, or else a new one at the end
add_recorded :
    AwsCapabilityDefinition → RecordedAwsRequest → List AwsRequestSummary → List AwsRequestSummary
unfolding summary_of is_row_of first_region
add_recorded capability r [] = summary_of capability r.capability_id r.request_count r.region ∷ []
add_recorded capability r (row ∷ rows) =
    let rest = add_recorded capability r rows in
    if is_row_of capability row
    then record {
      service = row.service;
      action = row.action;
      region = first_region row.region r.region;
      request_count = row.request_count + r.request_count;
      estimated_unit_cost = row.estimated_unit_cost;
    }
      ∷ rows
    else row ∷ rest

add_if_known :
    Option AwsCapabilityDefinition
    → RecordedAwsRequest
    → List AwsRequestSummary
    → Option (List AwsRequestSummary)
unfolding add_recorded
add_if_known none r rows = none
add_if_known (some capability) r rows = some (add_recorded capability r rows)

-- the first loop
unfoldable pub add_all :
    List RecordedAwsRequest → Option (List AwsRequestSummary) → Option (List AwsRequestSummary)
unfolding add_if_known
add_all recorded none = none
add_all [] (some rows) = some rows
add_all (r ∷ rs) (some rows) = add_all rs (add_if_known (get_aws_capability r.capability_id) r rows)

is_row_of_any : Option AwsCapabilityDefinition → AwsRequestSummary → Bool
unfolding is_row_of
is_row_of_any none row = false
is_row_of_any (some capability) row = is_row_of capability row

-- the count of what was recorded for a row; the first loop has thrown on a capability that is not registered
total_for : AwsRequestSummary → List RecordedAwsRequest → ℕ
unfolding is_row_of_any
total_for row [] = 0
total_for row (r ∷ rs) =
    (if is_row_of_any (get_aws_capability r.capability_id) row then r.request_count else 0)
    + total_for row rs

-- the second loop
fill_row : List RecordedAwsRequest → AwsRequestSummary → AwsRequestSummary
unfolding total_for
fill_row recorded row = if ltb 0 row.request_count then row else record {
  service = row.service;
  action = row.action;
  region = row.region;
  request_count = total_for row recorded;
  estimated_unit_cost = row.estimated_unit_cost;
}

fill_rows : List RecordedAwsRequest → List AwsRequestSummary → List AwsRequestSummary
unfolding fill_row
fill_rows recorded [] = []
fill_rows recorded (row ∷ rows) = fill_row recorded row ∷ fill_rows recorded rows

find_status : List CacheStatus → List CacheStatus → Option CacheStatus
find_status [] statuses = none
find_status (p ∷ ps) statuses =
    let rest = find_status ps statuses in if has_status statuses p then some p else rest

-- `ExecutionRuntimeFacts`
pub record ExecutionRuntimeFacts : Type 0 where
  pub cache_status : Option CacheStatus
  pub aws_requests : List AwsRequestSummary

with_status :
    List CacheStatus
    → List RecordedAwsRequest
    → Option (List AwsRequestSummary)
    → Option ExecutionRuntimeFacts
unfolding find_status fill_rows
with_status statuses recorded none = none
with_status statuses recorded (some rows) = some (record {
  cache_status = find_status cache_status_priority statuses;
  aws_requests = fill_rows recorded rows;
})

-- `buildRuntimeFactsFromSnapshot`
unfoldable pub build_runtime_facts :
    List String → List CacheStatus → List RecordedAwsRequest → Option ExecutionRuntimeFacts
unfolding with_status
build_runtime_facts capabilities statuses recorded =
    with_status statuses recorded (add_all recorded (empty_rows capabilities))
