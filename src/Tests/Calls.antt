-- ===== src/Tests/Calls.antt =====
-- Calls of tools, and the credentials they are made with, at concrete inputs.
use aws_mcp_gateway.Base.{
  ℕ, ◌+◌, ◌≡◌, refl, Bool, true, false, Option, none, some, String, List, [], ◌∷◌, All, ◌<>◌,
}
use aws_mcp_gateway.Errors.{ok}
use aws_mcp_gateway.Js.{Value, text, Fields, end, field}
use aws_mcp_gateway.Js.Numbers.{whole}
use aws_mcp_gateway.Manifest.{paid}
use aws_mcp_gateway.Policy.{evaluate_tool_policy}
use aws_mcp_gateway.Telemetry.{
  ExecutionCollector, reset, record_aws_request, record_cache_status, miss,
}
use aws_mcp_gateway.Profiles.{CredentialRequest, default, assume_role}
use aws_mcp_gateway.Credentials.{AwsCredentials, Sts, from_assume_role}
use aws_mcp_gateway.Credentials.Own.{IsAnswered, resolve_all, resolve_all-IsAnswered}
use aws_mcp_gateway.Execution.{
  ToolExecutionMetadata, ExecutionRuntimeFacts, AwsRequestSummary, per_request,
}
use aws_mcp_gateway.Execution.Metadata.Charge.{IsBilled, build_aws_execution_metadata-IsBilled}
use aws_mcp_gateway.Execution.Call.{Handler, McpSuccessResult, succeeded}
use aws_mcp_gateway.Execution.Call.Results.{IsResultOf}
use aws_mcp_gateway.Execution.Call.Gated.{call_tool-succeeded}
use aws_mcp_gateway.Tests.Gate.{cost_tool, policy, february}

-- credentials

abbrev own_credentials : AwsCredentials
own_credentials = record {
  access_key_id = "id";
  secret_access_key = "key";
  session_token = none;
  expires_at = none;
  source = none;
}

abbrev hourly : Sts
hourly = λ now role external_id session. some (record {
  access_key_id = role;
  secret_access_key = "key";
  session_token = some "token";
  expires_at = some (now + 3600000);
  source = some from_assume_role;
})

abbrev reader : CredentialRequest
reader = assume_role "arn:aws:iam::123456789012:role/Reader" none none

abbrev requests : List (ℕ × CredentialRequest)
requests = (1000, default) ∷ (2000, reader) ∷ (3000, reader) ∷ []

resolve_all-IsAnswered_example :
    All
      (IsAnswered (λ s. s) hourly own_credentials)
      (resolve_all (λ s. s) hourly own_credentials (λ key. none) requests)
resolve_all-IsAnswered_example = resolve_all-IsAnswered (λ s. s) hourly own_credentials requests

-- calls

abbrev one_request : List AwsRequestSummary
one_request =
    record {
      service = "ce";
      action = "ce:GetCostAndUsage";
      region = none;
      request_count = 1;
      estimated_unit_cost = some 1;
    }
    ∷ []

abbrev facts : ExecutionRuntimeFacts
facts = record { cache_status = some miss; aws_requests = one_request }

abbrev metadata : ToolExecutionMetadata
metadata = record {
  cache = record { enabled = true; status = miss; ttl_seconds = some (whole 3600) };
  billing = record {
    cost_class = paid;
    estimated_cost = 1;
    charged = true;
    pricing_model = per_request;
    note =
        "Estimated AWS Cost Explorer API charge for a non-cached request. Final billing is determined by AWS.";
  };
  aws_requests = one_request;
  aws_request_count = 1;
}

build_aws_execution_metadata-IsBilled_example : IsBilled facts metadata
unfolding aws_mcp_gateway.Execution.Metadata.build_aws_execution_metadata
    aws_mcp_gateway.Manifest.is_aws_backed_manifest
    aws_mcp_gateway.Execution.Metadata.parse_tool_execution_metadata
    aws_mcp_gateway.Execution.Metadata.metadata_of
    aws_mcp_gateway.Execution.Metadata.resolve_default_cache_block
    aws_mcp_gateway.Execution.Metadata.resolve_billing
    aws_mcp_gateway.Execution.resolve_billing_note aws_mcp_gateway.Execution.should_charge
    aws_mcp_gateway.Execution.estimate_cost aws_mcp_gateway.Execution.resolve_pricing_model
    aws_mcp_gateway.Execution.sum_request_counts
build_aws_execution_metadata-IsBilled_example =
    build_aws_execution_metadata-IsBilled cost_tool facts metadata refl

abbrev costs : Option Fields
costs = some (field "total" (text "3.00") end)

abbrev handler : Handler
handler = λ args collector. (
  record_cache_status (record_aws_request collector ("ce:GetCostAndUsage", none)) miss,
  ok (record { content = "Costs" ∷ []; structured_content = costs; execution = none }),
)

abbrev with_costs : McpSuccessResult
with_costs = record {
  content =
      "Costs\n\nBilling note: served from AWS Cost Explorer, not cache. Estimated AWS API cost: US$ 0.01."
      ∷ [];
  structured_content = costs;
  execution = some metadata;
}

call_tool-succeeded_example :
    (evaluate_tool_policy cost_tool policy february ≡ none)
    × ((before : McpSuccessResult) × (((handler february reset).1 ≡ ok before)
          × IsResultOf cost_tool (handler february reset).0 before with_costs))
unfolding aws_mcp_gateway.Execution.Call.call_tool evaluate_tool_policy
    aws_mcp_gateway.Policy.validate_manifest_structure aws_mcp_gateway.Base.includes
    aws_mcp_gateway.Policy.validate_granted_scopes aws_mcp_gateway.Policy.Scopes.has_required_scopes
    aws_mcp_gateway.Policy.validate_aws_metadata aws_mcp_gateway.Manifest.is_aws_backed_manifest
    aws_mcp_gateway.Policy.CostControl.validate_cost_control_manifest
    aws_mcp_gateway.Js.Numbers.is_positive_integer aws_mcp_gateway.Js.Numbers.num_eq
    aws_mcp_gateway.Js.Numbers.num_lt aws_mcp_gateway.Policy.validate_requested_regions
    aws_mcp_gateway.Regions.validate_allowed_regions aws_mcp_gateway.Js.get
    aws_mcp_gateway.Policy.CostControl.validate_cost_control_request
    aws_mcp_gateway.Execution.Metadata.build_aws_execution_metadata aws_mcp_gateway.Base.show
    aws_mcp_gateway.Dates.day_number aws_mcp_gateway.Dates.is_calendar_date
    aws_mcp_gateway.Dates.iso_fields aws_mcp_gateway.Execution.Call.append_note
    aws_mcp_gateway.Execution.Call.format_visible_billing_note
    aws_mcp_gateway.Execution.Call.mcp_error_result
    aws_mcp_gateway.Execution.Call.should_append_note aws_mcp_gateway.Execution.Metadata.metadata_of
    aws_mcp_gateway.Execution.Metadata.parse_tool_execution_metadata
    aws_mcp_gateway.Execution.Metadata.resolve_billing
    aws_mcp_gateway.Execution.Metadata.resolve_default_cache_block
    aws_mcp_gateway.Execution.estimate_cost aws_mcp_gateway.Execution.get_capability_unit_cost
    aws_mcp_gateway.Execution.resolve_billing_note aws_mcp_gateway.Execution.resolve_pricing_model
    aws_mcp_gateway.Execution.should_charge aws_mcp_gateway.Execution.sum_request_counts
    aws_mcp_gateway.Js.texts aws_mcp_gateway.Policy.CostControl.bad_limit
    aws_mcp_gateway.Policy.CostControl.below aws_mcp_gateway.Policy.CostControl.class_fits
    aws_mcp_gateway.Policy.CostControl.effective_max aws_mcp_gateway.Policy.CostControl.exceeds
    aws_mcp_gateway.Policy.CostControl.positive aws_mcp_gateway.Policy.CostControl.requires_caching
    aws_mcp_gateway.Policy.CostControl.same_number aws_mcp_gateway.Policy.mode_denial
    aws_mcp_gateway.Policy.requested_region aws_mcp_gateway.Policy.scopes_denial
    aws_mcp_gateway.Regions.validate_region aws_mcp_gateway.Telemetry.aws_request_key
    aws_mcp_gateway.Telemetry.count_one aws_mcp_gateway.Telemetry.has_status
    aws_mcp_gateway.Telemetry.parse_aws_request_key aws_mcp_gateway.Telemetry.recorded_requests
    aws_mcp_gateway.Dates.validate_cost_dates aws_mcp_gateway.Dates.parse_iso_date
    aws_mcp_gateway.Regions.resolve_regions aws_mcp_gateway.Js.Numbers.num_min
    aws_mcp_gateway.Execution.Call.answer_of aws_mcp_gateway.Execution.Call.run_handler
    aws_mcp_gateway.Execution.Call.with_execution aws_mcp_gateway.Telemetry.snapshot
    record_cache_status record_aws_request aws_mcp_gateway.Capabilities.is_aws_capability_id
    aws_mcp_gateway.Capabilities.get_aws_capability
    aws_mcp_gateway.Capabilities.aws_capability_registry
    aws_mcp_gateway.Execution.build_runtime_facts aws_mcp_gateway.Execution.add_all
    aws_mcp_gateway.Execution.empty_rows
call_tool-succeeded_example =
    call_tool-succeeded handler cost_tool policy february reset with_costs refl
