-- ===== src/Execution/Call.antt =====
-- mcp/tools/manifest.ts (`wrapManifestHandler`), mcp/tools/response.ts, mcp/execution/attach.ts and
-- billing-content.ts: the call of a tool. The handler of the tool is a parameter, which may count requests,
-- answer or throw; what a call leaves in the audit log is in Audit.
pub mod Results
pub mod Gated
use aws_mcp_gateway.Base.{
  ℕ, ◌%◌, ◌/◌, Bool, true, false, ◌&&◌, ◌||◌, not, Option, none, some, String, List, [], ◌∷◌, ltb,
  is_empty, show, ◌<>◌, ◌==◌, string_eq, if◌then◌else◌,
}
use aws_mcp_gateway.Errors.{Result, ok, thrown, GatewayError, GatewayErrorCode, ◌>>=◌}
use aws_mcp_gateway.Js.{Fields, end, field}
use aws_mcp_gateway.Manifest.{
  ToolManifest, ToolCostControl, CostControlClass, paid, is_aws_backed_manifest,
}
use aws_mcp_gateway.Policy.{ToolPolicyContext, evaluate_tool_policy}
use aws_mcp_gateway.Telemetry.{
  CacheStatus, hit, disabled, unavailable, ExecutionCollector, reset, snapshot, RecordedAwsRequest,
}
use aws_mcp_gateway.Execution.{ToolExecutionMetadata, ExecutionRuntimeFacts, build_runtime_facts}
use aws_mcp_gateway.Execution.Metadata.{unexpected, build_aws_execution_metadata}

-- `McpSuccessResult`: the texts of the content, the structured content, and its field `execution`, which
-- `attachExecutionMetadata` sets. An error result that a handler returns has the field `error` in its
-- structured content, and is one of these here.
pub record McpSuccessResult : Type 0 where
  pub content : List String
  pub structured_content : Option Fields
  pub execution : Option ToolExecutionMetadata

-- what `mcpErrorResult` makes of an error
pub record McpErrorResult : Type 0 where
  pub text : String
  pub code : GatewayErrorCode
  pub retryable : Bool

pub data McpAnswer : Type 0 where
  succeeded : McpSuccessResult → McpAnswer
  failed : McpErrorResult → McpAnswer

-- `mcpErrorResult`
unfoldable pub mcp_error_result : GatewayError → McpErrorResult
mcp_error_result error = record {
  text = error.message;
  code = error.code;
  retryable = error.retryable;
}

-- `key in record`
has_key : String → Fields → Bool
has_key key end = false
has_key key (field k v fs) = k == key || has_key key fs

-- `(cents / 100).toFixed(2)`
two_decimals : ℕ → String
two_decimals cents = show (cents / 100) <> "." <> show (cents / 10 % 10) <> show (cents % 10)

-- `formatVisibleBillingNote`
unfoldable pub format_visible_billing_note : ToolExecutionMetadata → Option String
unfolding two_decimals
format_visible_billing_note m = elim m.cache.status [
  | hit ↦ some "Billing note: served from cache. No new AWS Cost Explorer API request was made."
  | disabled ↦ none
  | unavailable ↦ none
  | _ ↦
      if m.billing.charged && ltb 0 m.billing.estimated_cost
      then some (
          "Billing note: served from AWS Cost Explorer, not cache. Estimated AWS API cost: US$ "
          <> two_decimals m.billing.estimated_cost
          <> ".")
      else none
]

-- `appendVisibleBillingNoteToContent`
unfoldable pub append_note : Option String → List String → List String
append_note none content = content
append_note (some note) [] = []
append_note (some note) (first ∷ rest) =
    if is_empty first then first ∷ rest else (first <> "\n\n" <> note) ∷ rest

is_paid : Option CostControlClass → Bool
is_paid (some paid) = true
is_paid class = false

has_paid_class : Option ToolCostControl → Bool
unfolding is_paid
has_paid_class none = false
has_paid_class (some control) = is_paid control.class

-- `shouldAppendVisibleBillingNote`: the class `paid` is the one priced per request
unfoldable pub should_append_note : ToolManifest → Bool
unfolding has_paid_class
should_append_note manifest = has_paid_class manifest.cost_control

-- the result with the metadata, and with the note in its content
with_metadata : ToolManifest → McpSuccessResult → ToolExecutionMetadata → McpSuccessResult
with_metadata manifest result m = record {
  content =
      if should_append_note manifest
      then append_note (format_visible_billing_note m) result.content
      else result.content;
  structured_content = result.structured_content;
  execution = some m;
}

facts_of :
    ToolManifest
    → List CacheStatus
    → Option (List RecordedAwsRequest)
    → Option ExecutionRuntimeFacts
facts_of manifest statuses none = none
facts_of manifest statuses (some recorded) =
    build_runtime_facts manifest.capabilities statuses recorded

metadata_from : ToolManifest → Option ExecutionRuntimeFacts → Result ToolExecutionMetadata
metadata_from manifest none = thrown unexpected
metadata_from manifest (some facts) = build_aws_execution_metadata manifest facts

is_reported : Option Fields → Bool
unfolding has_key
is_reported none = false
is_reported (some fields) = not (has_key "error" fields)

-- what follows the handler
unfoldable pub with_execution :
    ToolManifest → ExecutionCollector → McpSuccessResult → Result McpSuccessResult
unfolding with_metadata facts_of metadata_from is_reported
with_execution manifest collector result =
    if is_aws_backed_manifest manifest && is_reported result.structured_content
    then (metadata_from manifest (facts_of manifest collector.cache_statuses (snapshot collector))
        >>= λ m. ok (with_metadata manifest result m))
    else ok result

-- the answer that `safeMcpHandler` makes of what a handler comes to
unfoldable pub answer_of : Result McpSuccessResult → McpAnswer
answer_of (ok result) = succeeded result
answer_of (thrown error) = failed (mcp_error_result error)

abbrev pub Handler : Type 0
Handler = Fields → ExecutionCollector → ExecutionCollector × Result McpSuccessResult

module _ (handler : Handler) (manifest : ToolManifest) (policy : ToolPolicyContext) where
  unfoldable pub run_handler : Fields → ExecutionCollector × Result McpSuccessResult
  run_handler args =
      let (collector, result) = handler args reset in
      (collector, result >>= with_execution manifest collector)

  after_gate : Option GatewayError → Fields → ExecutionCollector → ExecutionCollector × McpAnswer
  after_gate (some denial) args collector = (collector, answer_of (thrown denial))
  after_gate none args collector =
      let (collector', result) = run_handler args in (collector', answer_of result)

  -- `wrapManifestHandler`
  unfoldable pub call_tool : Fields → ExecutionCollector → ExecutionCollector × McpAnswer
  unfolding after_gate
  call_tool args collector = after_gate (evaluate_tool_policy manifest policy args) args collector
