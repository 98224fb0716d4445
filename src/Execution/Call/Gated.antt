-- ===== src/Execution/Call/Gated.antt =====
-- What a call that succeeds has behind it.
use aws_mcp_gateway.Base.{◌≡◌, refl, ap, Option, none, some}
use aws_mcp_gateway.Errors.{Result, ok, thrown, GatewayError, >>=-ok}
use aws_mcp_gateway.Js.{Fields}
use aws_mcp_gateway.Manifest.{ToolManifest}
use aws_mcp_gateway.Policy.{ToolPolicyContext, evaluate_tool_policy}
use aws_mcp_gateway.Telemetry.{ExecutionCollector, reset}
use aws_mcp_gateway.Execution.Call.{
  McpSuccessResult, succeeded, failed, answer_of, Handler, run_handler, after_gate, call_tool,
}
use aws_mcp_gateway.Execution.Call.Results.{IsResultOf, with_execution-IsResultOf}

answered-ok :
    (result : Result McpSuccessResult) (r : McpSuccessResult)
    → answer_of result ≡ succeeded r
    → result ≡ ok r
unfolding answer_of
answered-ok (ok x) r h = ap ok (ap (λ a. elim a [ succeeded y ↦ y | failed e ↦ x ]) h)
answered-ok (thrown e) r h = absurd (cc h)

module _ (handler : Handler) (manifest : ToolManifest) (policy : ToolPolicyContext) where
  after_gate-succeeded :
      (denial : Option GatewayError) (args : Fields) (collector : ExecutionCollector)
      (r : McpSuccessResult)
      → (after_gate handler manifest policy denial args collector).1 ≡ succeeded r
      → (denial ≡ none)
        × ((before : McpSuccessResult) × (((handler args reset).1 ≡ ok before)
              × IsResultOf manifest (handler args reset).0 before r))
  unfolding after_gate answer_of run_handler
  after_gate-succeeded (some denial) args collector r h = absurd (cc h)
  after_gate-succeeded none args collector r h =
      let result = answered-ok _ r h in
      let (before, (ran, h1)) = >>=-ok (handler args reset).1 _ r result in
      (refl, (before, (ran, with_execution-IsResultOf manifest _ before r h1)))

  -- A call succeeds only if the gate has nothing against it and the handler, run on a collector that was reset, gave a
  -- result. Where the tool does not call AWS, or the structured content is missing or has a field `error`, that
  -- result is the answer. Else the answer has the same structured content, the metadata that is built from what the
  -- handler left in the collector (its requests and cache statuses), and the handler's texts, to which a tool of
  -- the class `paid` adds the visible note of the metadata, if there is one, behind a first text that is not empty.
  pub call_tool-succeeded :
      (args : Fields) (collector : ExecutionCollector) (r : McpSuccessResult)
      → (call_tool handler manifest policy args collector).1 ≡ succeeded r
      → (evaluate_tool_policy manifest policy args ≡ none)
        × ((before : McpSuccessResult) × (((handler args reset).1 ≡ ok before)
              × IsResultOf manifest (handler args reset).0 before r))
  unfolding call_tool
  call_tool-succeeded args collector r h = after_gate-succeeded _ args collector r h
