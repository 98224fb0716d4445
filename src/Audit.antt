-- ===== src/Audit.antt =====
-- mcp/audit/log.ts, observability/audit.ts and mcp/tools/response.ts (`safeMcpHandler`): the event that a
-- call of a tool leaves in the audit log. `JSON.stringify` and the console, which may throw, are parameters.
pub mod Values
pub mod Inputs
pub mod Blind
pub mod Logged
use aws_mcp_gateway.Base.{
  Bool, ℕ, Option, none, some, String, List, ◌∷◌, ◌||◌, true, false, if◌then◌else◌,
}
use aws_mcp_gateway.Errors.{Result, ok, thrown, GatewayError, GatewayErrorCode, validation_error}
use aws_mcp_gateway.Js.{Fields}
use aws_mcp_gateway.Execution.Call.{McpSuccessResult, McpAnswer, answer_of}

-- the `outcome` of an event, with its `error`
pub data AuditOutcome : Type 0 where
  success : AuditOutcome
  failure : GatewayErrorCode → Bool → AuditOutcome

-- `AuditEvent`, less its field `event`, which never differs
pub record AuditEvent : Type 0 where
  pub tool : String
  pub outcome : AuditOutcome
  pub duration_ms : ℕ
  pub aws_service : Option String
  pub region : Option String
  pub input : Option Fields

-- `ToolAuditMeta`
pub record ToolAuditMeta : Type 0 where
  pub tool_name : String
  pub aws_service : Option String
  pub get_region : Option (Fields → Result (Option String))
  pub sanitize_input : Option (Fields → Result Fields)

-- the value of a function that is given and does not throw
unfoldable pub attempted : {A : Type 0} → Option (Fields → Result A) → Fields → Option A
attempted none args = none
attempted (some f) args = elim (f args) [ ok a ↦ some a | thrown e ↦ none ]

flat : Option (Option String) → Option String
flat none = none
flat (some region) = region

-- `buildAuditPayload`
unfoldable pub build_audit_payload : ToolAuditMeta → Fields → AuditOutcome → ℕ → AuditEvent
unfolding attempted flat
build_audit_payload meta args outcome duration_ms = record {
  tool = meta.tool_name;
  outcome = outcome;
  duration_ms = duration_ms;
  aws_service = meta.aws_service;
  region = flat (attempted meta.get_region args);
  input = attempted meta.sanitize_input args;
}

-- where a line of the log goes: `console.log` or `console.error`
pub data Stream : Type 0 where
  out err : Stream

-- `isControlled`
unfoldable pub is_controlled : AuditOutcome → Bool
is_controlled success = true
is_controlled (failure validation_error retryable) = true
is_controlled (failure code retryable) = false

unfoldable pub stream_of : AuditOutcome → Stream
unfolding is_controlled
stream_of outcome = if is_controlled outcome then out else err

-- the outcome of what a handler comes to
unfoldable pub outcome_of : Result McpSuccessResult → AuditOutcome
outcome_of (ok result) = success
outcome_of (thrown error) = failure error.code error.retryable

abbrev pub Log : Type 0
Log = List (Stream × String)

module _ (stringify : AuditEvent → Result String)
    (write : Stream → String → Result (Unit {0})) where
  -- a line written to the console, unless that throws
  written : Stream → String → Result (Unit {0}) → Log → Result (Unit {0}) × Log
  written stream line (ok _) log = (ok tt, (stream, line) ∷ log)
  written stream line (thrown e) log = (thrown e, log)

  emitted : AuditOutcome → Result String → Log → Result (Unit {0}) × Log
  unfolding written stream_of
  emitted outcome (thrown e) log = (thrown e, log)
  emitted outcome (ok line) log =
      written (stream_of outcome) line (write (stream_of outcome) line) log

  -- `emitAuditEvent`
  unfoldable pub emit_audit_event : AuditEvent → Log → Result (Unit {0}) × Log
  unfolding emitted
  emit_audit_event event log = emitted event.outcome (stringify event) log

  -- `safeEmitAuditEvent`
  unfoldable pub safe_emit_audit_event : AuditEvent → Log → Log
  unfolding emit_audit_event
  safe_emit_audit_event event log = (emit_audit_event event log).1

  -- `safeMcpHandler`, from what the handler came to and how long it took
  unfoldable pub safe_mcp_handler :
      ToolAuditMeta → Fields → ℕ → Result McpSuccessResult → Log → McpAnswer × Log
  unfolding safe_emit_audit_event build_audit_payload outcome_of answer_of
  safe_mcp_handler meta args duration_ms result log = (
    answer_of result,
    safe_emit_audit_event (build_audit_payload meta args (outcome_of result) duration_ms) log,
  )
