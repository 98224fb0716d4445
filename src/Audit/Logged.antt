-- ===== src/Audit/Logged.antt =====
-- What a call of a tool leaves in the audit log.
use aws_mcp_gateway.Base.{
  ◌≡◌, refl, ◌↔◌, ◌⊎◌, inl, inr, ℕ, Bool, Option, some, String, ◌∷◌, Memᴰ, arith,
}
use aws_mcp_gateway.Errors.{GatewayError, Result, ok, thrown, GatewayErrorCode, validation_error}
use aws_mcp_gateway.Js.{Fields}
use aws_mcp_gateway.Execution.Call.{McpSuccessResult}
use aws_mcp_gateway.Audit.{
  AuditEvent, failure, ToolAuditMeta, Log, Stream, out, attempted, build_audit_payload, stream_of,
  is_controlled, outcome_of, written, emitted, emit_audit_event, safe_emit_audit_event,
  safe_mcp_handler,
}
use aws_mcp_gateway.Audit.Blind.{blank, summaries, summary-blank}

-- The handler answered, or it threw an error of validation.
abbrev pub IsExpected : Result McpSuccessResult → Type 0
IsExpected (ok result) = Unit
IsExpected (thrown error) = error.code ≡ validation_error

failure-out_iff :
    (code : GatewayErrorCode) (retryable : Bool)
    → (stream_of (failure code retryable) ≡ out) ↔ (code ≡ validation_error)
unfolding stream_of is_controlled
failure-out_iff code retryable = ground arith

outcome-out_iff :
    (result : Result McpSuccessResult) → (stream_of (outcome_of result) ≡ out) ↔ IsExpected result
unfolding outcome_of stream_of is_controlled
outcome-out_iff (ok result) = (λ h. tt, λ h. refl)
outcome-out_iff (thrown error) = failure-out_iff error.code error.retryable

-- a tool that tells a summary of its arguments
abbrev pub meta_of :
    String
    → Option String
    → Option (Fields → Result (Option String))
    → (Fields → Fields)
    → ToolAuditMeta
meta_of tool_name aws_service get_region summary = record {
  tool_name = tool_name;
  aws_service = aws_service;
  get_region = get_region;
  sanitize_input = some (λ args. ok (summary args));
}

module _ (stringify : AuditEvent → Result String)
    (write : Stream → String → Result (Unit {0})) where
  -- The event cannot be made into text, or the console throws on the text.
  abbrev pub IsUnwritten : AuditEvent → Type 0
  IsUnwritten event =
      ((e : GatewayError) × (stringify event ≡ thrown e))
      ⊎ ((line : String) × (e : GatewayError) × (stringify event ≡ ok line)
          × (write (stream_of event.outcome) line ≡ thrown e))

  -- The log has grown by the line of the event, or it is as it was since the event cannot be written.
  abbrev pub IsOneLine : AuditEvent → Log → Log → Type 0
  IsOneLine event log log' =
      ((log' ≡ log) × IsUnwritten event)
      ⊎ ((line : String) × (stringify event ≡ ok line)
          × (log' ≡ (stream_of event.outcome, line) ∷ log))

  written-IsOneLine :
      (event : AuditEvent) (line : String) (w : Result (Unit {0})) (log : Log)
      → stringify event ≡ ok line
      → write (stream_of event.outcome) line ≡ w
      → IsOneLine event log (written stringify write (stream_of event.outcome) line w log).1
  unfolding written
  written-IsOneLine event line (ok _) log h k = inr (line, h, refl)
  written-IsOneLine event line (thrown e) log h k = inl (refl, inr (line, e, h, k))

  emitted-IsOneLine :
      (event : AuditEvent) (text : Result String) (log : Log)
      → stringify event ≡ text
      → IsOneLine event log (emitted stringify write event.outcome text log).1
  unfolding emitted
  emitted-IsOneLine event (thrown e) log h = inl (refl, inl (e, h))
  emitted-IsOneLine event (ok line) log h =
      written-IsOneLine event line (write (stream_of event.outcome) line) log h refl

  -- Whatever a tool comes to, its call adds to the log the line of its event, and leaves the log as it was
  -- only where the event cannot be made into text or the console throws; the line goes to the standard
  -- output exactly where the tool answered or threw an error of validation.
  pub safe_mcp_handler-IsLogged :
      (meta : ToolAuditMeta) (args : Fields) (duration_ms : ℕ) (result : Result McpSuccessResult)
      (log : Log)
      → IsOneLine
          (build_audit_payload meta args (outcome_of result) duration_ms)
          log
          (safe_mcp_handler stringify write meta args duration_ms result log).1
        × ((stream_of (outcome_of result) ≡ out) ↔ IsExpected result)
  unfolding safe_mcp_handler safe_emit_audit_event emit_audit_event build_audit_payload
  safe_mcp_handler-IsLogged meta args duration_ms result log = (
    emitted-IsOneLine (build_audit_payload meta args (outcome_of result) duration_ms) (stringify _)
        log refl,
    outcome-out_iff result,
  )

  -- Two calls that come to the same in the same time leave the same log where the arguments of one are
  -- those of the other with blanked contents, if what the tool tells of its arguments is one of the
  -- summaries, and if it takes the same region from both.
  pub safe_mcp_handler-blank :
      (tool_name : String) (aws_service : Option String)
      (get_region : Option (Fields → Result (Option String))) (summary : Fields → Fields)
      (args : Fields) (duration_ms : ℕ) (result : Result McpSuccessResult) (log : Log)
      → Memᴰ summary summaries
      → attempted get_region (blank args) ≡ attempted get_region args
      → safe_mcp_handler stringify write
          (meta_of tool_name aws_service get_region summary)
          (blank args)
          duration_ms
          result
          log
        ≡ safe_mcp_handler stringify write
            (meta_of tool_name aws_service get_region summary)
            args
            duration_ms
            result
            log
  unfolding safe_mcp_handler build_audit_payload
  safe_mcp_handler-blank tool_name aws_service get_region summary args duration_ms result log m
        region =
      rw (region, summary-blank summary args m)
