-- ===== src/Tests/Audit.antt =====
-- The permissions of capabilities, and the audit log, at concrete inputs.
use aws_mcp_gateway.Base.{
  arith, string_eq_iff, string_eq_iff, Option, ℕ, ltb, if◌then◌else◌, ◌<>◌, All, ◌≡◌, refl, ◌↔◌,
  true, none, some, String, List, [], ◌∷◌, Memᴰ, includes, string_eq, IsSorted,
}
use aws_mcp_gateway.Errors.{Result, ok, thrown, gateway_error, rate_limited}
use aws_mcp_gateway.Js.{boolean, undefined, get, text, number, Fields, end, field}
use aws_mcp_gateway.Js.Numbers.{whole}
use aws_mcp_gateway.Capabilities.{is_read_only_iam_action}
use aws_mcp_gateway.Capabilities.Asked.{Asks, aws_actions_for_capabilities_lem}
use aws_mcp_gateway.Execution.Call.{McpSuccessResult}
use aws_mcp_gateway.Auth.KeySets.{resolve_each, IsCurrent, resolve_each-IsCurrent}
use aws_mcp_gateway.Logging.{sanitize_log_event, sanitize_value}
use aws_mcp_gateway.Logging.Short.{IsShort}
use aws_mcp_gateway.Logging.Safe.{sanitize_log_event-forbidden, sanitize_log_event_lem}
use aws_mcp_gateway.Audit.{
  ToolAuditMeta, AuditEvent, Stream, out, outcome_of, stream_of, build_audit_payload,
  safe_mcp_handler,
}
use aws_mcp_gateway.Audit.Inputs.{summarize_log_groups_input}
use aws_mcp_gateway.Audit.Blind.{blank}
use aws_mcp_gateway.Audit.Logged.{
  meta_of, IsOneLine, IsExpected, safe_mcp_handler-IsLogged, safe_mcp_handler-blank,
}

abbrev budget_and_tasks : List String
budget_and_tasks =
    "ecs:ListTasks" ∷ "budgets:DescribeBudgets" ∷ "budgets:DescribeNotificationsForBudget" ∷ []

abbrev their_actions : List String
their_actions = "budgets:ViewBudget" ∷ "ecs:ListTasks" ∷ []

aws_actions_for_capabilities_lem_example :
    IsSorted their_actions
    × ((a : String)
        → (includes their_actions a ≡ true) ↔ Asks (λ c. c.iam_action) budget_and_tasks a)
    × All (λ a. is_read_only_iam_action a ≡ true) their_actions
unfolding aws_mcp_gateway.Capabilities.aws_actions_for_capabilities
    aws_mcp_gateway.Capabilities.get_aws_capability
    aws_mcp_gateway.Capabilities.aws_capability_registry aws_mcp_gateway.Base.sort_texts
    aws_mcp_gateway.Base.set_add_all includes aws_mcp_gateway.Base.is_before
aws_actions_for_capabilities_lem_example =
    aws_actions_for_capabilities_lem budget_and_tasks their_actions refl

abbrev log_groups : Fields
log_groups = field "prefix" (text "/aws/lambda/payments") (field "limit" (number (whole 5)) end)

abbrev as_name : AuditEvent → Result String
as_name event = ok event.tool

abbrev to_console : Stream → String → Result (Unit {0})
to_console stream line = ok tt

abbrev meta : ToolAuditMeta
meta = meta_of "list_log_groups" (some "logs") none summarize_log_groups_input

abbrev too_many : Result McpSuccessResult
too_many = thrown (gateway_error rate_limited "Too many.")

safe_mcp_handler-blank_example :
    safe_mcp_handler as_name to_console meta (blank log_groups) 12 too_many []
    ≡ safe_mcp_handler as_name to_console meta log_groups 12 too_many []
unfolding blank aws_mcp_gateway.Audit.attempted
safe_mcp_handler-blank_example =
    safe_mcp_handler-blank as_name to_console "list_log_groups" (some "logs") none
      summarize_log_groups_input log_groups 12 too_many []
      (Memᴰ.tail
        (Memᴰ.tail (Memᴰ.tail (Memᴰ.tail (Memᴰ.tail (Memᴰ.tail (Memᴰ.tail (Memᴰ.head refl))))))))
      refl

safe_mcp_handler-IsLogged_example :
    IsOneLine as_name to_console
      (build_audit_payload meta log_groups (outcome_of too_many) 12)
      []
      (safe_mcp_handler as_name to_console meta log_groups 12 too_many []).1
    × ((stream_of (outcome_of too_many) ≡ out) ↔ IsExpected too_many)
safe_mcp_handler-IsLogged_example =
    safe_mcp_handler-IsLogged as_name to_console meta log_groups 12 too_many []

-- a key set for each URI, and none before the first second
abbrev key_sets : ℕ → String → Option String
key_sets now uri = if ltb now 1000 then none else some uri

resolve_each-IsCurrent_example : All (IsCurrent key_sets) (
    resolve_each key_sets none
      (("a", 5, 6) ∷ ("a", 1000, 1000) ∷ ("a", 2000, 2001) ∷ ("b", 2002, 2002) ∷ []))
resolve_each-IsCurrent_example =
    resolve_each-IsCurrent key_sets
      (("a", 5, 6) ∷ ("a", 1000, 1000) ∷ ("a", 2000, 2001) ∷ ("b", 2002, 2002) ∷ [])

abbrev log_event : Fields
log_event = field "phase" (text "mcp") (field "hasAuthorization" (boolean true) end)

sanitize_log_event-forbidden_example :
    get ("has" <> "Authorization" <> "") (sanitize_log_event log_event) ≡ undefined
sanitize_log_event-forbidden_example =
    sanitize_log_event-forbidden log_event "authorization" "has" "Authorization" "" (Memᴰ.head refl)
      (omega arith)

sanitize_log_event_lem_example :
    (get "phase" (sanitize_log_event log_event) ≡ sanitize_value (get "phase" log_event))
    × IsShort (get "phase" (sanitize_log_event log_event))
unfolding aws_mcp_gateway.Logging.is_forbidden_key aws_mcp_gateway.Profiles.Patterns.test
    aws_mcp_gateway.Profiles.Patterns.any_case
sanitize_log_event_lem_example =
    sanitize_log_event_lem log_event "phase" ((refl, tt), (tt, tt))
      (λ e. cc ((string_eq_iff "phase" "service").1 e)) refl
