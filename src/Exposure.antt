-- ===== src/Exposure.antt =====
-- config/tool-exposure.ts: which packs, tools and risk level the bindings of a deployment enable. An
-- error is pushed onto the list that every reader of a binding takes and returns.
pub mod Valid
use aws_mcp_gateway.Base.{
  Bool, true, false, Option, none, some, String, List, [], ◌∷◌, ◌++◌, includes, string_eq,
  comma_list, trim, is_empty, if◌then◌else◌, ◌<>◌, set_add_all,
}
use aws_mcp_gateway.Js.{Value, Fields, get, as_text}
use aws_mcp_gateway.Manifest.{ResolvedToolExposure}
use aws_mcp_gateway.Policy.{known_tool_packs}

-- `DEFAULT_ENABLED_TOOL_PACKS`
abbrev pub default_enabled_tool_packs : List String
default_enabled_tool_packs = "core" ∷ "cost" ∷ "inventory" ∷ "observability" ∷ "database" ∷ []

-- `PUBLIC_TOOL_NAMES`
unfoldable pub public_tool_names : List String
public_tool_names =
    "search" ∷ "fetch" ∷ "get_gateway_status" ∷ "get_aws_cost_summary" ∷ "get_aws_cost_by_service"
    ∷ "list_ec2_instances" ∷ "get_cloudwatch_alarms" ∷ "get_cloudwatch_logs"
    ∷ "get_cloudwatch_alarm_summary" ∷ "get_recent_log_errors" ∷ "list_lambda_functions"
    ∷ "list_s3_buckets" ∷ "list_log_groups" ∷ "get_ecs_service_health" ∷ "list_ecs_tasks"
    ∷ "get_recent_stopped_ecs_tasks" ∷ "get_rds_instance_health" ∷ "get_rds_metrics"
    ∷ "check_ssm_parameter_inventory" ∷ "get_ecr_image_status" ∷ "compare_ecs_task_image_with_ecr"
    ∷ "get_s3_bucket_posture" ∷ "get_ses_configuration_status" ∷ "get_sns_topic_status"
    ∷ "get_eventbridge_rules_status" ∷ "get_budget_status" ∷ "aws_account_overview"
    ∷ "aws_cost_overview" ∷ "aws_observability_overview" ∷ "list_application_profiles"
    ∷ "get_application_environment_overview" ∷ "get_application_compute_status"
    ∷ "get_application_database_status" ∷ "get_application_logs"
    ∷ "get_application_secret_inventory" ∷ "get_application_artifact_status"
    ∷ "get_application_alerting_status" ∷ "get_application_cost_status" ∷ []

-- `SUPPORTED_RISK_LEVELS`
abbrev pub supported_risk_levels : List String
supported_risk_levels = "read-only" ∷ []

-- `DEFAULT_MAX_RISK_LEVEL`
abbrev pub default_max_risk_level : String
default_max_risk_level = "read-only"

-- `defaultResolvedToolExposure`
unfoldable pub default_resolved_tool_exposure : ResolvedToolExposure
default_resolved_tool_exposure = record {
  enabled_tool_packs = default_enabled_tool_packs;
  enabled_tools = [];
  disabled_tools = [];
  max_risk_level = default_max_risk_level;
}

-- the loop of `parsePackList`
pack_loop : String → List String → List String → List String × List String
pack_loop key errors [] = ([], errors)
pack_loop key errors (entry ∷ rest) =
    let (packs, errors') = pack_loop key errors rest in
    let skipped = pack_loop key (errors ++ (key <> " (unknown pack: " <> entry <> ")") ∷ []) rest in
    if includes known_tool_packs entry then (entry ∷ packs, errors') else skipped

pack_entries : String → List String → List String → List String → List String × List String
unfolding pack_loop
pack_entries key errors fallback [] = (fallback, errors ++ (key <> " (empty after parsing)") ∷ [])
pack_entries key errors fallback (entry ∷ rest) = pack_loop key errors (entry ∷ rest)

-- `parsePackList`
unfoldable pub parse_pack_list :
    Option String → String → List String → List String → List String × List String
unfolding pack_entries
parse_pack_list none key errors fallback = (fallback, errors)
parse_pack_list (some raw) key errors fallback = pack_entries key errors fallback (comma_list raw)

-- the loop of `parseToolNameList`
name_errors : String → List String → List String → List String
name_errors key errors [] = errors
name_errors key errors (entry ∷ rest) =
    name_errors key
      (if includes public_tool_names entry
        then errors
        else errors ++ (key <> " (unknown tool: " <> entry <> ")") ∷ [])
      rest

-- `parseToolNameList`
unfoldable pub parse_tool_name_list :
    Option String → String → List String → List String × List String
unfolding name_errors
parse_tool_name_list none key errors = ([], errors)
parse_tool_name_list (some raw) key errors =
    (comma_list raw, name_errors key errors (comma_list raw))

-- `parseMaxRiskLevel`
unfoldable pub parse_max_risk_level :
    Option String → String → List String → String → String × List String
parse_max_risk_level none key errors fallback = (fallback, errors)
parse_max_risk_level (some raw) key errors fallback =
    if includes supported_risk_levels raw
    then (raw, errors)
    else (fallback, errors ++ (key <> " (unsupported risk level: " <> raw <> ")") ∷ [])

present : Option String → Option String
present none = none
present (some value) = if is_empty (trim value) then none else some (trim value)

-- `readOptionalString`
unfoldable pub read_optional_string : Fields → String → Option String
unfolding present
read_optional_string bindings key = present (as_text (get key bindings))

unless_errors : List String → ResolvedToolExposure → Option ResolvedToolExposure
unless_errors [] exposure = some exposure
unless_errors (e ∷ es) exposure = none

-- `validateToolExposureConfig`, with the errors as it leaves them
unfoldable pub validate_tool_exposure_config :
    Fields → List String → Option ResolvedToolExposure × List String
unfolding unless_errors
validate_tool_exposure_config bindings errors =
    let (packs, errors1) =
      parse_pack_list (read_optional_string bindings "AWS_MCP_ENABLED_TOOL_PACKS")
        "AWS_MCP_ENABLED_TOOL_PACKS" errors default_enabled_tool_packs in
    let (tools, errors2) =
      parse_tool_name_list (read_optional_string bindings "AWS_MCP_ENABLED_TOOLS")
        "AWS_MCP_ENABLED_TOOLS" errors1 in
    let (disabled, errors3) =
      parse_tool_name_list (read_optional_string bindings "AWS_MCP_DISABLED_TOOLS")
        "AWS_MCP_DISABLED_TOOLS" errors2 in
    let (risk, errors4) =
      parse_max_risk_level (read_optional_string bindings "AWS_MCP_MAX_RISK_LEVEL")
        "AWS_MCP_MAX_RISK_LEVEL" errors3 default_max_risk_level in
    (
      unless_errors errors4 (record {
        enabled_tool_packs = set_add_all [] packs;
        enabled_tools = tools;
        disabled_tools = set_add_all [] disabled;
        max_risk_level = risk;
      }),
      errors4,
    )
