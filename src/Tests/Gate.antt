-- ===== src/Tests/Gate.antt =====
-- The policy gate, the exposure of tools and its configuration at concrete inputs.
use aws_mcp_gateway.Base.{
  inl, ◌-◌, strip_prefix, ℕ, ◌+◌, ◌*◌, ◌≤◌, ◌<◌, ◌≡◌, ◌≢◌, ◌↔◌, refl, ◌⊎◌, Bool, true, false,
  Option, none, some, String, List, [], ◌∷◌, Memᴰ, All, length, arith, ◌==◌, string_eq,
  if◌then◌else◌, trim,
}
use aws_mcp_gateway.Js.{Value, Fields, get, number, boolean, text, end, field}
use aws_mcp_gateway.Js.Numbers.{whole, nan}
use aws_mcp_gateway.Regions.{
  validate_region, resolve_regions, requested_or_all, validate_region_iff, resolve_regions_iff,
}
use aws_mcp_gateway.Dates.{parse_iso_date, validate_cost_dates}
use aws_mcp_gateway.Manifest.{
  ToolManifest, ToolCostControl, ResolvedToolExposure, paid, single_region, cached_read,
  aws_readonly, bounded_multi_region, resolve_exposed_tool_names,
}
use aws_mcp_gateway.Manifest.Exposed.{Exposes, resolve_exposed_tool_names_iff}
use aws_mcp_gateway.Exposure.Valid.{
  NamesPacks, NamesTools, NamesRisk, validate_tool_exposure_config_iff,
}
use aws_mcp_gateway.Exposure.{validate_tool_exposure_config}
use aws_mcp_gateway.Policy.{
  PolicySettings, build_tool_policy_context, ToolPolicyContext, evaluate_tool_policy,
}
use aws_mcp_gateway.Policy.CostControl.{
  validate_cost_control_manifest, validate_cost_control_request,
}
use aws_mcp_gateway.Policy.Gate.{Admits, evaluate_tool_policy_iff}
use aws_mcp_gateway.Policy.Scopes.{has_required_scopes}
use aws_mcp_gateway.Tests.Inputs.{two_regions, may_2024_ms}

-- a tool and its calls

abbrev pub cost_control : ToolCostControl
cost_control = record {
  class = some paid;
  requires_cache = some true;
  timeout_ms = some (whole 30000);
  max_regions = some (whole 2);
  max_date_range_days = some (whole 31);
  max_result_count = none;
  max_lookback_hours = none;
  min_cache_ttl_seconds = some (whole 300);
}

abbrev pub cost_tool : ToolManifest
cost_tool = record {
  name = "get_costs";
  pack = "cost";
  required_scopes = some ("aws:read" ∷ []);
  services = "ce" ∷ [];
  actions = "ce:GetCostAndUsage" ∷ [];
  capabilities = "ce:GetCostAndUsage" ∷ [];
  region_mode = bounded_multi_region;
  readonly = true;
  risk_level = "low";
  cache_ttl_seconds = whole 3600;
  timeout_ms = some (whole 30000);
  cost_class = cached_read;
  cost_control = some cost_control;
  get_region = λ args. none;
  descriptor_kind = aws_readonly;
}

abbrev exposure : ResolvedToolExposure
exposure = record {
  enabled_tool_packs = "cost" ∷ [];
  enabled_tools = [];
  disabled_tools = [];
  max_risk_level = "low";
}

abbrev pub policy : ToolPolicyContext
policy = record {
  enabled_tool_names = "get_costs" ∷ [];
  enabled_packs = "cost" ∷ [];
  max_risk_level = "low";
  allowed_aws_services = "ce" ∷ [];
  allowed_aws_actions = "ce:GetCostAndUsage" ∷ [];
  allowed_regions = two_regions;
  granted_scopes = "aws:read" ∷ [];
  now_ms = may_2024_ms;
}

abbrev pub february : Fields
february = field "startDate" (text "2024-02-01") (field "endDate" (text "2024-02-20") end)

resolve_exposed_tool_names_iff_example : Exposes exposure (cost_tool ∷ []) "get_costs"
unfolding resolve_exposed_tool_names aws_mcp_gateway.Base.includes aws_mcp_gateway.Base.set_add
resolve_exposed_tool_names_iff_example =
    (resolve_exposed_tool_names_iff exposure (cost_tool ∷ []) "get_costs").0 (Memᴰ.head refl)

abbrev settings : PolicySettings
settings = record { tool_exposure = exposure; regions = two_regions; scopes = none }

evaluate_tool_policy_iff_example : Admits cost_tool policy february
unfolding evaluate_tool_policy aws_mcp_gateway.Policy.validate_manifest_structure
    aws_mcp_gateway.Base.includes aws_mcp_gateway.Policy.validate_granted_scopes has_required_scopes
    aws_mcp_gateway.Policy.validate_aws_metadata aws_mcp_gateway.Manifest.is_aws_backed_manifest
    validate_cost_control_manifest aws_mcp_gateway.Js.Numbers.is_positive_integer
    aws_mcp_gateway.Js.Numbers.num_eq aws_mcp_gateway.Js.Numbers.num_lt
    aws_mcp_gateway.Policy.validate_requested_regions
    aws_mcp_gateway.Regions.validate_allowed_regions get validate_cost_control_request
    validate_cost_dates parse_iso_date resolve_regions aws_mcp_gateway.Js.Numbers.num_min
evaluate_tool_policy_iff_example = (evaluate_tool_policy_iff cost_tool policy february).0 refl

-- the exposure of a deployment

abbrev bindings : Fields
bindings =
    field "AWS_MCP_ENABLED_TOOL_PACKS" (text "cost, core")
      (field "AWS_MCP_DISABLED_TOOLS" (text "  ") end)

validate_tool_exposure_config_iff_example :
    ((((◌≡◌ {A = List String} [] []) × NamesPacks (some "cost, core")) × NamesTools none)
      × NamesTools none)
    × NamesRisk none
unfolding validate_tool_exposure_config aws_mcp_gateway.Exposure.parse_max_risk_level
    aws_mcp_gateway.Exposure.read_optional_string get aws_mcp_gateway.Exposure.parse_tool_name_list
    trim aws_mcp_gateway.Exposure.parse_pack_list aws_mcp_gateway.Base.comma_list
    aws_mcp_gateway.Base.includes
validate_tool_exposure_config_iff_example = (validate_tool_exposure_config_iff bindings []).0 refl
