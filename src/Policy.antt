-- ===== src/Policy.antt =====
-- mcp/tools/policy.ts: the gate in front of every tool handler. The cost limits are in the child
-- CostControl, whose results this file composes.
pub mod CostControl
pub mod Scopes
mod Checks
pub mod Admits
pub mod Gate
pub mod Context
use aws_mcp_gateway.Base.{
  Bool, true, false, Option, none, some, String, List, [], ◌∷◌, ◌==◌, ◌!=◌, string_eq, includes,
  is_empty, if◌then◌else◌, not, ◌||◌, ◌<|>◌, ℕ, or_else, keep, set_add_all,
}
use mathlib.Core.List.{flat_map}
use aws_mcp_gateway.Errors.{GatewayError, Result, ok, thrown}
use aws_mcp_gateway.Js.{Fields, get, as_text, as_texts}
use aws_mcp_gateway.Regions.{validate_allowed_regions, validate_region, resolve_regions}
use aws_mcp_gateway.Manifest.{
  ToolManifest, ResolvedToolExposure, AwsRegionMode, no_region, global, single_region,
  bounded_multi_region, is_aws_backed_manifest, resolve_exposed_tool_names,
}
use Scopes.{has_required_scopes}
use CostControl.{
  policy_denial, reject_if, as_denial, validate_cost_control_manifest,
  validate_cost_control_request,
}

-- `ToolPolicyContext`, less `authMode` and `requiredScopes`, which the gate does not read, and with
-- the time, which it asks the platform for
pub record ToolPolicyContext : Type 0 where
  pub enabled_tool_names : List String
  pub enabled_packs : List String
  pub max_risk_level : String
  pub allowed_aws_services : List String
  pub allowed_aws_actions : List String
  pub allowed_regions : List String
  pub granted_scopes : List String
  pub now_ms : ℕ

-- `KNOWN_TOOL_PACKS`
abbrev pub known_tool_packs : List String
known_tool_packs =
    "core" ∷ "cost" ∷ "inventory" ∷ "observability" ∷ "database" ∷ "security" ∷ "aggregates"
    ∷ "application-ops" ∷ []

-- `validateManifestStructure`
unfoldable pub validate_manifest_structure : ToolManifest → Option GatewayError
validate_manifest_structure manifest =
    reject_if (is_empty manifest.name) "Tool manifest is malformed."
    <|> reject_if (not (includes known_tool_packs manifest.pack)) "Tool manifest is malformed."
    <|> reject_if (is_empty manifest.risk_level) "Tool manifest is malformed."
    <|> reject_if (not manifest.readonly) "Tool manifest is malformed."

has_none : List String → Bool
has_none [] = true
has_none (s ∷ ss) = false

-- the two loops of `validateAwsMetadata`
all_allowed : List String → List String → String → Option GatewayError
all_allowed allowed [] message = none
all_allowed allowed (s ∷ ss) message =
    reject_if (not (includes allowed s)) message <|> all_allowed allowed ss message

-- `validateAwsMetadata`
unfoldable pub validate_aws_metadata : ToolManifest → ToolPolicyContext → Option GatewayError
unfolding has_none all_allowed
validate_aws_metadata manifest policy =
    if is_aws_backed_manifest manifest
    then (reject_if (has_none manifest.services || has_none manifest.actions)
          "Tool is missing required AWS metadata."
        <|> all_allowed policy.allowed_aws_services manifest.services
            "Tool AWS service is not allowed."
        <|> all_allowed policy.allowed_aws_actions manifest.actions
            "Tool AWS action is not allowed.")
    else none

-- `getRegion?.(args) ?? (typeof args.region === "string" ? args.region : undefined)`
unfoldable pub requested_region : ToolManifest → Fields → Option String
requested_region manifest args = elim (manifest.get_region args) [
  | some region ↦ some region
  | none ↦ as_text (get "region" args)
]

-- `if (region) { … }`: an empty text asks for no region
region_denial : List String → Option String → Option GatewayError
region_denial allowed none = none
region_denial allowed (some region) =
    if is_empty region then none else as_denial (validate_region region allowed)

regions_denial : List String → Option (List String) → Option GatewayError
regions_denial allowed none = none
regions_denial allowed (some []) = none
regions_denial allowed (some (r ∷ rs)) = as_denial (resolve_regions (some (r ∷ rs)) allowed)

unfoldable pub mode_denial :
    AwsRegionMode → ToolManifest → ToolPolicyContext → Fields → Option GatewayError
unfolding requested_region region_denial regions_denial
mode_denial no_region manifest policy args = none
mode_denial global manifest policy args = none
mode_denial single_region manifest policy args =
    as_denial (validate_allowed_regions policy.allowed_regions)
    <|> region_denial policy.allowed_regions (requested_region manifest args)
mode_denial bounded_multi_region manifest policy args =
    as_denial (validate_allowed_regions policy.allowed_regions)
    <|> regions_denial policy.allowed_regions (as_texts (get "regions" args))

-- `validateRequestedRegions`
unfoldable pub validate_requested_regions :
    ToolManifest → ToolPolicyContext → Fields → Option GatewayError
unfolding mode_denial
validate_requested_regions manifest policy args =
    mode_denial manifest.region_mode manifest policy args

unfoldable pub scopes_denial : List String → Option (List String) → Option GatewayError
scopes_denial granted none = some (policy_denial "Tool manifest is malformed.")
scopes_denial granted (some []) = some (policy_denial "Tool manifest is malformed.")
scopes_denial granted (some (s ∷ ss)) =
    reject_if (not (has_required_scopes granted (s ∷ ss))) "Required scope is not granted."

-- `validateGrantedScopes`
unfoldable pub validate_granted_scopes : ToolManifest → ToolPolicyContext → Option GatewayError
unfolding scopes_denial
validate_granted_scopes manifest policy =
    scopes_denial policy.granted_scopes manifest.required_scopes

-- `evaluateToolPolicy`: `none` lets the handler run
unfoldable pub evaluate_tool_policy :
    ToolManifest → ToolPolicyContext → Fields → Option GatewayError
evaluate_tool_policy manifest policy args =
    validate_manifest_structure manifest
    <|> reject_if (not (includes policy.enabled_tool_names manifest.name)) "Tool is not enabled."
    <|> reject_if (not (includes policy.enabled_packs manifest.pack)) "Tool pack is not enabled."
    <|> reject_if (manifest.risk_level != policy.max_risk_level) "Tool risk level is not allowed."
    <|> validate_granted_scopes manifest policy
    <|> validate_aws_metadata manifest policy
    <|> validate_cost_control_manifest manifest
    <|> validate_requested_regions manifest policy args
    <|> validate_cost_control_request manifest policy.now_ms policy.allowed_regions args

-- What of a `GatewayContext` the gate is built from.
pub record PolicySettings : Type 0 where
  pub tool_exposure : ResolvedToolExposure
  pub regions : List String
  pub scopes : Option (List String)

-- `manifests.filter((manifest) => enabledToolNames.has(manifest.name))`
unfoldable pub exposed_manifests : List String → List ToolManifest → List ToolManifest
exposed_manifests names manifests = keep (λ m. includes names m.name) manifests

-- `buildToolPolicyContext` with no overrides
unfoldable pub build_tool_policy_context :
    PolicySettings → ℕ → List ToolManifest → ToolPolicyContext
unfolding exposed_manifests
build_tool_policy_context ctx now_ms manifests =
    let names = resolve_exposed_tool_names manifests ctx.tool_exposure in
    let exposed = exposed_manifests names manifests in
    record {
      enabled_tool_names = names;
      enabled_packs = ctx.tool_exposure.enabled_tool_packs;
      max_risk_level = ctx.tool_exposure.max_risk_level;
      allowed_aws_services = set_add_all [] (flat_map (λ m. m.services) exposed);
      allowed_aws_actions = set_add_all [] (flat_map (λ m. m.actions) exposed);
      allowed_regions = ctx.regions;
      granted_scopes = or_else ctx.scopes ("aws:read" ∷ []);
      now_ms = now_ms;
    }
