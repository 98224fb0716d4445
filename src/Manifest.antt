-- ===== src/Manifest.antt =====
-- mcp/tools/manifest.ts, config/tool-exposure.ts (`ResolvedToolExposure`) and mcp/tools/packs.ts: what
-- a tool declares of itself, and which tools an exposure lets out. Fields that the policy tests for
-- absence are optional here, as they may be at run time; an absent text is the empty one.
pub mod Exposed
use aws_mcp_gateway.Base.{
  ℕ, Bool, true, false, ◌&&◌, Option, none, some, String, List, [], ◌∷◌, ◌==◌, string_eq, includes,
  is_empty, if◌then◌else◌, not, ◌||◌, set_add,
}
use aws_mcp_gateway.Js.{Fields}
use aws_mcp_gateway.Js.Numbers.{Num}

pub data AwsRegionMode : Type 0 where
  no_region global single_region bounded_multi_region : AwsRegionMode

pub data CostClass : Type 0 where
  no_cost cached_read : CostClass

pub data CostControlClass : Type 0 where
  free low paid volume_sensitive fanout_sensitive : CostControlClass

pub data ToolDescriptorKind : Type 0 where
  aws_readonly local_status chatgpt_discovery : ToolDescriptorKind

pub record ToolCostControl : Type 0 where
  pub class : Option CostControlClass
  pub requires_cache : Option Bool
  pub timeout_ms : Option Num
  pub max_regions : Option Num
  pub max_date_range_days : Option Num
  pub max_result_count : Option Num
  pub max_lookback_hours : Option Num
  pub min_cache_ttl_seconds : Option Num

pub record ToolManifest : Type 0 where
  pub name : String
  pub pack : String
  pub required_scopes : Option (List String)
  pub services : List String
  pub actions : List String
  pub capabilities : List String
  pub region_mode : AwsRegionMode
  pub readonly : Bool
  pub risk_level : String
  pub cache_ttl_seconds : Num
  pub timeout_ms : Option Num
  pub cost_class : CostClass
  pub cost_control : Option ToolCostControl
  pub get_region : Fields → Option String
  pub descriptor_kind : ToolDescriptorKind

pub record ResolvedToolExposure : Type 0 where
  pub enabled_tool_packs : List String
  pub enabled_tools : List String
  pub disabled_tools : List String
  pub max_risk_level : String

-- `enabledToolAllowlist && !enabledToolAllowlist.has(name)` does not skip the tool
allowlisted : List String → String → Bool
allowlisted [] name = true
allowlisted (t ∷ ts) name = includes (t ∷ ts) name

-- the four tests of the loop in `resolveExposedToolNames`
is_exposed : ResolvedToolExposure → ToolManifest → Bool
unfolding allowlisted
is_exposed exposure manifest =
    includes exposure.enabled_tool_packs manifest.pack
    && (not (includes exposure.disabled_tools manifest.name)
        && (allowlisted exposure.enabled_tools manifest.name
            && (manifest.risk_level == exposure.max_risk_level)))

expose : ResolvedToolExposure → List String → List ToolManifest → List String
unfolding is_exposed
expose exposure exposed [] = exposed
expose exposure exposed (manifest ∷ rest) =
    expose exposure
      (if is_exposed exposure manifest then set_add exposed manifest.name else exposed) rest

-- `resolveExposedToolNames`
unfoldable pub resolve_exposed_tool_names : List ToolManifest → ResolvedToolExposure → List String
unfolding expose
resolve_exposed_tool_names manifests exposure = expose exposure [] manifests

-- `isAwsBackedManifest`
unfoldable pub is_aws_backed_manifest : ToolManifest → Bool
is_aws_backed_manifest manifest = elim manifest.descriptor_kind [ aws_readonly ↦ true | _ ↦ false ]
