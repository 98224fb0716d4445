-- ===== src/Policy/Gate.antt =====
-- The gate as a whole: which calls of which tools it lets through, and what follows for the regions.
use aws_mcp_gateway.Base.{
  ◌≡◌, ◌↔◌, ◌⊎◌, false, none, Memᴰ, <|>_iff, string_eq, string_eq_iff, includes_iff,
}
use aws_mcp_gateway.Js.{Fields}
use aws_mcp_gateway.Manifest.{ToolManifest, is_aws_backed_manifest}
use aws_mcp_gateway.Policy.{
  ToolPolicyContext, evaluate_tool_policy, validate_granted_scopes, validate_requested_regions,
}
use aws_mcp_gateway.Policy.Admits.{
  IsWellFormed, HasScopes, HasAwsMetadata, RegionsFit, structure_iff, scopes_iff, metadata_iff,
  mode_iff,
}
use aws_mcp_gateway.Policy.Checks.{reject-not_iff}
use aws_mcp_gateway.Policy.CostControl.Admitted.{
  IsCostControlled, RequestFits, validate_cost_control_manifest_iff,
  validate_cost_control_request_iff,
}

-- A call that every rule of the gateway allows.
abbrev pub Admits : ToolManifest → ToolPolicyContext → Fields → Type 0
Admits m p args =
    IsWellFormed m
    × (Memᴰ m.name p.enabled_tool_names
        × (Memᴰ m.pack p.enabled_packs
            × ((m.risk_level ≡ p.max_risk_level)
                × (HasScopes p.granted_scopes m.required_scopes
                    × (((is_aws_backed_manifest m ≡ false) ⊎ HasAwsMetadata m p)
                        × (IsCostControlled m m.cost_control
                            × (RegionsFit m.region_mode m p args
                                × RequestFits m.region_mode m.cost_control p.now_ms
                                    p.allowed_regions args)))))))

-- The gate returns no error for a call of a tool exactly when: the manifest is whole and read-only;
-- its name and pack are enabled and its risk level is the configured one; it requires a scope and
-- all that it requires are granted; a tool of AWS names services and actions, all allowed; its cost
-- limits are declared and make sense; the regions that the call asks for are allowed; and the call
-- keeps to the declared limits on dates, results, hours and regions.
pub evaluate_tool_policy_iff :
    (m : ToolManifest) (p : ToolPolicyContext) (args : Fields)
    → (evaluate_tool_policy m p args ≡ none) ↔ Admits m p args
unfolding evaluate_tool_policy validate_granted_scopes validate_requested_regions
evaluate_tool_policy_iff m p args = <|>_iff _ _ (structure_iff m) (
    <|>_iff _ _ (reject-not_iff _ _ (includes_iff p.enabled_tool_names m.name)) (
      <|>_iff _ _ (reject-not_iff _ _ (includes_iff p.enabled_packs m.pack)) (
        <|>_iff _ _ (reject-not_iff _ _ (string_eq_iff m.risk_level p.max_risk_level)) (
          <|>_iff _ _ (scopes_iff p.granted_scopes m.required_scopes) (
            <|>_iff _ _ (metadata_iff m p) (
              <|>_iff _ _ (validate_cost_control_manifest_iff m) (
                <|>_iff _ _ (mode_iff m.region_mode m p args)
                  (validate_cost_control_request_iff m p.now_ms p.allowed_regions args))))))))
