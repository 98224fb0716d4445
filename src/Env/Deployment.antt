-- ===== src/Env/Deployment.antt =====
-- config/env.ts, `validateEnv` and `envErrorResponse`: all the settings of a deployment.
pub mod Complete
use aws_mcp_gateway.Base.{
  Bool, true, false, not, Option, none, some, or_else, String, List, [], ◌∷◌, ◌++◌, includes,
  string_eq, comma_list, if◌then◌else◌, ◌<>◌, join,
}
use aws_mcp_gateway.Errors.{Response, gateway_error, configuration_error, error_response}
use aws_mcp_gateway.Js.{Value, Fields, get}
use aws_mcp_gateway.RateLimit.{RateLimitConfig}
use aws_mcp_gateway.Manifest.{ResolvedToolExposure}
use aws_mcp_gateway.Exposure.{
  read_optional_string, validate_tool_exposure_config, default_resolved_tool_exposure,
}
use aws_mcp_gateway.Auth.{ValidatedOAuthConfig}
use aws_mcp_gateway.Env.{
  AuthMode, local_bearer, oauth, AuthModeResolution, resolved, unresolved, resolve_auth_mode,
  Checked, accepted, rejected, read_required_string, validate_rate_limit_config,
}
use aws_mcp_gateway.Env.Urls.{UrlParser}
use aws_mcp_gateway.Env.OAuth.{validate_oauth_config}

-- `ValidatedGatewayConfig`
pub record ValidatedGatewayConfig : Type 0 where
  pub auth_mode : AuthMode
  pub aws_access_key_id : String
  pub aws_secret_access_key : String
  pub aws_region : String
  pub aws_allowed_regions : String
  pub mcp_auth_token : Option String
  pub oauth_config : Option ValidatedOAuthConfig
  pub rate_limit : Option RateLimitConfig
  pub aws_mcp_cache : Value
  pub aws_mcp_app_config : Value
  pub aws_mcp_app_profile_index_key : String
  pub tool_exposure : ResolvedToolExposure

-- `APP_PROFILE_DEFAULT_INDEX_KEY`
abbrev pub app_profile_default_index_key : String
app_profile_default_index_key = "app-profiles/index.json"

-- the checks of the allowed regions, with the region
region_errors : Option String → List String → List String → List String
region_errors region [] errors = errors ++ "AWS_ALLOWED_REGIONS (empty after parsing)" ∷ []
region_errors none (r ∷ rs) errors = errors
region_errors (some region) (r ∷ rs) errors =
    if not (includes (r ∷ rs) region)
    then errors ++ "AWS_REGION (not in AWS_ALLOWED_REGIONS)" ∷ []
    else errors

allowed_errors : Option String → Option String → List String → List String
unfolding region_errors
allowed_errors region none errors = errors
allowed_errors region (some raw) errors = region_errors region (comma_list raw) errors

-- `errors.push(...result.errors)` where the result is not valid
unfoldable pub taken : {A : Type 0} → Checked A → List String → Option A × List String
taken c errors = if not c.valid then (none, errors ++ c.errors) else (c.config, errors)

-- The values of the first part.
pub record EnvValues : Type 0 where
  pub access_key_id : Option String
  pub secret_access_key : Option String
  pub region : Option String
  pub allowed_regions : Option String
  pub auth_token : Option String
  pub oauth_values : Option ValidatedOAuthConfig
  pub rate_limit_values : Option RateLimitConfig

exposure_config :
    AuthMode
    → Fields
    → EnvValues
    → Option ResolvedToolExposure
    → List String
    → Checked ValidatedGatewayConfig
exposure_config mode bindings v exposure (e ∷ es) = rejected (e ∷ es)
exposure_config mode bindings v exposure [] = accepted (record {
  auth_mode = mode;
  aws_access_key_id = or_else v.access_key_id "";
  aws_secret_access_key = or_else v.secret_access_key "";
  aws_region = or_else v.region "";
  aws_allowed_regions = or_else v.allowed_regions "";
  mcp_auth_token = v.auth_token;
  oauth_config = v.oauth_values;
  rate_limit = v.rate_limit_values;
  aws_mcp_cache = get "AWS_MCP_CACHE" bindings;
  aws_mcp_app_config = get "AWS_MCP_APP_CONFIG" bindings;
  aws_mcp_app_profile_index_key =
      or_else (read_optional_string bindings "AWS_MCP_APP_PROFILE_INDEX_KEY")
        app_profile_default_index_key;
  tool_exposure = or_else exposure default_resolved_tool_exposure;
})

-- what follows `if (errors.length > 0)` of the first part
with_exposure : AuthMode → Fields → EnvValues → List String → Checked ValidatedGatewayConfig
unfolding exposure_config
with_exposure mode bindings v (e ∷ es) = rejected (e ∷ es)
with_exposure mode bindings v [] =
    let (exposure, errors) = validate_tool_exposure_config bindings [] in
    exposure_config mode bindings v exposure errors

module _ (parse_url : UrlParser) where
  -- the token of a local deployment, or the OAuth and rate limit settings of any other
  mode_values :
      AuthMode
      → Fields
      → List String
      → Option String × (Option ValidatedOAuthConfig × (Option RateLimitConfig × List String))
  unfolding taken
  mode_values local_bearer bindings errors =
      let (token, errors1) = read_required_string bindings "MCP_AUTH_TOKEN" errors in
      (token, (none, (none, errors1)))
  mode_values oauth bindings errors =
      let (oauth_values, errors1) = taken (validate_oauth_config parse_url bindings) errors in
      let (rate_limit, errors2) = taken (validate_rate_limit_config bindings) errors1 in
      (none, (oauth_values, (rate_limit, errors2)))

  -- the values that are read one after the other, with the errors that were pushed
  env_values : AuthMode → Fields → EnvValues × List String
  unfolding mode_values
  env_values mode bindings =
      let (access_key_id, e1) = read_required_string bindings "AWS_ACCESS_KEY_ID" [] in
      let (secret_access_key, e2) = read_required_string bindings "AWS_SECRET_ACCESS_KEY" e1 in
      let (region, e3) = read_required_string bindings "AWS_REGION" e2 in
      let (allowed_regions, e4) = read_required_string bindings "AWS_ALLOWED_REGIONS" e3 in
      let (auth_token, (oauth_values, (rate_limit, e5))) = mode_values mode bindings e4 in
      (
        record {
          access_key_id = access_key_id;
          secret_access_key = secret_access_key;
          region = region;
          allowed_regions = allowed_regions;
          auth_token = auth_token;
          oauth_values = oauth_values;
          rate_limit_values = rate_limit;
        },
        e5,
      )

  env_for : AuthMode → Fields → Checked ValidatedGatewayConfig
  unfolding env_values allowed_errors with_exposure
  env_for mode bindings =
      let (v, errors) = env_values mode bindings in
      with_exposure mode bindings v (allowed_errors v.region v.allowed_regions errors)

  env_resolved : Fields → AuthModeResolution → Checked ValidatedGatewayConfig
  unfolding env_for
  env_resolved bindings (unresolved errors) = rejected errors
  env_resolved bindings (resolved mode) = env_for mode bindings

  -- `validateEnv`
  unfoldable pub validate_env : Fields → Checked ValidatedGatewayConfig
  unfolding env_resolved
  validate_env bindings = env_resolved bindings (resolve_auth_mode bindings)

-- `envErrorResponse`
unfoldable pub env_error_response : List String → Bool → Response
env_error_response errors true =
    error_response
      (gateway_error configuration_error
        ("Gateway configuration is incomplete. Invalid settings: " <> join ", " errors))
      503 []
env_error_response errors false =
    error_response (gateway_error configuration_error "Gateway configuration is incomplete.") 503 []
