-- ===== src/Gateway.antt =====
-- index.ts, auth/index.ts and config/context.ts: the way of a request through the gateway. Where the
-- source hands the request to the protocol's handler, the outcome is the context that it is given.
pub mod Admitted
pub mod Throttled
use aws_mcp_gateway.Base.{
  ℕ, true, false, ◌&&◌, Option, none, some, String, List, [], ◌∷◌, ◌==◌, string_eq, if◌then◌else◌,
  ◌/◌,
}
use aws_mcp_gateway.Errors.{
  Response, json_body, gateway_error, configuration_error, not_found, error_response,
}
use aws_mcp_gateway.Http.{Request}
use aws_mcp_gateway.Js.{
  Value, Fields, Items, text, boolean, array, object, nil, item, end, field, get, as_text,
  texts_value,
}
use aws_mcp_gateway.Regions.{parse_regions}
use aws_mcp_gateway.Manifest.{ResolvedToolExposure}
use aws_mcp_gateway.RateLimit.{Namespace, Delivery, enforce}
use aws_mcp_gateway.Auth.{
  AuthResult, authenticated, refused, authenticate_local_bearer_request, ValidatedOAuthConfig,
}
use aws_mcp_gateway.Auth.OAuth.{JwtVerifier, Introspector, authenticate_oauth_request}
use aws_mcp_gateway.Env.{
  AuthMode, local_bearer, oauth, AuthModeResolution, resolved, unresolved, resolve_auth_mode,
  validate_rate_limit_config,
}
use aws_mcp_gateway.Env.Urls.{UrlParser}
use aws_mcp_gateway.Env.OAuth.{validate_oauth_config}
use aws_mcp_gateway.Env.Deployment.{ValidatedGatewayConfig, validate_env, env_error_response}

-- `GatewayContext`, less what it creates anew: the credential resolver and the collector
pub record GatewayContext : Type 0 where
  pub access_key_id : String
  pub secret_access_key : String
  pub region : String
  pub allowed_regions : List String
  pub cache : Value
  pub app_config : Value
  pub app_profile_index_key : String
  pub mcp_resource_url : Option String
  pub auth_mode : AuthMode
  pub oauth_required_scopes : Option (List String)
  pub granted_scopes : Option (List String)
  pub tool_exposure : ResolvedToolExposure

resource_url_of : Option ValidatedOAuthConfig → Option String
resource_url_of none = none
resource_url_of (some c) = some c.mcp_resource_url

required_scopes_of : Option ValidatedOAuthConfig → Option (List String)
required_scopes_of none = none
required_scopes_of (some c) = some c.oauth_required_scopes

-- `buildGatewayContext`
unfoldable pub build_gateway_context :
    ValidatedGatewayConfig → Option (List String) → GatewayContext
unfolding resource_url_of required_scopes_of
build_gateway_context config granted_scopes = record {
  access_key_id = config.aws_access_key_id;
  secret_access_key = config.aws_secret_access_key;
  region = config.aws_region;
  allowed_regions = parse_regions (some config.aws_allowed_regions);
  cache = config.aws_mcp_cache;
  app_config = config.aws_mcp_app_config;
  app_profile_index_key = config.aws_mcp_app_profile_index_key;
  mcp_resource_url = resource_url_of config.oauth_config;
  auth_mode = config.auth_mode;
  oauth_required_scopes = required_scopes_of config.oauth_config;
  granted_scopes = granted_scopes;
  tool_exposure = config.tool_exposure;
}

incomplete : Response
incomplete =
    error_response (gateway_error configuration_error "Gateway configuration is incomplete.") 503 []

not_found_response : Response
not_found_response = error_response (gateway_error not_found "Not Found") 404 []

json_ok : Fields → Response
json_ok fields = record { status = 200; headers = []; body = json_body (object fields) }

-- `buildProtectedResourceMetadata`
unfoldable pub build_protected_resource_metadata : ValidatedOAuthConfig → Fields
unfolding texts_value
build_protected_resource_metadata config = field "resource" (text config.mcp_resource_url) (
    field "authorization_servers" (array (item (text config.oauth_issuer) nil)) (
      field "scopes_supported" (array (texts_value config.oauth_required_scopes))
        (field "resource_documentation" (text "https://github.com/rafaself/aws-mcp-gateway") end)))

pub data Outcome : Type 0 where
  answered : Response → Outcome
  handed_over : GatewayContext → Outcome

-- The platform and the services that one request meets.
pub record World : Type 0 where
  pub parse_url : UrlParser
  pub verify : JwtVerifier
  pub introspect : Introspector
  pub sha256_hex : String → String
  pub now_ms : ℕ
  pub how : Delivery

module _ (w : World) (bindings : Fields) where
  oauth_result : Request → Option ValidatedOAuthConfig → AuthResult
  unfolding incomplete
  oauth_result request none = refused incomplete
  oauth_result request (some config) =
      authenticate_oauth_request w.verify w.introspect (w.now_ms / 1000) request config

  auth_result : Request → AuthModeResolution → AuthResult
  unfolding oauth_result incomplete
  auth_result request (unresolved errors) = refused incomplete
  auth_result request (resolved oauth) =
      oauth_result request (validate_oauth_config w.parse_url bindings).config
  auth_result request (resolved local_bearer) =
      authenticate_local_bearer_request request (as_text (get "MCP_AUTH_TOKEN" bindings))

  -- `authenticateRequest`
  unfoldable pub authenticate_request : Request → AuthResult
  unfolding auth_result
  authenticate_request request = auth_result request (resolve_auth_mode bindings)

  -- what follows authentication
  with_env : List String → Option ValidatedGatewayConfig → List String → Outcome
  with_env scopes none errors = answered (env_error_response errors true)
  with_env scopes (some config) errors = handed_over (build_gateway_context config (some scopes))

  after_auth : AuthResult → Outcome
  unfolding with_env
  after_auth (refused response) = answered response
  after_auth (authenticated scopes) =
      let env = validate_env w.parse_url bindings in with_env scopes env.config env.errors

  after_limit : Request → Option Response → Outcome
  unfolding after_auth
  after_limit request (some response) = answered response
  after_limit request none = after_auth (authenticate_request request)

  -- the branch of `/mcp`
  unfoldable pub mcp : Request → Namespace → Namespace × Outcome
  unfolding after_limit
  mcp request objects =
      let limit = validate_rate_limit_config bindings in
      let (objects', answer) = enforce w.sha256_hex request limit.config w.now_ms w.how objects in
      if limit.valid
      then (objects', after_limit request answer)
      else (objects, answered (env_error_response limit.errors false))

  metadata_for : Option ValidatedOAuthConfig → List String → Response
  unfolding json_ok
  metadata_for none errors = env_error_response errors false
  metadata_for (some config) errors = json_ok (build_protected_resource_metadata config)

  -- the branch of `/.well-known/oauth-protected-resource`
  protected_resource : AuthModeResolution → Response
  unfolding metadata_for not_found_response
  protected_resource (unresolved errors) = env_error_response errors false
  protected_resource (resolved local_bearer) = not_found_response
  protected_resource (resolved oauth) =
      let checked = validate_oauth_config w.parse_url bindings in
      metadata_for checked.config checked.errors

  -- `fetch`
  unfoldable pub fetch : Request → Namespace → Namespace × Outcome
  unfolding mcp protected_resource not_found_response json_ok
  fetch request objects =
      if request.method == "GET" && request.pathname == "/health"
      then (
        objects,
        answered
            (json_ok (field "ok" (boolean true) (field "service" (text "aws-mcp-gateway") end))),
      )
      else if request.method == "GET" && request.pathname == "/.well-known/oauth-protected-resource"
      then (objects, answered (protected_resource (resolve_auth_mode bindings)))
      else if request.pathname == "/mcp"
      then mcp request objects
      else (objects, answered not_found_response)
