-- ===== src/Tests/Deploy.antt =====
-- Settings of deployments, and requests to them.
use aws_mcp_gateway.Base.{
  ℕ, ◌+◌, ◌*◌, ◌≤◌, ◌<◌, ◌≡◌, ◌≢◌, refl, Bool, true, false, ◌&&◌, not, Option, none, some, is_some,
  String, List, [], ◌∷◌, Memᴰ, All, arith, ◌==◌, string_eq, if◌then◌else◌,
}
use aws_mcp_gateway.Http.{Request}
use aws_mcp_gateway.Js.{Value, Fields, get, text, object, end, field}
use aws_mcp_gateway.RateLimit.{Namespace, RateLimitConfig, Delivery, delivered}
use aws_mcp_gateway.Auth.{ValidatedOAuthConfig, jwks, authenticated}
use aws_mcp_gateway.Auth.OAuth.{JwtVerifier, Introspector}
use aws_mcp_gateway.Exposure.{default_resolved_tool_exposure}
use aws_mcp_gateway.Env.{validate_rate_limit_config, local_bearer}
use aws_mcp_gateway.Env.Urls.{Url, UrlParser}
use aws_mcp_gateway.Env.OAuth.{validate_oauth_config}
use aws_mcp_gateway.Env.OAuth.Usable.{IsUsable, validate_oauth_config-IsUsable}
use aws_mcp_gateway.Env.Deployment.{ValidatedGatewayConfig, validate_env}
use aws_mcp_gateway.Env.Deployment.Complete.{IsComplete, validate_env-IsComplete}
use aws_mcp_gateway.Gateway.{World, GatewayContext, handed_over, fetch, authenticate_request}
use aws_mcp_gateway.Gateway.Admitted.{IsWithinLimit, IsAdmitted, fetch-handed_over_iff}
use aws_mcp_gateway.Gateway.Throttled.{handovers, handovers-le}
use aws_mcp_gateway.Tests.Inputs.{request_of, may_2024_ms}

abbrev https_url : String → String → Url
https_url host path = record {
  protocol = "https:";
  host = host;
  hostname = host;
  pathname = path;
  search = "";
  hash = "";
}

abbrev known_urls : UrlParser
known_urls raw =
    if raw == "https://gateway.example"
    then some (https_url "gateway.example" "/")
    else if raw == "https://issuer.example"
    then some (https_url "issuer.example" "/")
    else if raw == "https://issuer.example/.well-known/jwks.json"
    then some (https_url "issuer.example" "/.well-known/jwks.json")
    else none

abbrev aws_bindings : Fields → Fields
aws_bindings rest = field "AWS_ACCESS_KEY_ID" (text "id") (
    field "AWS_SECRET_ACCESS_KEY" (text "key") (
      field "AWS_REGION" (text "eu-west-1")
        (field "AWS_ALLOWED_REGIONS" (text "us-east-1, eu-west-1") rest)))

abbrev local_bindings : Fields
local_bindings = aws_bindings (field "MCP_AUTH_TOKEN" (text "secret") end)

abbrev oauth_bindings : Fields
oauth_bindings = aws_bindings (
    field "AUTH_MODE" (text "oauth") (
      field "MCP_RESOURCE_URL" (text "https://gateway.example") (
        field "OAUTH_ISSUER" (text "https://issuer.example") (
          field "OAUTH_AUDIENCE" (text "https://gateway.example") (
            field "OAUTH_REQUIRED_SCOPES" (text "aws:read") (
              field "OAUTH_JWKS_URI" (text "https://issuer.example/.well-known/jwks.json") (
                field "RATE_LIMIT_MAX_REQUESTS" (text "5")
                  (field "AUTH_RATE_LIMITER" (object end) end))))))))

abbrev five_a_minute : RateLimitConfig
five_a_minute = record { max_requests = 5; window_seconds = 60 }

abbrev usable : ValidatedOAuthConfig
usable = record {
  mcp_resource_url = "https://gateway.example";
  oauth_issuer = "https://issuer.example/";
  oauth_audience = "https://gateway.example";
  oauth_jwks_uri = some "https://issuer.example/.well-known/jwks.json";
  oauth_required_scopes = "aws:read" ∷ [];
  oauth_token_validation_mode = jwks;
  oauth_introspection = none;
}

abbrev complete : ValidatedGatewayConfig
complete = record {
  auth_mode = local_bearer;
  aws_access_key_id = "id";
  aws_secret_access_key = "key";
  aws_region = "eu-west-1";
  aws_allowed_regions = "us-east-1, eu-west-1";
  mcp_auth_token = some "secret";
  oauth_config = none;
  rate_limit = none;
  aws_mcp_cache = Value.undefined;
  aws_mcp_app_config = Value.undefined;
  aws_mcp_app_profile_index_key = "app-profiles/index.json";
  tool_exposure = default_resolved_tool_exposure;
}

validate_oauth_config-IsUsable_example : IsUsable known_urls usable
unfolding validate_oauth_config aws_mcp_gateway.Env.resolve_token_validation_mode
    aws_mcp_gateway.Exposure.read_optional_string get aws_mcp_gateway.Env.Urls.when_some
    aws_mcp_gateway.Env.OAuth.read_unless aws_mcp_gateway.Env.read_required_string
    aws_mcp_gateway.Base.trim aws_mcp_gateway.Env.Urls.validate_jwks_uri
    aws_mcp_gateway.Auth.Claims.ends_with aws_mcp_gateway.Env.Urls.validate_origin_url
    aws_mcp_gateway.Env.Urls.validate_issuer_url aws_mcp_gateway.Base.comma_list
    aws_mcp_gateway.Env.OAuth.introspection_of
validate_oauth_config-IsUsable_example =
    validate_oauth_config-IsUsable known_urls oauth_bindings usable refl

validate_env-IsComplete_example : IsComplete known_urls complete
unfolding validate_env aws_mcp_gateway.Env.resolve_auth_mode get
    aws_mcp_gateway.Env.read_required_string aws_mcp_gateway.Exposure.read_optional_string
    aws_mcp_gateway.Base.trim aws_mcp_gateway.Base.comma_list aws_mcp_gateway.Base.includes
    aws_mcp_gateway.Exposure.validate_tool_exposure_config
    aws_mcp_gateway.Exposure.parse_max_risk_level aws_mcp_gateway.Exposure.parse_tool_name_list
    aws_mcp_gateway.Exposure.parse_pack_list default_resolved_tool_exposure
    aws_mcp_gateway.Base.set_add_all
validate_env-IsComplete_example = validate_env-IsComplete known_urls local_bindings complete refl

-- requests

abbrev no_verifier : JwtVerifier
no_verifier uri token issuer = none

abbrev no_endpoint : Introspector
no_endpoint attempt endpoint token = none

abbrev world : World
world = record {
  parse_url = known_urls;
  verify = no_verifier;
  introspect = no_endpoint;
  sha256_hex = λ s. s;
  now_ms = may_2024_ms;
  how = delivered;
}

abbrev local_context : GatewayContext
local_context = record {
  access_key_id = "id";
  secret_access_key = "key";
  region = "eu-west-1";
  allowed_regions = "us-east-1" ∷ "eu-west-1" ∷ [];
  cache = Value.undefined;
  app_config = Value.undefined;
  app_profile_index_key = "app-profiles/index.json";
  mcp_resource_url = none;
  auth_mode = local_bearer;
  oauth_required_scopes = none;
  granted_scopes = some ("aws:read" ∷ []);
  tool_exposure = default_resolved_tool_exposure;
}

abbrev no_objects : Namespace
no_objects name = none

fetch-handed_over_iff_example :
    ((request_of (some "Bearer secret")).pathname ≡ "/mcp")
    × (IsWithinLimit world local_bindings (request_of (some "Bearer secret")) no_objects
        × IsAdmitted world local_bindings (request_of (some "Bearer secret")) local_context)
unfolding fetch validate_rate_limit_config aws_mcp_gateway.Env.resolve_auth_mode get
    aws_mcp_gateway.Env.parse_positive_integer aws_mcp_gateway.Exposure.read_optional_string
    aws_mcp_gateway.RateLimit.enforce authenticate_request
    aws_mcp_gateway.Auth.authenticate_local_bearer_request aws_mcp_gateway.Base.strip_prefix
    validate_env aws_mcp_gateway.Env.read_required_string aws_mcp_gateway.Base.trim
    aws_mcp_gateway.Base.comma_list aws_mcp_gateway.Base.includes
    aws_mcp_gateway.Exposure.validate_tool_exposure_config
    aws_mcp_gateway.Exposure.parse_max_risk_level aws_mcp_gateway.Exposure.parse_tool_name_list
    aws_mcp_gateway.Exposure.parse_pack_list aws_mcp_gateway.Gateway.build_gateway_context
    aws_mcp_gateway.Regions.parse_regions default_resolved_tool_exposure
    aws_mcp_gateway.Base.set_add_all
fetch-handed_over_iff_example =
    (fetch-handed_over_iff world local_bindings (request_of (some "Bearer secret")) no_objects
        local_context).0
      refl

abbrev limited_bindings : Fields
limited_bindings = aws_bindings (
    field "MCP_AUTH_TOKEN" (text "secret")
      (field "RATE_LIMIT_MAX_REQUESTS" (text "5") (field "AUTH_RATE_LIMITER" (object end) end)))

abbrev two_arrivals : List (Request × ℕ × Delivery)
two_arrivals =
    (request_of (some "Bearer secret"), 0, delivered)
    ∷ (request_of (some "Bearer secret"), 59999, delivered)
    ∷ []

handovers-le_example :
    handovers world limited_bindings "mcp:token:secret" no_objects two_arrivals ≤ 10
unfolding validate_rate_limit_config aws_mcp_gateway.Env.resolve_auth_mode get
    aws_mcp_gateway.Env.parse_positive_integer aws_mcp_gateway.Exposure.read_optional_string
    aws_mcp_gateway.Base.trim aws_mcp_gateway.Env.parse_positive
handovers-le_example =
    handovers-le world limited_bindings five_a_minute "mcp:token:secret" 0 no_objects two_arrivals
      refl ((omega arith, omega arith), ((omega arith, omega arith), tt))

-- both of them are handed over
two_handovers : handovers world limited_bindings "mcp:token:secret" no_objects two_arrivals ≡ 2
unfolding handovers aws_mcp_gateway.RateLimit.build_identity aws_mcp_gateway.Base.strip_prefix
    aws_mcp_gateway.Base.trim fetch validate_rate_limit_config aws_mcp_gateway.Env.resolve_auth_mode
    get aws_mcp_gateway.Env.parse_positive_integer aws_mcp_gateway.Exposure.read_optional_string
    aws_mcp_gateway.Env.parse_positive aws_mcp_gateway.RateLimit.enforce
    aws_mcp_gateway.RateLimit.object_fetch aws_mcp_gateway.RateLimit.evaluate authenticate_request
    aws_mcp_gateway.Auth.authenticate_local_bearer_request validate_env
    aws_mcp_gateway.Env.read_required_string aws_mcp_gateway.Base.comma_list
    aws_mcp_gateway.Base.includes aws_mcp_gateway.Exposure.validate_tool_exposure_config
    aws_mcp_gateway.Exposure.parse_max_risk_level aws_mcp_gateway.Exposure.parse_tool_name_list
    aws_mcp_gateway.Exposure.parse_pack_list
two_handovers = refl
