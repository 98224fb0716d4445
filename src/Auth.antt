-- ===== src/Auth.antt =====
-- auth/result.ts, auth/bearer.ts and auth/oauth/types.ts: what authentication decides, the bearer token
-- of a local deployment, and the configuration that OAuth is checked against.
pub mod Claims
pub mod Scopes
pub mod Bearer
pub mod OAuth
pub mod Granted
pub mod KeySets
use aws_mcp_gateway.Base.{
  ℕ, Bool, true, false, Option, none, some, String, List, [], ◌∷◌, ◌==◌, string_eq, strip_prefix,
  if◌then◌else◌,
}
use aws_mcp_gateway.Errors.{Response, unauthorized, gateway_error, error_response}
use aws_mcp_gateway.Http.{Request}

-- `AuthResult`
pub data AuthResult : Type 0 where
  authenticated : List String → AuthResult
  refused : Response → AuthResult

-- `LOCAL_BEARER_GRANTED_SCOPES`
abbrev pub local_bearer_granted_scopes : List String
local_bearer_granted_scopes = "aws:read" ∷ []

unauthorized_result : AuthResult
unauthorized_result =
    refused (error_response (gateway_error unauthorized "Authentication is required.") 401 [])

-- `authHeader.startsWith("Bearer ")` with `authHeader.slice(7)`; no header is not one
unfoldable pub bearer_token : Option String → Option String
bearer_token none = none
bearer_token (some header) = strip_prefix "Bearer " header

same_token : String → Option String → AuthResult
unfolding unauthorized_result
same_token token none = unauthorized_result
same_token token (some expected) =
    if token == expected then authenticated local_bearer_granted_scopes else unauthorized_result

with_token : Option String → Option String → AuthResult
unfolding same_token
with_token none expected = unauthorized_result
with_token (some token) expected = same_token token expected

-- `authenticateLocalBearerRequest`, with the binding `MCP_AUTH_TOKEN`
unfoldable pub authenticate_local_bearer_request : Request → Option String → AuthResult
unfolding with_token bearer_token
authenticate_local_bearer_request request mcp_auth_token =
    with_token (bearer_token (request.header "Authorization")) mcp_auth_token

-- `OAuthTokenValidationMode`
pub data OAuthTokenValidationMode : Type 0 where
  jwks introspection hybrid : OAuthTokenValidationMode

-- `ValidatedOAuthIntrospectionConfig`
pub record ValidatedOAuthIntrospectionConfig : Type 0 where
  pub url : String
  pub client_id : String
  pub client_secret : String

-- `ValidatedOAuthConfig`
pub record ValidatedOAuthConfig : Type 0 where
  pub mcp_resource_url : String
  pub oauth_issuer : String
  pub oauth_audience : String
  pub oauth_jwks_uri : Option String
  pub oauth_required_scopes : List String
  pub oauth_token_validation_mode : OAuthTokenValidationMode
  pub oauth_introspection : Option ValidatedOAuthIntrospectionConfig
