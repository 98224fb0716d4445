-- ===== src/Tests/Tokens.antt =====
-- Authentication at concrete tokens.
use aws_mcp_gateway.Base.{
  inl, ◌-◌, strip_prefix, ℕ, ◌+◌, ◌*◌, ◌≤◌, ◌<◌, ◌≡◌, ◌≢◌, ◌↔◌, refl, ◌⊎◌, Bool, true, false,
  Option, none, some, String, List, [], ◌∷◌, Memᴰ, All, length, arith, ◌==◌, string_eq,
  if◌then◌else◌, trim,
}
use aws_mcp_gateway.Js.{Value, Fields, get, number, boolean, text, end, field}
use aws_mcp_gateway.Js.Numbers.{whole, nan}
use aws_mcp_gateway.Policy.Scopes.{has_required_scopes}
use aws_mcp_gateway.Auth.{
  AuthResult, authenticated, bearer_token, authenticate_local_bearer_request,
  local_bearer_granted_scopes, ValidatedOAuthConfig, hybrid,
}
use aws_mcp_gateway.Auth.Bearer.{authenticate_local_bearer_request_iff}
use aws_mcp_gateway.Auth.Claims.{extract_scopes}
use aws_mcp_gateway.Auth.Scopes.{IsWordOf, IsItemOf, extract_scopes_iff}
use aws_mcp_gateway.Auth.Granted.{IsBacked}
use aws_mcp_gateway.Auth.OAuth.{JwtVerifier, Introspector, authenticate_oauth_request}
use aws_mcp_gateway.Auth.OAuth.Backed.{HeaderVouches, authenticate_oauth_request-IsBacked}
use aws_mcp_gateway.Tests.Inputs.{request_of}

-- tokens

abbrev oauth_config : ValidatedOAuthConfig
oauth_config = record {
  mcp_resource_url = "https://gateway.example/mcp";
  oauth_issuer = "https://issuer.example";
  oauth_audience = "https://gateway.example/";
  oauth_jwks_uri = some "https://issuer.example/keys";
  oauth_required_scopes = "aws:read" ∷ [];
  oauth_token_validation_mode = hybrid;
  oauth_introspection = none;
}

abbrev claims : Fields
claims =
    field "aud" (text "https://gateway.example/mcp")
      (field "exp" (number (whole 2000)) (field "scope" (text "openid aws:read") end))

abbrev verifier : JwtVerifier
verifier uri token issuer = if token == "a.b.c" then some claims else none

abbrev no_endpoint : Introspector
no_endpoint attempt endpoint token = none

extract_scopes_iff_example :
    IsWordOf "aws:read" (get "scope" claims)
    ⊎ IsItemOf "aws:read" (get "scp" claims)
    ⊎ IsItemOf "aws:read" (get "permissions" claims)
unfolding extract_scopes aws_mcp_gateway.Base.set_add_all get aws_mcp_gateway.Base.non_empty
    aws_mcp_gateway.Base.split aws_mcp_gateway.Base.is_space aws_mcp_gateway.Base.includes
extract_scopes_iff_example = (extract_scopes_iff claims "aws:read").0 (Memᴰ.tail (Memᴰ.head refl))

authenticate_local_bearer_request_iff_example :
    (token : String) × ((bearer_token (some "Bearer secret") ≡ some token)
      × ((some "secret" ≡ some token) × ("aws:read" ∷ [] ≡ local_bearer_granted_scopes)))
unfolding authenticate_local_bearer_request strip_prefix
authenticate_local_bearer_request_iff_example =
    (authenticate_local_bearer_request_iff (request_of (some "Bearer secret")) (some "secret")
        ("aws:read" ∷ [])).0
      refl

authenticate_oauth_request-IsBacked_example :
    IsBacked oauth_config 1000
      (HeaderVouches verifier no_endpoint 1000 oauth_config (bearer_token (some "Bearer a.b.c")))
      (authenticate_oauth_request verifier no_endpoint 1000
        (request_of (some "Bearer a.b.c"))
        oauth_config)
authenticate_oauth_request-IsBacked_example =
    authenticate_oauth_request-IsBacked verifier no_endpoint 1000 (request_of (some "Bearer a.b.c"))
      oauth_config

token_granted :
    authenticate_oauth_request verifier no_endpoint 1000
      (request_of (some "Bearer a.b.c"))
      oauth_config
    ≡ authenticated ("openid" ∷ "aws:read" ∷ [])
unfolding authenticate_oauth_request bearer_token strip_prefix trim
    aws_mcp_gateway.Auth.Claims.is_likely_jwt aws_mcp_gateway.Base.split
    aws_mcp_gateway.Auth.Claims.has_expected_audience aws_mcp_gateway.Base.includes get
    aws_mcp_gateway.Auth.Claims.has_valid_token_times aws_mcp_gateway.Js.Numbers.num_le
    has_required_scopes extract_scopes aws_mcp_gateway.Base.set_add_all
    aws_mcp_gateway.Base.non_empty
token_granted = refl
