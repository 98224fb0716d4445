-- ===== src/Auth/OAuth.antt =====
-- auth/oauth/verify-token.ts, introspection.ts, errors.ts, challenge.ts and metadata.ts: the access
-- token of a request, checked by the issuer's keys or by asking the issuer. The `jose` library, which
-- verifies a signature, and the issuer's introspection endpoint are parameters; `none` is a throw.
-- Logging is left out, and so is the cache of key sets, which the verifier owns here.
pub mod Backed
use aws_mcp_gateway.Base.{
  ℕ, Bool, false, not, Option, none, some, String, [], ◌∷◌, ◌!=◌, string_eq, is_empty, trim,
  if◌then◌else◌, ◌<>◌, join,
}
use aws_mcp_gateway.Errors.{Response, unauthorized, forbidden, gateway_error, error_response}
use aws_mcp_gateway.Http.{Request}
use aws_mcp_gateway.Js.{Value, Fields, get, as_text}
use aws_mcp_gateway.Policy.Scopes.{has_required_scopes}
use aws_mcp_gateway.Auth.{
  AuthResult, authenticated, refused, bearer_token, ValidatedOAuthConfig, OAuthTokenValidationMode,
  jwks, introspection, hybrid, ValidatedOAuthIntrospectionConfig,
}
use aws_mcp_gateway.Auth.Claims.{
  extract_scopes, has_expected_audience, has_valid_token_times, is_likely_jwt, drop_last_slash,
}

-- What the introspection endpoint answers: a status that is not of success, a body that is no JSON,
-- or a value.
pub data IntrospectionReply : Type 0 where
  failed unreadable : IntrospectionReply
  answered : Value → IntrospectionReply

-- `jwtVerify` with the key set of a URI, for a token and the issuer that it must be from.
abbrev pub JwtVerifier : Type 0
JwtVerifier = String → String → String → Option Fields

-- The endpoint, asked about a token by the n-th request of one authentication.
abbrev pub Introspector : Type 0
Introspector = ℕ → ValidatedOAuthIntrospectionConfig → String → Option IntrospectionReply

-- `protectedResourceMetadataUrl`
unfoldable pub protected_resource_metadata_url : ValidatedOAuthConfig → String
protected_resource_metadata_url config =
    drop_last_slash config.mcp_resource_url <> "/.well-known/oauth-protected-resource"

-- `buildOAuthChallenge` with an error and its description, which both callers give
unfoldable pub build_oauth_challenge : ValidatedOAuthConfig → String → String → String
unfolding protected_resource_metadata_url
build_oauth_challenge config error description =
    "Bearer "
    <> join ", " (
        ("resource_metadata=\"" <> protected_resource_metadata_url config <> "\"")
        ∷ ("scope=\"" <> join " " config.oauth_required_scopes <> "\"")
        ∷ ("error=\"" <> error <> "\"")
        ∷ ("error_description=\"" <> description <> "\"")
        ∷ [])

-- `oauthUnauthorizedResponse`
unfoldable pub oauth_unauthorized_response : ValidatedOAuthConfig → Response
unfolding build_oauth_challenge
oauth_unauthorized_response config =
    error_response (gateway_error unauthorized "Authentication is required.") 401 (
      (
        "WWW-Authenticate",
        build_oauth_challenge config "invalid_token" "Authentication is required.",
      )
      ∷ [])

-- `oauthForbiddenResponse`
unfoldable pub oauth_forbidden_response : ValidatedOAuthConfig → Response
unfolding build_oauth_challenge
oauth_forbidden_response config =
    error_response (gateway_error forbidden "Insufficient scope for this resource.") 403 (
      (
        "WWW-Authenticate",
        build_oauth_challenge config "insufficient_scope" "Insufficient scope for this resource.",
      )
      ∷ [])

-- the last three checks, which both ways of validation end with
unfoldable pub authenticate_claims : ValidatedOAuthConfig → ℕ → Fields → AuthResult
authenticate_claims config now_seconds claims =
    if not (has_expected_audience claims config.oauth_audience)
    then refused (oauth_unauthorized_response config)
    else if not (has_valid_token_times claims now_seconds)
    then refused (oauth_unauthorized_response config)
    else let scopes = extract_scopes claims in
      if not (has_required_scopes scopes config.oauth_required_scopes)
      then refused (oauth_forbidden_response config)
      else authenticated scopes

-- `payload.active !== true`
unfoldable pub is_active : Fields → Bool
is_active payload = elim (get "active" payload) [ Value.boolean b ↦ b | _ ↦ false ]

-- `typeof payload.iss === "string" && payload.iss !== config.OAUTH_ISSUER`
unfoldable pub wrong_issuer : Option String → String → Bool
wrong_issuer none issuer = false
wrong_issuer (some iss) issuer = iss != issuer

introspected : ValidatedOAuthConfig → ℕ → Fields → AuthResult
unfolding authenticate_claims is_active wrong_issuer
introspected config now_seconds payload =
    if not (is_active payload)
    then refused (oauth_unauthorized_response config)
    else if wrong_issuer (as_text (get "iss" payload)) config.oauth_issuer
    then refused (oauth_unauthorized_response config)
    else authenticate_claims config now_seconds payload

-- reading a property of `undefined` or `null` throws; no other value but an object has any of these
unfoldable pub properties : Value → Option Fields
properties Value.undefined = none
properties Value.null = none
properties (Value.object fields) = some fields
properties v = some Fields.end

payload_result : ValidatedOAuthConfig → ℕ → Option Fields → Option AuthResult
unfolding introspected
payload_result config now_seconds none = none
payload_result config now_seconds (some payload) = some (introspected config now_seconds payload)

reply_result : ValidatedOAuthConfig → ℕ → Option IntrospectionReply → Option AuthResult
unfolding payload_result properties
reply_result config now_seconds none = none
reply_result config now_seconds (some failed) = some (refused (oauth_unauthorized_response config))
reply_result config now_seconds (some unreadable) = none
reply_result config now_seconds (some (answered value)) =
    payload_result config now_seconds (properties value)

verified_result : ValidatedOAuthConfig → ℕ → Option Fields → Option AuthResult
unfolding authenticate_claims
verified_result config now_seconds none = none
verified_result config now_seconds (some claims) =
    some (authenticate_claims config now_seconds claims)

-- The services and the time, in seconds, that one authentication sees.
module _ (verify : JwtVerifier) (introspect : Introspector) (now_seconds : ℕ) where
  introspection_with :
      ℕ
      → String
      → ValidatedOAuthConfig
      → Option ValidatedOAuthIntrospectionConfig
      → Option AuthResult
  unfolding reply_result
  introspection_with attempt token config none = some (refused (oauth_unauthorized_response config))
  introspection_with attempt token config (some endpoint) =
      reply_result config now_seconds (introspect attempt endpoint token)

  -- `authenticateViaIntrospection`
  unfoldable pub authenticate_via_introspection :
      ℕ → String → ValidatedOAuthConfig → Option AuthResult
  unfolding introspection_with
  authenticate_via_introspection attempt token config =
      introspection_with attempt token config config.oauth_introspection

  jwks_with : String → ValidatedOAuthConfig → Option String → Option AuthResult
  unfolding verified_result
  jwks_with token config none = some (refused (oauth_unauthorized_response config))
  jwks_with token config (some uri) =
      verified_result config now_seconds (verify uri token config.oauth_issuer)

  -- `authenticateViaJwks`
  unfoldable pub authenticate_via_jwks : String → ValidatedOAuthConfig → Option AuthResult
  unfolding jwks_with
  authenticate_via_jwks token config = jwks_with token config config.oauth_jwks_uri

  -- the body of the `try`
  first_attempt : OAuthTokenValidationMode → String → ValidatedOAuthConfig → Option AuthResult
  unfolding authenticate_via_introspection authenticate_via_jwks
  first_attempt introspection token config = authenticate_via_introspection 0 token config
  first_attempt hybrid token config =
      if not (is_likely_jwt token)
      then authenticate_via_introspection 0 token config
      else authenticate_via_jwks token config
  first_attempt jwks token config = authenticate_via_jwks token config

  or_refused : ValidatedOAuthConfig → Option AuthResult → AuthResult
  or_refused config none = refused (oauth_unauthorized_response config)
  or_refused config (some result) = result

  -- the body of the `catch`: a hybrid gateway asks the issuer, once more if it had already
  fall_back :
      OAuthTokenValidationMode → String → ValidatedOAuthConfig → Option AuthResult → AuthResult
  unfolding or_refused
  fall_back mode token config (some result) = result
  fall_back hybrid token config none =
      or_refused config (authenticate_via_introspection 1 token config)
  fall_back mode token config none = refused (oauth_unauthorized_response config)

  with_bearer : ValidatedOAuthConfig → Option String → AuthResult
  unfolding first_attempt fall_back
  with_bearer config none = refused (oauth_unauthorized_response config)
  with_bearer config (some rest) =
      let token = trim rest in
      if is_empty token
      then refused (oauth_unauthorized_response config)
      else fall_back config.oauth_token_validation_mode token config
          (first_attempt config.oauth_token_validation_mode token config)

  -- `authenticateOAuthRequest`
  unfoldable pub authenticate_oauth_request : Request → ValidatedOAuthConfig → AuthResult
  unfolding with_bearer
  authenticate_oauth_request request config =
      with_bearer config (bearer_token (request.header "Authorization"))
