-- ===== src/Env/OAuth.antt =====
-- config/env.ts, `validateOAuthConfig`: the OAuth settings of a deployment.
pub mod Reads
pub mod Usable
use aws_mcp_gateway.Base.{
  Bool, true, false, ◌&&◌, not, Option, none, some, or_else, is_some, String, List, [], ◌∷◌, ◌!=◌,
  string_eq, comma_list,
}
use aws_mcp_gateway.Js.{Fields}
use aws_mcp_gateway.Exposure.{read_optional_string}
use aws_mcp_gateway.Auth.{
  ValidatedOAuthConfig, ValidatedOAuthIntrospectionConfig, OAuthTokenValidationMode, jwks,
  introspection,
}
use aws_mcp_gateway.Env.{
  Checked, accepted, rejected, push_if, read_required_string, resolve_token_validation_mode,
}
use aws_mcp_gateway.Env.Urls.{
  UrlParser, when_some, validate_introspection_url, validate_issuer_url, validate_origin_url,
  validate_jwks_uri,
}

-- `mode === "introspection" ? readOptionalString(…) : readRequiredString(…)`, and the like
unfoldable pub read_unless : Bool → Fields → String → List String → Option String × List String
read_unless true bindings key errors = (read_optional_string bindings key, errors)
read_unless false bindings key errors = read_required_string bindings key errors

-- the modes that verify tokens with a key set, and those that ask the issuer
unfoldable pub uses_jwks : OAuthTokenValidationMode → Bool
uses_jwks introspection = false
uses_jwks mode = true

unfoldable pub uses_introspection : OAuthTokenValidationMode → Bool
uses_introspection jwks = false
uses_introspection mode = true

unfoldable pub introspection_of :
    Option String → Option String → Option String → Option ValidatedOAuthIntrospectionConfig
introspection_of (some url) (some client_id) (some client_secret) =
    some (record { url = url; client_id = client_id; client_secret = client_secret })
introspection_of none client_id client_secret = none
introspection_of (some url) none client_secret = none
introspection_of (some url) (some client_id) none = none

-- `resourceUrl !== null && audience !== null && resourceUrl !== audience`
unfoldable pub differ : Option String → Option String → Bool
differ (some a) (some b) = a != b
differ none b = false
differ (some a) none = false

-- The values that are read and checked one after the other.
pub record OAuthValues : Type 0 where
  pub resource : Option String
  pub issuer : Option String
  pub audience : Option String
  pub scopes : Option String
  pub mode : OAuthTokenValidationMode
  pub jwks_uri : Option String
  pub introspection_config : Option ValidatedOAuthIntrospectionConfig

with_scopes : OAuthValues → List String → Checked ValidatedOAuthConfig
with_scopes v [] = rejected ("OAUTH_REQUIRED_SCOPES (empty after parsing)" ∷ [])
with_scopes v (s ∷ ss) = accepted (record {
  mcp_resource_url = or_else v.resource "";
  oauth_issuer = or_else v.issuer "";
  oauth_audience = or_else v.audience "";
  oauth_jwks_uri = v.jwks_uri;
  oauth_required_scopes = s ∷ ss;
  oauth_token_validation_mode = v.mode;
  oauth_introspection = v.introspection_config;
})

-- what follows the last of the pushes; where no error was pushed, no required value is none
config_of : OAuthValues → List String → Checked ValidatedOAuthConfig
unfolding with_scopes
config_of v (e ∷ es) = rejected (e ∷ es)
config_of v [] = with_scopes v (comma_list (or_else v.scopes ""))

-- the three tests across the values
unfoldable pub cross_checks : OAuthValues → List String → List String
unfolding differ uses_jwks uses_introspection
cross_checks v errors =
    push_if (uses_introspection v.mode && not (is_some v.introspection_config))
      "OAUTH_INTROSPECTION_URL / OAUTH_INTROSPECTION_CLIENT_ID / OAUTH_INTROSPECTION_CLIENT_SECRET"
      (push_if (uses_jwks v.mode && not (is_some v.jwks_uri)) "OAUTH_JWKS_URI" (
        push_if (differ v.resource v.audience) "OAUTH_AUDIENCE (must equal MCP_RESOURCE_URL)"
          errors))

module _ (parse_url : UrlParser) where
  -- the reads and checks of `validateOAuthConfig`, up to those across the values
  unfoldable pub read_oauth_values : Fields → OAuthValues × List String
  read_oauth_values bindings =
      let (resource_raw, e1) = read_required_string bindings "MCP_RESOURCE_URL" [] in
      let (issuer_raw, e2) = read_required_string bindings "OAUTH_ISSUER" e1 in
      let (audience_raw, e3) = read_required_string bindings "OAUTH_AUDIENCE" e2 in
      let (scopes_raw, e4) = read_required_string bindings "OAUTH_REQUIRED_SCOPES" e3 in
      let (mode, e5) =
        resolve_token_validation_mode (read_optional_string bindings "OAUTH_TOKEN_VALIDATION_MODE")
          e4 in
      let (jwks_raw, e6) = read_unless (not (uses_jwks mode)) bindings "OAUTH_JWKS_URI" e5 in
      let optional = not (uses_introspection mode) in
      let (url_raw, e7) = read_unless optional bindings "OAUTH_INTROSPECTION_URL" e6 in
      let (client_id, e8) = read_unless optional bindings "OAUTH_INTROSPECTION_CLIENT_ID" e7 in
      let (client_secret, e9) =
        read_unless optional bindings "OAUTH_INTROSPECTION_CLIENT_SECRET" e8 in
      let (resource, e10) =
        when_some (resource_raw, e9) (validate_origin_url parse_url "MCP_RESOURCE_URL") in
      let (issuer, e11) = when_some (issuer_raw, e10) (validate_issuer_url parse_url) in
      let (audience, e12) =
        when_some (audience_raw, e11) (validate_origin_url parse_url "OAUTH_AUDIENCE") in
      let (jwks_uri, e13) = when_some (jwks_raw, e12) (validate_jwks_uri parse_url) in
      let (introspection_url, e14) =
        when_some (url_raw, e13) (validate_introspection_url parse_url) in
      (
        record {
          resource = resource;
          issuer = issuer;
          audience = audience;
          scopes = scopes_raw;
          mode = mode;
          jwks_uri = jwks_uri;
          introspection_config = introspection_of introspection_url client_id client_secret;
        },
        e14,
      )

  -- `validateOAuthConfig`
  unfoldable pub validate_oauth_config : Fields → Checked ValidatedOAuthConfig
  unfolding config_of read_oauth_values cross_checks
  validate_oauth_config bindings =
      let (values, errors) = read_oauth_values bindings in
      config_of values (cross_checks values errors)
