-- ===== src/Env.antt =====
-- config/env.ts and config/auth-mode.ts: the settings of a deployment, read from its bindings. Bindings
-- are the platform's: texts, and for a namespace or a store some object.
pub mod Urls
pub mod OAuth
pub mod Deployment
pub mod Errors
pub mod Limits
use Prim.Native.Char.{code}
use Prim.Native.String
use aws_mcp_gateway.Base.{
  ℕ, zero, suc, ◌+◌, ◌*◌, ◌-◌, ◌^◌, Bool, true, false, ◌||◌, ◌&&◌, not, Option, none, some, or_else,
  is_some, String, List, [], ◌∷◌, ◌++◌, ◌==◌, ◌!=◌, string_eq, includes, comma_list, trim, is_empty,
  eqb, leb, ltb, if◌then◌else◌, ◌<>◌, join,
}
use aws_mcp_gateway.Errors.{Response, gateway_error, configuration_error, error_response}
use aws_mcp_gateway.Js.{Value, Fields, get, as_text}
use aws_mcp_gateway.RateLimit.{RateLimitConfig}
use aws_mcp_gateway.Manifest.{ResolvedToolExposure}
use aws_mcp_gateway.Exposure.{
  read_optional_string, validate_tool_exposure_config, default_resolved_tool_exposure,
}
use aws_mcp_gateway.Auth.{
  ValidatedOAuthConfig, ValidatedOAuthIntrospectionConfig, OAuthTokenValidationMode, jwks,
  introspection, hybrid,
}
use Urls.{
  UrlParser, when_some, validate_introspection_url, validate_issuer_url, validate_origin_url,
  validate_jwks_uri,
}

-- `AuthMode`
pub data AuthMode : Type 0 where
  local_bearer oauth : AuthMode

-- `AuthModeResolution`
pub data AuthModeResolution : Type 0 where
  resolved : AuthMode → AuthModeResolution
  unresolved : List String → AuthModeResolution

bad_auth_mode : AuthModeResolution
bad_auth_mode = unresolved ("AUTH_MODE (must be local-bearer or oauth)" ∷ [])

mode_of : Value → AuthModeResolution
unfolding bad_auth_mode
mode_of Value.undefined = resolved local_bearer
mode_of (Value.text s) =
    if trim s == "local-bearer"
    then resolved local_bearer
    else if trim s == "oauth"
    then resolved oauth
    else bad_auth_mode
mode_of v = bad_auth_mode

-- `resolveAuthMode`
unfoldable pub resolve_auth_mode : Fields → AuthModeResolution
unfolding mode_of
resolve_auth_mode bindings = mode_of (get "AUTH_MODE" bindings)

-- `{ valid, config, errors }`
pub record Checked (A : Type 0) : Type 0 where
  pub valid : Bool
  pub config : Option A
  pub errors : List String

abbrev pub accepted : {A : Type 0} → A → Checked A
accepted config = record { valid = true; config = some config; errors = [] }

abbrev pub rejected : {A : Type 0} → List String → Checked A
rejected errors = record { valid = false; config = none; errors = errors }

-- `if (test) errors.push(message)`
abbrev pub push_if : Bool → String → List String → List String
push_if true message errors = errors ++ message ∷ []
push_if false message errors = errors

-- `readRequiredString`, whose test is that of `readOptionalString`
unfoldable pub read_required_string : Fields → String → List String → Option String × List String
read_required_string bindings key errors =
    let value = read_optional_string bindings key in
    (value, push_if (not (is_some value)) key errors)

is_decimal_digit : ℕ → Bool
is_decimal_digit c = leb b'0' c && leb c b'9'

-- the digits that a text begins with, read after a number
digits_after : ℕ → String → ℕ
unfolding is_decimal_digit
digits_after n String.[] = n
digits_after n (String.◌∷◌ c s) =
    let more = digits_after (n * 10 + (code c - b'0')) s in
    if is_decimal_digit (code c) then more else n

unsigned : String → Option ℕ
unfolding digits_after
unsigned String.[] = none
unsigned (String.◌∷◌ c s) =
    if is_decimal_digit (code c) then some (digits_after 0 (String.◌∷◌ c s)) else none

-- the least whole number that rounds to infinity as a double
abbrev infinite_from : ℕ
infinite_from = 2 ^ 1024 - 2 ^ 970

positive_finite : Option ℕ → Option ℕ
positive_finite none = none
positive_finite (some n) = if ltb 0 n && ltb n infinite_from then some n else none

-- `Number.parseInt(value, 10)` of a trimmed text, where it is a number above 0 that is finite as a
-- double; a value above 2^53, which a double rounds, is kept exact
unfoldable pub parse_positive : String → Option ℕ
unfolding unsigned positive_finite
parse_positive String.[] = none
parse_positive (String.◌∷◌ c s) =
    positive_finite (if eqb (code c) b'+' then unsigned s else unsigned (String.◌∷◌ c s))

integer_or : Option ℕ → String → List String → ℕ → ℕ × List String
integer_or (some n) key errors fallback = (n, errors)
integer_or none key errors fallback =
    (fallback, errors ++ (key <> " (must be a positive integer)") ∷ [])

-- `parsePositiveInteger`
unfoldable pub parse_positive_integer : Option String → String → List String → ℕ → ℕ × List String
unfolding integer_or
parse_positive_integer none key errors fallback = (fallback, errors)
parse_positive_integer (some value) key errors fallback =
    integer_or (parse_positive value) key errors fallback

-- `resolveOAuthTokenValidationMode`
unfoldable pub resolve_token_validation_mode :
    Option String → List String → OAuthTokenValidationMode × List String
resolve_token_validation_mode none errors = (jwks, errors)
resolve_token_validation_mode (some value) errors =
    if value == "jwks"
    then (jwks, errors)
    else if value == "introspection"
    then (introspection, errors)
    else if value == "hybrid"
    then (hybrid, errors)
    else (
      jwks,
      errors ++ "OAUTH_TOKEN_VALIDATION_MODE (must be jwks, introspection, or hybrid)" ∷ [],
    )

is_defined : Value → Bool
is_defined Value.undefined = false
is_defined v = true

unfoldable pub unless_rejected : {A : Type 0} → List String → A → Checked A
unless_rejected [] config = accepted config
unless_rejected (e ∷ es) config = rejected (e ∷ es)

no_errors : List String → Bool
no_errors [] = true
no_errors (e ∷ es) = false

is_oauth : AuthMode → Bool
is_oauth oauth = true
is_oauth local_bearer = false

rate_limit_for : Fields → AuthMode → Checked RateLimitConfig
unfolding is_defined unless_rejected no_errors is_oauth
rate_limit_for bindings mode =
    let (max_requests, errors1) =
      parse_positive_integer (read_optional_string bindings "RATE_LIMIT_MAX_REQUESTS")
        "RATE_LIMIT_MAX_REQUESTS" [] 120 in
    let (window_seconds, errors2) =
      parse_positive_integer (read_optional_string bindings "RATE_LIMIT_WINDOW_SECONDS")
        "RATE_LIMIT_WINDOW_SECONDS" errors1 60 in
    let bound = is_defined (get "AUTH_RATE_LIMITER" bindings) in
    if not (is_oauth mode) && not bound
    then record { valid = no_errors errors2; config = none; errors = errors2 }
    else unless_rejected (push_if (not bound) "AUTH_RATE_LIMITER" errors2)
        (record { max_requests = max_requests; window_seconds = window_seconds })

rate_limit_resolved : Fields → AuthModeResolution → Checked RateLimitConfig
unfolding rate_limit_for
rate_limit_resolved bindings (unresolved errors) = rejected errors
rate_limit_resolved bindings (resolved mode) = rate_limit_for bindings mode

-- `validateRateLimitConfig`
unfoldable pub validate_rate_limit_config : Fields → Checked RateLimitConfig
unfolding rate_limit_resolved
validate_rate_limit_config bindings = rate_limit_resolved bindings (resolve_auth_mode bindings)
