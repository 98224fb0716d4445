-- ===== src/Env/Urls.antt =====
-- config/oauth-urls.ts: which URLs an OAuth deployment may be configured with. `new URL`, which parses
-- and normalises a URL, is a parameter; `none` is its throw.
use aws_mcp_gateway.Base.{
  ◌||◌, ◌&&◌, not, Option, none, some, String, List, [], ◌∷◌, ◌++◌, ◌!=◌, string_eq, is_empty,
  if◌then◌else◌, ◌<>◌,
}
use aws_mcp_gateway.Auth.Claims.{ends_with}

-- The parts of a `URL` that are read.
pub record Url : Type 0 where
  pub protocol : String
  pub host : String
  pub hostname : String
  pub pathname : String
  pub search : String
  pub hash : String

abbrev pub UrlParser : Type 0
UrlParser = String → Option Url

-- What is wrong with a value is pushed with its key, and the value is then none; else it is kept.
abbrev pub accept_or : String → Option String → String → List String → Option String × List String
accept_or key none value errors = (some value, errors)
accept_or key (some problem) value errors = (none, errors ++ (key <> problem) ∷ [])

-- the three tests of `validateHttpsUrl`
unfoldable pub https_problem : Option Url → Option String
https_problem none = some " (invalid URL)"
https_problem (some url) =
    if url.protocol != "https:"
    then some " (must be an https URL)"
    else if is_empty url.hostname
    then some " (invalid URL)"
    else none

-- the tests of the paths of resource and audience
unfoldable pub origin_problem : Url → Option String
origin_problem url =
    if url.pathname != "/" && not (is_empty url.pathname)
    then some " (must not include a path)"
    else if not (is_empty url.search) || not (is_empty url.hash)
    then some " (must not include query or fragment)"
    else none

-- the test of the path of a key set
unfoldable pub jwks_problem : Url → Option String
jwks_problem url =
    if not (ends_with "/.well-known/jwks.json" url.pathname)
      && url.pathname != "/.well-known/jwks.json"
    then some " (must end with /.well-known/jwks.json)"
    else none

-- `normalizeHttpsOrigin`
unfoldable pub normalize_https_origin : Url → String
normalize_https_origin url = url.protocol <> "//" <> url.host

-- `validated.endsWith("/") ? validated : validated + "/"`
unfoldable pub with_slash : String → String
with_slash url = if ends_with "/" url then url else url <> "/"

-- A second `new URL` of a value that `validateHttpsUrl` let pass.
unfoldable pub origin_of : String → Option Url → List String → Option String × List String
unfolding origin_problem normalize_https_origin
origin_of key none errors = (none, errors ++ (key <> " (invalid URL)") ∷ [])
origin_of key (some url) errors =
    accept_or key (origin_problem url) (normalize_https_origin url) errors

unfoldable pub jwks_of : String → Option Url → List String → Option String × List String
unfolding jwks_problem
jwks_of value none errors = (none, errors ++ "OAUTH_JWKS_URI (invalid URL)" ∷ [])
jwks_of value (some url) errors = accept_or "OAUTH_JWKS_URI" (jwks_problem url) value errors

-- `x === null ? null : validate(x, errors)`, and `if (validated === null) return null`
unfoldable pub when_some :
    Option String × List String
    → (String → List String → Option String × List String)
    → Option String × List String
when_some (none, errors) next = (none, errors)
when_some (some value, errors) next = next value errors

module _ (parse_url : UrlParser) where
  -- `validateHttpsUrl`
  unfoldable pub validate_https_url : String → String → List String → Option String × List String
  unfolding https_problem
  validate_https_url value key errors = accept_or key (https_problem (parse_url value)) value errors

  -- `validateOAuthIntrospectionUrl`
  unfoldable pub validate_introspection_url : String → List String → Option String × List String
  unfolding validate_https_url
  validate_introspection_url value errors =
      validate_https_url value "OAUTH_INTROSPECTION_URL" errors

  -- `validateOAuthIssuerUrl`
  unfoldable pub validate_issuer_url : String → List String → Option String × List String
  unfolding validate_https_url when_some with_slash
  validate_issuer_url value errors =
      when_some (validate_https_url value "OAUTH_ISSUER" errors) (λ v es. (some (with_slash v), es))

  -- `validateOAuthResourceUrl` and `validateOAuthAudienceUrl`, which differ in the key
  unfoldable pub validate_origin_url : String → String → List String → Option String × List String
  unfolding validate_https_url when_some origin_of
  validate_origin_url key value errors =
      when_some (validate_https_url value key errors) (λ v es. origin_of key (parse_url v) es)

  -- `validateOAuthJwksUri`
  unfoldable pub validate_jwks_uri : String → List String → Option String × List String
  unfolding validate_https_url when_some jwks_of
  validate_jwks_uri value errors =
      when_some (validate_https_url value "OAUTH_JWKS_URI" errors)
        (λ v es. jwks_of v (parse_url v) es)
