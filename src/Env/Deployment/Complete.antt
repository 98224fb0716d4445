-- ===== src/Env/Deployment/Complete.antt =====
-- What holds of the settings that `validateEnv` accepts.
use mathlib.Core.Option.{some-injective}
use aws_mcp_gateway.Base.{
  ◌<◌, ◌≡◌, refl, true, Bool-cases, inl, inr, Option, none, some, or_else, String, string_eq, List,
  [], ◌∷◌, ◌++◌, includes, comma_list, subst,
}
use aws_mcp_gateway.Js.{Fields}
use aws_mcp_gateway.RateLimit.{RateLimitConfig}
use aws_mcp_gateway.Manifest.{ResolvedToolExposure}
use aws_mcp_gateway.Exposure.{validate_tool_exposure_config}
use aws_mcp_gateway.Auth.{ValidatedOAuthConfig}
use aws_mcp_gateway.Env.{
  AuthMode, local_bearer, oauth, AuthModeResolution, resolved, unresolved, resolve_auth_mode,
  Checked, validate_rate_limit_config, rate_limit_resolved, rate_limit_for, is_oauth,
}
use aws_mcp_gateway.Env.Urls.{UrlParser}
use aws_mcp_gateway.Env.Errors.{
  IsSettled, unless_rejected-IsSettled, IsThere, required-nil, pushed-ne-nil,
}
use aws_mcp_gateway.Env.Limits.{validate_rate_limit_config_pos}
use aws_mcp_gateway.Env.OAuth.Usable.{IsUsable, oauth-IsSettled, validate_oauth_config-IsUsable}
use aws_mcp_gateway.Env.Deployment.{
  env_values, ValidatedGatewayConfig, EnvValues, region_errors, allowed_errors, taken,
  exposure_config, with_exposure, mode_values, env_for, env_resolved, validate_env,
}

region_errors-nil :
    (region : String) (rs es : List String)
    → region_errors (some region) rs es ≡ []
    → (es ≡ []) × (includes rs region ≡ true)
unfolding region_errors
region_errors-nil region [] es h = absurd (pushed-ne-nil es _ h)
region_errors-nil region (r ∷ rs) es h = elim (Bool-cases (includes (r ∷ rs) region)) [
  | inl found ↦ (rw found at h, found)
  | inr missing ↦ absurd (pushed-ne-nil es _ (rw missing at h))
]

region_errors-back :
    (region : Option String) (rs es : List String) → region_errors region rs es ≡ [] → es ≡ []
unfolding region_errors
region_errors-back region [] es h = absurd (pushed-ne-nil es _ h)
region_errors-back none (r ∷ rs) es h = h
region_errors-back (some region) (r ∷ rs) es h = (region_errors-nil region (r ∷ rs) es h).0

append-nil : (es fs : List String) → es ++ fs ≡ [] → (es ≡ []) × (fs ≡ [])
append-nil [] fs h = (refl, h)
append-nil (e ∷ es) fs h = cc

taken-nil :
    {A : Type 0} (c : Checked A) (es : List String)
    → IsSettled c
    → (taken c es).1 ≡ []
    → (es ≡ []) × ((config : A) × ((c.config ≡ some config) × ((taken c es).0 ≡ some config)))
unfolding taken
taken-nil c es (inl (valid, (config, e))) h = (rw valid at h, (config, (e, rw valid e)))
taken-nil c es (inr (invalid, errors)) h = absurd (errors (append-nil es _ (rw invalid at h)).1)

rate_limit-IsSettled :
    (b : Fields) → resolve_auth_mode b ≡ resolved oauth → IsSettled (validate_rate_limit_config b)
unfolding validate_rate_limit_config rate_limit_resolved rate_limit_for is_oauth
rate_limit-IsSettled b mode = rw mode (unless_rejected-IsSettled _ _)

module _ (parse_url : UrlParser) where
  -- What each mode of authentication needs.
  abbrev pub HasMode :
      AuthMode → Option String → Option ValidatedOAuthConfig → Option RateLimitConfig → Type 0
  HasMode local_bearer token config limit = IsThere token
  HasMode oauth token config limit =
      ((c : ValidatedOAuthConfig) × ((config ≡ some c) × IsUsable parse_url c))
      × ((l : RateLimitConfig) × ((limit ≡ some l)
            × ((0 < l.max_requests) × (0 < l.window_seconds))))

  mode_values-HasMode :
      (mode : AuthMode) (b : Fields) (es : List String)
      → resolve_auth_mode b ≡ resolved mode
      → (mode_values parse_url mode b es).1.1.1 ≡ []
      → (es ≡ [])
        × HasMode mode
            (mode_values parse_url mode b es).0
            (mode_values parse_url mode b es).1.0
            (mode_values parse_url mode b es).1.1.0
  unfolding mode_values
  mode_values-HasMode local_bearer b es r h = required-nil b _ es h
  mode_values-HasMode oauth b es r h =
      let (h1, (limit, (el, tl))) = taken-nil _ _ (rate_limit-IsSettled b r) h in
      let (h0, (config, (ec, tc))) = taken-nil _ _ (oauth-IsSettled parse_url b) h1 in
      (
        h0,
        (
          (config, (tc, validate_oauth_config-IsUsable parse_url b config ec)),
          (limit, (tl, validate_rate_limit_config_pos b limit el)),
        ),
      )

  -- The region is one of those allowed, and the mode of authentication has what it needs.
  abbrev pub IsComplete : ValidatedGatewayConfig → Type 0
  IsComplete c =
      (includes (comma_list c.aws_allowed_regions) c.aws_region ≡ true)
      × HasMode c.auth_mode c.mcp_auth_token c.oauth_config c.rate_limit

  exposure_config-IsComplete :
      (mode : AuthMode) (b : Fields) (v : EnvValues) (exposure : Option ResolvedToolExposure)
      (es : List String) (c : ValidatedGatewayConfig)
      → includes (comma_list (or_else v.allowed_regions "")) (or_else v.region "") ≡ true
      → HasMode mode v.auth_token v.oauth_values v.rate_limit_values
      → (exposure_config mode b v exposure es).config ≡ some c
      → IsComplete c
  unfolding exposure_config
  exposure_config-IsComplete mode b v exposure (e ∷ es) c region needs h = absurd (cc h)
  exposure_config-IsComplete mode b v exposure [] c region needs h =
      subst IsComplete (some-injective _ _ h) (region, needs)

  with_exposure-IsComplete :
      (mode : AuthMode) (b : Fields) (v : EnvValues) (es : List String) (c : ValidatedGatewayConfig)
      → (es ≡ []
          → (includes (comma_list (or_else v.allowed_regions "")) (or_else v.region "") ≡ true)
            × HasMode mode v.auth_token v.oauth_values v.rate_limit_values)
      → (with_exposure mode b v es).config ≡ some c
      → IsComplete c
  unfolding with_exposure
  with_exposure-IsComplete mode b v (e ∷ es) c found h = absurd (cc h)
  with_exposure-IsComplete mode b v [] c found h =
      let (region, needs) = found refl in
      exposure_config-IsComplete mode b v (validate_tool_exposure_config b []).0 _ c region needs h

  allowed_errors-nil :
      (region allowed : Option String) (es : List String)
      → IsThere region
      → IsThere allowed
      → allowed_errors region allowed es ≡ []
      → (es ≡ []) × (includes (comma_list (or_else allowed "")) (or_else region "") ≡ true)
  unfolding allowed_errors
  allowed_errors-nil region allowed es (r, er) (a, ea) h =
      rw (er, ea) (region_errors-nil r (comma_list a) es (rw (er, ea) at h))

  allowed_errors-back :
      (region allowed : Option String) (es : List String)
      → allowed_errors region allowed es ≡ []
      → es ≡ []
  unfolding allowed_errors region_errors
  allowed_errors-back region none es h = h
  allowed_errors-back region (some raw) es h = region_errors-back region (comma_list raw) es h

  env_for-IsComplete :
      (mode : AuthMode) (b : Fields) (c : ValidatedGatewayConfig)
      → resolve_auth_mode b ≡ resolved mode
      → (env_for parse_url mode b).config ≡ some c
      → IsComplete c
  unfolding env_for env_values
  env_for-IsComplete mode b c r h =
      with_exposure-IsComplete mode b (env_values parse_url mode b).0 _ c
        (λ none'.
          let h5 = allowed_errors-back _ _ _ none' in
          let (h4, needs) = mode_values-HasMode mode b _ r h5 in
          let (h3, allowed) = required-nil b _ _ h4 in
          let (_, region) = required-nil b _ _ h3 in
          ((allowed_errors-nil _ _ _ region allowed none').1, needs))
        h

  env_resolved-IsComplete :
      (b : Fields) (m : AuthModeResolution) (c : ValidatedGatewayConfig)
      → resolve_auth_mode b ≡ m
      → (env_resolved parse_url b m).config ≡ some c
      → IsComplete c
  unfolding env_resolved
  env_resolved-IsComplete b (unresolved errors) c r h = absurd (cc h)
  env_resolved-IsComplete b (resolved mode) c r h = env_for-IsComplete mode b c r h

  -- The settings that `validateEnv` accepts are complete: the region is one of the allowed regions, a
  -- deployment with a local token has that token, and one with OAuth has usable OAuth settings and a rate
  -- limit whose number of requests and window are above 0.
  pub validate_env-IsComplete :
      (bindings : Fields) (config : ValidatedGatewayConfig)
      → (validate_env parse_url bindings).config ≡ some config
      → IsComplete config
  unfolding validate_env
  validate_env-IsComplete bindings config h = env_resolved-IsComplete bindings _ config refl h
