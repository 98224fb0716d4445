-- ===== src/Env/OAuth/Usable.antt =====
-- What holds of the OAuth settings that are accepted.
use aws_mcp_gateway.Base.{
  inl, inr, is_some, ◌∷◌, or_else, comma_list, ◌≢◌, ◌&&◌, not, ◌≢◌, false, ◌≡◌, refl, sym, true,
  some, String, List, [], string_eq, string_eq_iff, arith, subst,
}
use mathlib.Core.Option.{some-injective}
use aws_mcp_gateway.Auth.Claims.{ends_with}
use aws_mcp_gateway.Js.{Fields}
use aws_mcp_gateway.Env.OAuth.{
  cross_checks, uses_introspection, validate_oauth_config, uses_jwks, differ, config_of,
  with_scopes, ValidatedOAuthConfig, OAuthValues, read_oauth_values,
}
use aws_mcp_gateway.Env.Urls.{UrlParser}
use aws_mcp_gateway.Env.Errors.{IsSettled, push_if-nil}
use aws_mcp_gateway.Env.OAuth.Reads.{IsHttpsOrigin, AreRead, read_oauth_values-AreRead}

-- What the deployment's OAuth settings have to be.
abbrev pub IsUsable : UrlParser → ValidatedOAuthConfig → Type 0
IsUsable parse_url c =
    IsHttpsOrigin parse_url c.mcp_resource_url
    × ((c.oauth_audience ≡ c.mcp_resource_url)
        × ((ends_with "/" c.oauth_issuer ≡ true)
            × ((c.oauth_required_scopes ≢ [])
                × ((uses_jwks c.oauth_token_validation_mode && not (is_some c.oauth_jwks_uri)
                      ≡ false)
                    × (uses_introspection c.oauth_token_validation_mode
                          && not (is_some c.oauth_introspection)
                        ≡ false)))))

scopes-some :
    (v : OAuthValues) (ss : List String) (c : ValidatedOAuthConfig)
    → (with_scopes v ss).config ≡ some c
    → (ss ≢ [])
      × (record {
        mcp_resource_url = or_else v.resource "";
        oauth_issuer = or_else v.issuer "";
        oauth_audience = or_else v.audience "";
        oauth_jwks_uri = v.jwks_uri;
        oauth_required_scopes = ss;
        oauth_token_validation_mode = v.mode;
        oauth_introspection = v.introspection_config;
      }
          ≡ c)
unfolding with_scopes
scopes-some v [] c h = cc
scopes-some v (s ∷ ss) c h = (λ e. cc, some-injective _ _ h)

config_of-some :
    (v : OAuthValues) (es : List String) (c : ValidatedOAuthConfig)
    → (config_of v es).config ≡ some c
    → (es ≡ []) × ((with_scopes v (comma_list (or_else v.scopes ""))).config ≡ some c)
unfolding config_of
config_of-some v (e ∷ es) c h = cc
config_of-some v [] c h = (refl, h)

differ-false : (a b : String) → differ (some a) (some b) ≡ false → a ≡ b
unfolding differ
differ-false a b h = ground (arith, string_eq_iff a b)

module _ (parse_url : UrlParser) where
  -- the record of accepted values, put together from what each of them was found to be
  values-IsUsable :
      (v : OAuthValues) (ss : List String)
      → AreRead parse_url v
      → differ v.resource v.audience ≡ false
      → ss ≢ []
      → (uses_jwks v.mode && not (is_some v.jwks_uri)) ≡ false
      → (uses_introspection v.mode && not (is_some v.introspection_config)) ≡ false
      → IsUsable parse_url (record {
        mcp_resource_url = or_else v.resource "";
        oauth_issuer = or_else v.issuer "";
        oauth_audience = or_else v.audience "";
        oauth_jwks_uri = v.jwks_uri;
        oauth_required_scopes = ss;
        oauth_token_validation_mode = v.mode;
        oauth_introspection = v.introspection_config;
      })
  values-IsUsable v ss ((r, (er, origin)), ((a, (ea, _)), (i, (ei, slash)))) same some_scope key
        endpoint =
      rw (er, ea, ei)
        (
          origin,
          (sym (differ-false r a (rw (er, ea) at same)), (slash, (some_scope, (key, endpoint)))),
        )

  -- The OAuth settings that `validateOAuthConfig` accepts are usable: the resource is the origin of an https
  -- URL that parses, the audience is the resource, the issuer ends in a slash, some scope is required, a mode
  -- that verifies with a key set has its URI, and a mode that asks the issuer has the endpoint.
  pub validate_oauth_config-IsUsable :
      (bindings : Fields) (config : ValidatedOAuthConfig)
      → (validate_oauth_config parse_url bindings).config ≡ some config
      → IsUsable parse_url config
  unfolding validate_oauth_config cross_checks
  validate_oauth_config-IsUsable b c h =
      let v = (read_oauth_values parse_url b).0 in
      let (none', built) = config_of-some v _ c h in
      let (e2, endpoint) = push_if-nil _ _ _ none' in
      let (e1, key) = push_if-nil _ _ _ e2 in
      let (e0, same) = push_if-nil _ _ _ e1 in
      let (some_scope, is_c) = scopes-some v _ c built in
      subst (IsUsable parse_url) is_c (
        values-IsUsable v _ (read_oauth_values-AreRead parse_url b e0) same some_scope key endpoint)

with_scopes-IsSettled : (v : OAuthValues) (ss : List String) → IsSettled (with_scopes v ss)
unfolding with_scopes
with_scopes-IsSettled v [] = inr (refl, λ e. cc e)
with_scopes-IsSettled v (s ∷ ss) = inl (refl, (_, refl))

config_of-IsSettled : (v : OAuthValues) (es : List String) → IsSettled (config_of v es)
unfolding config_of
config_of-IsSettled v [] = with_scopes-IsSettled v _
config_of-IsSettled v (e ∷ es) = inr (refl, λ e'. cc e')

module _ (parse_url : UrlParser) where
  pub oauth-IsSettled : (b : Fields) → IsSettled (validate_oauth_config parse_url b)
  unfolding validate_oauth_config
  oauth-IsSettled b = config_of-IsSettled (read_oauth_values parse_url b).0 _
