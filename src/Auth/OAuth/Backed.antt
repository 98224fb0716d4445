-- ===== src/Auth/OAuth/Backed.antt =====
-- Every answer to a request with an access token is backed by claims that were vouched for.
use aws_mcp_gateway.Base.{
  ℕ, ◌≡◌, refl, ◌⊎◌, inl, inr, true, false, Bool-cases, Option, none, some, String, trim, is_empty,
}
use aws_mcp_gateway.Http.{Request}
use aws_mcp_gateway.Js.{Fields, get, as_text}
use aws_mcp_gateway.Auth.{
  AuthResult, authenticated, refused, bearer_token, ValidatedOAuthConfig, OAuthTokenValidationMode,
  jwks, introspection, hybrid, ValidatedOAuthIntrospectionConfig,
}
use aws_mcp_gateway.Auth.Claims.{is_likely_jwt}
use aws_mcp_gateway.Auth.Granted.{IsBacked, claims-IsBacked}
use aws_mcp_gateway.Auth.OAuth.{
  JwtVerifier, Introspector, IntrospectionReply, failed, unreadable, answered, properties,
  is_active, wrong_issuer, introspected, payload_result, reply_result, verified_result,
  introspection_with, jwks_with, authenticate_via_introspection, authenticate_via_jwks,
  first_attempt, or_refused, fall_back, with_bearer, authenticate_oauth_request,
}

module _ (verify : JwtVerifier) (introspect : Introspector) (now : ℕ) where
  -- The verifier accepted the token, with the configured key set and issuer.
  abbrev pub IsSigned : ValidatedOAuthConfig → String → Fields → Type 0
  IsSigned config token claims =
      (uri : String) × ((config.oauth_jwks_uri ≡ some uri)
        × (verify uri token config.oauth_issuer ≡ some claims))

  -- The issuer's endpoint said that the token is active, and named no other issuer.
  abbrev pub IsActive : ValidatedOAuthConfig → String → Fields → Type 0
  IsActive config token claims =
      (endpoint : ValidatedOAuthIntrospectionConfig) × (attempt : ℕ) × ((config.oauth_introspection
          ≡ some endpoint)
        × (((value : _) × ((introspect attempt endpoint token ≡ some (answered value))
                × (properties value ≡ some claims)))
            × ((is_active claims ≡ true)
                × (wrong_issuer (as_text (get "iss" claims)) config.oauth_issuer ≡ false))))

  -- How each mode of validation has to vouch for the claims.
  abbrev pub IsVouched : OAuthTokenValidationMode → ValidatedOAuthConfig → String → Fields → Type 0
  IsVouched jwks config token claims = IsSigned config token claims
  IsVouched introspection config token claims = IsActive config token claims
  IsVouched hybrid config token claims = IsSigned config token claims ⊎ IsActive config token claims

-- The same of an answer that may be a throw.
abbrev IsBackedIf : ValidatedOAuthConfig → ℕ → (Fields → Type 0) → Option AuthResult → Type 0
IsBackedIf config now V none = Unit
IsBackedIf config now V (some result) = IsBacked config now V result

-- What backs an answer in one way backs it in any wider way.
weaken :
    (config : ValidatedOAuthConfig) (now : ℕ) (V W : Fields → Type 0)
    → ((claims : Fields) → V claims → W claims)
    → (result : AuthResult) → IsBacked config now V result
    → IsBacked config now W result
weaken config now V W f (authenticated scopes) (claims, (v, grants)) =
    (claims, (f claims v, grants))
weaken config now V W f (refused r) (inl e) = inl e
weaken config now V W f (refused r) (inr (claims, (v, lacks))) = inr (claims, (f claims v, lacks))

weaken_if :
    (config : ValidatedOAuthConfig) (now : ℕ) (V W : Fields → Type 0)
    → ((claims : Fields) → V claims → W claims)
    → (o : Option AuthResult) → IsBackedIf config now V o
    → IsBackedIf config now W o
weaken_if config now V W f none b = tt
weaken_if config now V W f (some result) b = weaken config now V W f result b

introspected-IsBacked :
    (config : ValidatedOAuthConfig) (now : ℕ) (V : Fields → Type 0) (claims : Fields)
    → (is_active claims ≡ true
        → wrong_issuer (as_text (get "iss" claims)) config.oauth_issuer ≡ false
        → V claims)
    → IsBacked config now V (introspected config now claims)
unfolding introspected
introspected-IsBacked config now V claims v = elim (Bool-cases (is_active claims)) [
  | inr off ↦ rw off (inl refl)
  | inl on ↦ elim (Bool-cases (wrong_issuer (as_text (get "iss" claims)) config.oauth_issuer)) [
    | inl wrong ↦ rw (on, wrong) (inl refl)
    | inr right ↦ rw (on, right) (claims-IsBacked config now V claims (v on right))
  ]
]

module _ (verify : JwtVerifier) (introspect : Introspector) (now : ℕ) where
  payload-IsBackedIf :
      (config : ValidatedOAuthConfig) (token : String)
      (endpoint : ValidatedOAuthIntrospectionConfig) (attempt : ℕ) (value : _) (o : Option Fields)
      → config.oauth_introspection ≡ some endpoint
      → introspect attempt endpoint token ≡ some (answered value)
      → properties value ≡ o
      → IsBackedIf config now
          (IsActive verify introspect now config token)
          (payload_result config now o)
  unfolding payload_result
  payload-IsBackedIf config token endpoint attempt value none e i p = tt
  payload-IsBackedIf config token endpoint attempt value (some claims) e i p =
      introspected-IsBacked config now _ claims
        (λ on right. (endpoint, attempt, (e, ((value, (i, p)), (on, right)))))

  reply-IsBackedIf :
      (config : ValidatedOAuthConfig) (token : String)
      (endpoint : ValidatedOAuthIntrospectionConfig) (attempt : ℕ) (o : Option IntrospectionReply)
      → config.oauth_introspection ≡ some endpoint
      → introspect attempt endpoint token ≡ o
      → IsBackedIf config now
          (IsActive verify introspect now config token)
          (reply_result config now o)
  unfolding reply_result
  reply-IsBackedIf config token endpoint attempt none e i = tt
  reply-IsBackedIf config token endpoint attempt (some failed) e i = inl refl
  reply-IsBackedIf config token endpoint attempt (some unreadable) e i = tt
  reply-IsBackedIf config token endpoint attempt (some (answered value)) e i =
      payload-IsBackedIf config token endpoint attempt value (properties value) e i refl

  asked-IsBackedIf :
      (attempt : ℕ) (token : String) (config : ValidatedOAuthConfig)
      (o : Option ValidatedOAuthIntrospectionConfig)
      → config.oauth_introspection ≡ o
      → IsBackedIf config now
          (IsActive verify introspect now config token)
          (introspection_with verify introspect now attempt token config o)
  unfolding introspection_with
  asked-IsBackedIf attempt token config none e = inl refl
  asked-IsBackedIf attempt token config (some endpoint) e =
      reply-IsBackedIf config token endpoint attempt _ e refl

  verified-IsBackedIf :
      (config : ValidatedOAuthConfig) (token uri : String) (o : Option Fields)
      → config.oauth_jwks_uri ≡ some uri
      → verify uri token config.oauth_issuer ≡ o
      → IsBackedIf config now
          (IsSigned verify introspect now config token)
          (verified_result config now o)
  unfolding verified_result
  verified-IsBackedIf config token uri none e v = tt
  verified-IsBackedIf config token uri (some claims) e v =
      claims-IsBacked config now _ claims (uri, (e, v))

  by_keys-IsBackedIf :
      (token : String) (config : ValidatedOAuthConfig) (o : Option String)
      → config.oauth_jwks_uri ≡ o
      → IsBackedIf config now
          (IsSigned verify introspect now config token)
          (jwks_with verify introspect now token config o)
  unfolding jwks_with
  by_keys-IsBackedIf token config none e = inl refl
  by_keys-IsBackedIf token config (some uri) e = verified-IsBackedIf config token uri _ e refl

  first-IsBackedIf :
      (mode : OAuthTokenValidationMode) (token : String) (config : ValidatedOAuthConfig)
      → IsBackedIf config now
          (IsVouched verify introspect now mode config token)
          (first_attempt verify introspect now mode token config)
  unfolding first_attempt authenticate_via_introspection authenticate_via_jwks
  first-IsBackedIf jwks token config = by_keys-IsBackedIf token config _ refl
  first-IsBackedIf introspection token config = asked-IsBackedIf 0 token config _ refl
  first-IsBackedIf hybrid token config = elim (Bool-cases (is_likely_jwt token)) [
    | inl jwt ↦
        rw jwt (weaken_if config now _ _ (λ _ v. inl v) _ (by_keys-IsBackedIf token config _ refl))
    | inr other ↦
        rw other
          (weaken_if config now _ _ (λ _ v. inr v) _ (asked-IsBackedIf 0 token config _ refl))
  ]

  or_refused-IsBacked :
      (config : ValidatedOAuthConfig) (V : Fields → Type 0) (o : Option AuthResult)
      → IsBackedIf config now V o
      → IsBacked config now V (or_refused verify introspect now config o)
  unfolding or_refused
  or_refused-IsBacked config V none b = inl refl
  or_refused-IsBacked config V (some result) b = b

  fall_back-IsBacked :
      (mode : OAuthTokenValidationMode) (token : String) (config : ValidatedOAuthConfig)
      (o : Option AuthResult)
      → IsBackedIf config now (IsVouched verify introspect now mode config token) o
      → IsBacked config now
          (IsVouched verify introspect now mode config token)
          (fall_back verify introspect now mode token config o)
  unfolding fall_back authenticate_via_introspection
  fall_back-IsBacked mode token config (some result) b = b
  fall_back-IsBacked hybrid token config none b =
      or_refused-IsBacked config _ _
        (weaken_if config now _ _ (λ _ v. inr v) _ (asked-IsBackedIf 1 token config _ refl))
  fall_back-IsBacked jwks token config none b = inl refl
  fall_back-IsBacked introspection token config none b = inl refl

  -- The token that a header carries is the one that was vouched for.
  abbrev pub HeaderVouches : ValidatedOAuthConfig → Option String → Fields → Type 0
  HeaderVouches config none claims = ⊥
  HeaderVouches config (some rest) claims =
      IsVouched verify introspect now config.oauth_token_validation_mode config (trim rest) claims

  bearer-IsBacked :
      (config : ValidatedOAuthConfig) (o : Option String)
      → IsBacked config now (HeaderVouches config o) (with_bearer verify introspect now config o)
  unfolding with_bearer
  bearer-IsBacked config none = inl refl
  bearer-IsBacked config (some rest) = elim (Bool-cases (is_empty (trim rest))) [
    | inl empty ↦ rw empty (inl refl)
    | inr full ↦ rw full (
        fall_back-IsBacked config.oauth_token_validation_mode (trim rest) config _
          (first-IsBackedIf config.oauth_token_validation_mode (trim rest) config))
  ]

-- Whatever the verifier and the introspection endpoint answer, a request with an access token is
-- granted scopes only where claims of its bearer token, vouched for in the way that the mode of
-- validation asks (the configured keys and issuer, the issuer's endpoint, or one of them), name an
-- audience of the gateway, hold at the time and give every required scope, and then it is granted
-- exactly the scopes of those claims. It is refused otherwise, with a 403 only where such claims
-- lack a required scope and with a 401 in every other case.
pub authenticate_oauth_request-IsBacked :
    (verify : JwtVerifier) (introspect : Introspector) (now : ℕ) (request : Request)
    (config : ValidatedOAuthConfig)
    → IsBacked config now
        (HeaderVouches verify introspect now config (bearer_token (request.header "Authorization")))
        (authenticate_oauth_request verify introspect now request config)
unfolding authenticate_oauth_request
authenticate_oauth_request-IsBacked verify introspect now request config =
    bearer-IsBacked verify introspect now config (bearer_token (request.header "Authorization"))
