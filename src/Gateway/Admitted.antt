-- ===== src/Gateway/Admitted.antt =====
-- Which requests the gateway hands over to the protocol's handler.
use aws_mcp_gateway.Base.{
  ◌≢◌, ◌≡◌, ◌↔◌, refl, sym, ap, inl, inr, true, false, Bool-cases, Option, none, some, String, List,
  ◌==◌, string_eq, string_eq_iff, includes, includes_iff, Memᴰ, comma_list, arith,
}
use mathlib.Core.Bool.{and-false}
use mathlib.Core.Option.{some-injective}
use aws_mcp_gateway.Errors.{Response}
use aws_mcp_gateway.Http.{Request}
use aws_mcp_gateway.Js.{Fields}
use aws_mcp_gateway.Regions.{parse_regions}
use aws_mcp_gateway.RateLimit.{Namespace, enforce}
use aws_mcp_gateway.Auth.{AuthResult, authenticated, refused}
use aws_mcp_gateway.Env.{validate_rate_limit_config}
use aws_mcp_gateway.Env.Deployment.{ValidatedGatewayConfig, validate_env}
use aws_mcp_gateway.Env.Deployment.Complete.{validate_env-IsComplete}
use aws_mcp_gateway.Gateway.{
  GatewayContext, build_gateway_context, answered, handed_over, World, authenticate_request,
  with_env, after_auth, after_limit, mcp, fetch,
}

listed_in :
    (raw region : String)
    → includes (comma_list raw) region ≡ true
    → includes (parse_regions (some raw)) region ≡ true
unfolding parse_regions comma_list
listed_in String.[] region h = cc h
listed_in (String.◌∷◌ c s) region h = h

path-ne : (p other : String) → p ≡ "/mcp" → ("/mcp" == other) ≡ false → (p == other) ≡ false
path-ne p other e h = rw e h

handed_over-injective : (c d : GatewayContext) → handed_over c ≡ handed_over d → c ≡ d
handed_over-injective c d h = ap (λ o. elim o [ answered r ↦ c | handed_over x ↦ x ]) h

authenticated-injective : (s t : List String) → authenticated s ≡ authenticated t → s ≡ t
authenticated-injective s t h = ap (λ r. elim r [ authenticated x ↦ x | refused r' ↦ s ]) h

module _ (w : World) (bindings : Fields) where
  with_env_iff :
      (scopes : List String) (config : Option ValidatedGatewayConfig) (es : List String)
      (ctx : GatewayContext)
      → (with_env w bindings scopes config es ≡ handed_over ctx) ↔ (
          (c : ValidatedGatewayConfig) × ((config ≡ some c)
            × (ctx ≡ build_gateway_context c (some scopes))))
  unfolding with_env
  with_env_iff scopes none es ctx = (λ h. cc, λ (c, (e, _)). absurd (cc e))
  with_env_iff scopes (some config) es ctx = (
    λ h. (config, (refl, sym (handed_over-injective _ _ h))),
    λ (c, (e, f)). rw (f, some-injective _ _ e) refl,
  )

  -- The caller is known, the settings are complete, and the context is made of both.
  abbrev pub IsAdmitted : Request → GatewayContext → Type 0
  IsAdmitted request ctx =
      (scopes : List String) × ((authenticate_request w bindings request ≡ authenticated scopes)
        × ((c : ValidatedGatewayConfig) × (((validate_env w.parse_url bindings).config ≡ some c)
              × (ctx ≡ build_gateway_context c (some scopes)))))

  after_auth_iff :
      (found : AuthResult) (ctx : GatewayContext)
      → (after_auth w bindings found ≡ handed_over ctx) ↔ (
          (scopes : List String) × ((found ≡ authenticated scopes)
            × ((c : ValidatedGatewayConfig) × (((validate_env w.parse_url bindings).config ≡ some c)
                  × (ctx ≡ build_gateway_context c (some scopes))))))
  unfolding after_auth
  after_auth_iff (refused r) ctx = (λ h. cc, λ (s, (e, _)). absurd (cc e))
  after_auth_iff (authenticated scopes) ctx =
      let (to, from) = with_env_iff scopes _ _ ctx in
      (
        λ h. (scopes, (refl, to h)),
        λ (s, (e, rest)). from (rw (sym (authenticated-injective _ _ e)) at rest),
      )

  after_limit_iff :
      (request : Request) (answer : Option Response) (ctx : GatewayContext)
      → (after_limit w bindings request answer ≡ handed_over ctx)
        ↔ ((answer ≡ none) × IsAdmitted request ctx)
  unfolding after_limit
  after_limit_iff request (some response) ctx = (λ h. cc, λ (e, _). absurd (cc e))
  after_limit_iff request none ctx =
      let (to, from) = after_auth_iff (authenticate_request w bindings request) ctx in
      (λ h. (refl, to h), λ (_, a). from a)

  -- The rate limit is valid and lets the request pass.
  abbrev pub IsWithinLimit : Request → Namespace → Type 0
  IsWithinLimit request objects =
      ((validate_rate_limit_config bindings).valid ≡ true)
      × ((enforce w.sha256_hex request (validate_rate_limit_config bindings).config w.now_ms w.how
            objects).1
          ≡ none)

  mcp_iff :
      (request : Request) (objects : Namespace) (ctx : GatewayContext)
      → ((mcp w bindings request objects).1 ≡ handed_over ctx)
        ↔ (IsWithinLimit request objects × IsAdmitted request ctx)
  unfolding mcp
  mcp_iff request objects ctx =
      let limit = validate_rate_limit_config bindings in
      let (to, from) =
        after_limit_iff request (enforce w.sha256_hex request limit.config w.now_ms w.how objects).1
          ctx in
      elim (Bool-cases (validate_rate_limit_config bindings).valid) [
        | inl valid ↦
            rw valid (λ h. let (e, a) = to h in ((refl, e), a), λ ((_, e), a). from (e, a))
        | inr invalid ↦ rw invalid (λ h. cc, λ ((e, _), _). absurd (cc e))
      ]

  pub fetch_at_mcp :
      (request : Request) (objects : Namespace)
      → (request.pathname == "/mcp") ≡ true
      → fetch w bindings request objects ≡ mcp w bindings request objects
  unfolding fetch
  fetch_at_mcp request objects h =
      let e = (string_eq_iff request.pathname "/mcp").0 h in
      rw
        (
          path-ne request.pathname "/health" e refl,
          path-ne request.pathname "/.well-known/oauth-protected-resource" e refl,
          h,
          and-false,
        )
        refl

  pub fetch_elsewhere :
      (request : Request) (objects : Namespace) (ctx : GatewayContext)
      → (request.pathname == "/mcp") ≡ false
      → (fetch w bindings request objects).1 ≢ handed_over ctx
  unfolding fetch
  fetch_elsewhere request objects ctx h e = ground arith

  -- A request is handed over to the protocol's handler exactly when it is for `/mcp`, the rate limit is valid
  -- and lets it pass, the caller is authenticated and the settings of the deployment are valid; and then
  -- the context is the one that is built of these settings and the caller's scopes.
  pub fetch-handed_over_iff :
      (request : Request) (objects : Namespace) (ctx : GatewayContext)
      → ((fetch w bindings request objects).1 ≡ handed_over ctx)
        ↔ ((request.pathname ≡ "/mcp") × (IsWithinLimit request objects × IsAdmitted request ctx))
  fetch-handed_over_iff request objects ctx =
      let (to, from) = mcp_iff request objects ctx in
      elim (Bool-cases (request.pathname == "/mcp")) [
        | inl here ↦
            rw (fetch_at_mcp request objects here)
              (λ h. ((string_eq_iff request.pathname "/mcp").0 here, to h), λ (_, rest). from rest)
        | inr away ↦ (
          λ h. absurd (fetch_elsewhere request objects ctx away h),
          λ (e, _). absurd (cc (away, (string_eq_iff request.pathname "/mcp").1 e)),
        )
      ]

  -- The context that a request is handed over with has a region that is among its allowed regions, the scopes
  -- that the caller was authenticated with.
  pub fetch-IsScoped :
      (request : Request) (objects : Namespace) (ctx : GatewayContext)
      → (fetch w bindings request objects).1 ≡ handed_over ctx
      → Memᴰ ctx.region ctx.allowed_regions
        × ((scopes : List String) × ((authenticate_request w bindings request
                ≡ authenticated scopes)
              × (ctx.granted_scopes ≡ some scopes)))
  unfolding build_gateway_context
  fetch-IsScoped request objects ctx h =
      let (_, (_, (scopes, (known, (c, (valid, built)))))) =
        (fetch-handed_over_iff request objects ctx).0 h in
      let (region, _) = validate_env-IsComplete w.parse_url bindings c valid in
      rw built (
        (includes_iff _ _).0 (listed_in c.aws_allowed_regions c.aws_region region),
        (scopes, (known, refl)),
      )
