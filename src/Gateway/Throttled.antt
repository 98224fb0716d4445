-- ===== src/Gateway/Throttled.antt =====
-- How often one caller's requests are handed over.
use aws_mcp_gateway.Base.{
  ℕ, ◌+◌, ◌*◌, ◌≤◌, ◌<◌, ◌≡◌, refl, inl, inr, true, false, Bool, Bool-cases, not, is_some, Option,
  none, some, String, List, [], ◌∷◌, ◌<>◌, ◌==◌, ◌&&◌, string_eq, if◌then◌else◌, All, arith,
}
use mathlib.Core.Bool.{and-false}
use aws_mcp_gateway.Errors.{Response}
use aws_mcp_gateway.Http.{Request}
use aws_mcp_gateway.Js.{Fields}
use aws_mcp_gateway.RateLimit.{RateLimitConfig, Namespace, Delivery, build_identity, enforce}
use aws_mcp_gateway.RateLimit.Enforce.{passes, passes-le}
use aws_mcp_gateway.Env.{validate_rate_limit_config}
use aws_mcp_gateway.Env.Limits.{validate_rate_limit_config_pos, validate_rate_limit_config-valid}
use aws_mcp_gateway.Gateway.{Outcome, answered, handed_over, World, after_limit, mcp, fetch}
use aws_mcp_gateway.Gateway.Admitted.{fetch_at_mcp}

is_handed_over : Outcome → Bool
is_handed_over (answered r) = false
is_handed_over (handed_over ctx) = true

-- the services at a time, and how the call of the rate limit's object goes
at_time : World → ℕ → Delivery → World
at_time w t how = record {
  parse_url = w.parse_url;
  verify = w.verify;
  introspect = w.introspect;
  sha256_hex = w.sha256_hex;
  now_ms = t;
  how = how;
}

module _ (w : World) (bindings : Fields) where
  -- How many of the named caller's requests are handed over, among requests of everybody for any path.
  unfoldable pub handovers : String → Namespace → List (Request × ℕ × Delivery) → ℕ
  unfolding is_handed_over at_time
  handovers name objects [] = 0
  handovers name objects ((r, t, how) ∷ rest) =
      let (objects', outcome) = fetch (at_time w t how) bindings r objects in
      (if "mcp:" <> build_identity w.sha256_hex r == name && is_handed_over outcome then 1 else 0)
      + handovers name objects' rest

  -- the requests for `/mcp`
  for_mcp : List (Request × ℕ × Delivery) → List (Request × ℕ × Delivery)
  for_mcp [] = []
  for_mcp ((r, t, how) ∷ rest) =
      if r.pathname == "/mcp" then (r, t, how) ∷ for_mcp rest else for_mcp rest

  All-for_mcp :
      (P : Request × ℕ × Delivery → Type 0) (rs : List (Request × ℕ × Delivery))
      → All P rs
      → All P (for_mcp rs)
  unfolding for_mcp
  All-for_mcp P [] h = tt
  All-for_mcp P ((r, t, how) ∷ rest) (h, hs) = elim (Bool-cases (r.pathname == "/mcp")) [
    | inl here ↦ rw here (h, All-for_mcp P rest hs)
    | inr away ↦ rw away (All-for_mcp P rest hs)
  ]

  after_limit-le :
      (v : World) (r : Request) (answer : Option Response)
      → (if is_handed_over (after_limit v bindings r answer) then 1 else 0)
        ≤ (if not (is_some answer) then 1 else 0)
  unfolding after_limit is_handed_over
  after_limit-le v r (some response) = omega arith
  after_limit-le v r none = ground arith

  module _ (config : RateLimitConfig) (name : String) where
    -- what the branch of `/mcp` hands over, the check in front of it let pass
    mcp-le :
        (r : Request) (objects : Namespace) (t : ℕ) (how : Delivery)
        → (validate_rate_limit_config bindings).config ≡ some config
        → ((mcp (at_time w t how) bindings r objects).0
            ≡ (enforce w.sha256_hex r (some config) t how objects).0)
          × ((if is_handed_over (mcp (at_time w t how) bindings r objects).1 then 1 else 0) ≤ (
              if not (is_some (enforce w.sha256_hex r (some config) t how objects).1)
              then 1
              else 0))
    unfolding mcp at_time
    mcp-le r objects t how e =
        rw (validate_rate_limit_config-valid bindings config e, e)
          (refl, after_limit-le (at_time w t how) r _)

    -- a request for another path leaves the windows alone
    fetch_away :
        (r : Request) (objects : Namespace) (t : ℕ) (how : Delivery)
        → (r.pathname == "/mcp") ≡ false
        → ((fetch (at_time w t how) bindings r objects).0 ≡ objects)
          × (is_handed_over (fetch (at_time w t how) bindings r objects).1 ≡ false)
    unfolding fetch is_handed_over
    fetch_away r objects t how away = ground arith

    handovers-le-passes :
        (objects : Namespace) (rs : List (Request × ℕ × Delivery))
        → (validate_rate_limit_config bindings).config ≡ some config
        → handovers name objects rs ≤ passes w.sha256_hex config name objects (for_mcp rs)
    unfolding handovers for_mcp passes
    handovers-le-passes objects [] e = omega arith
    handovers-le-passes objects ((r, t, how) ∷ rest) e = elim (Bool-cases (r.pathname == "/mcp")) [
      | inl here ↦
          let (same, le) = mcp-le r objects t how e in
          rw (here, fetch_at_mcp (at_time w t how) bindings r objects here, same)
            (ground (
              arith,
              le,
              handovers-le-passes (enforce w.sha256_hex r (some config) t how objects).0 rest e,
            ))
      | inr away ↦
          let (same, nothing) = fetch_away r objects t how away in
          rw (away, same, nothing, and-false) (omega (arith, handovers-le-passes objects rest e))
    ]

    -- Of all the requests that arrive within a stretch of the configured window, from any callers, for any
    -- paths and with any calls of the objects failing, the gateway hands over at most twice the configured
    -- number of one caller's requests.
    pub handovers-le :
        (start : ℕ) (objects : Namespace) (rs : List (Request × ℕ × Delivery))
        → (validate_rate_limit_config bindings).config ≡ some config
        → All (λ a. (start ≤ a.1) × (a.1 < start + config.window_seconds * 1000)) rs
        → handovers name objects rs ≤ 2 * config.max_requests
    handovers-le start objects rs e h = omega (
      arith,
      handovers-le-passes objects rs e,
      passes-le w.sha256_hex config name start objects (for_mcp rs)
          (validate_rate_limit_config_pos bindings config e).0 (All-for_mcp _ rs h),
    )
