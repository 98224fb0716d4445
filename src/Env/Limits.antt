-- ===== src/Env/Limits.antt =====
-- The rate limit that a deployment is given.
use aws_mcp_gateway.Base.{
  ◌∷◌, true, eqb, if◌then◌else◌, ℕ, ◌<◌, ◌≡◌, refl, inl, inr, ◌&&◌, not, Bool-cases, Option, none,
  some, String, List, [], ◌∷◌, arith, subst,
}
use aws_mcp_gateway.Js.{Fields, get}
use aws_mcp_gateway.RateLimit.{RateLimitConfig}
use aws_mcp_gateway.Env.{
  unless_rejected, code, unsigned, AuthMode, AuthModeResolution, resolved, unresolved, is_defined,
  is_oauth, positive_finite, parse_positive, integer_or, parse_positive_integer, rate_limit_for,
  rate_limit_resolved, validate_rate_limit_config,
}
use aws_mcp_gateway.Env.Errors.{unless_rejected-some}

positive_finite_pos : (o : Option ℕ) (n : ℕ) → positive_finite o ≡ some n → 0 < n
unfolding positive_finite
positive_finite_pos none n h = cc
positive_finite_pos (some m) n h = ground arith

parse_positive_pos : (s : String) (n : ℕ) → parse_positive s ≡ some n → 0 < n
unfolding parse_positive
parse_positive_pos String.[] n h = cc
parse_positive_pos (String.◌∷◌ c s) n h =
    positive_finite_pos (if eqb (code c) b'+' then unsigned s else unsigned (String.◌∷◌ c s)) n h

integer_or_pos :
    (o : Option ℕ) (key : String) (es : List String) (fallback : ℕ)
    → ((n : ℕ) → o ≡ some n → 0 < n)
    → 0 < fallback
    → 0 < (integer_or o key es fallback).0
unfolding integer_or
integer_or_pos (some n) key es fallback pos h = pos n refl
integer_or_pos none key es fallback pos h = h

parse_positive_integer_pos :
    (o : Option String) (key : String) (es : List String) (fallback : ℕ)
    → 0 < fallback
    → 0 < (parse_positive_integer o key es fallback).0
unfolding parse_positive_integer
parse_positive_integer_pos none key es fallback h = h
parse_positive_integer_pos (some value) key es fallback h =
    integer_or_pos (parse_positive value) key es fallback (parse_positive_pos value) h

abbrev IsPositive : RateLimitConfig → Type 0
IsPositive c = (0 < c.max_requests) × (0 < c.window_seconds)

rate_limit_for_pos :
    (b : Fields) (mode : AuthMode) (c : RateLimitConfig)
    → (rate_limit_for b mode).config ≡ some c
    → IsPositive c
unfolding rate_limit_for
rate_limit_for_pos b mode c h =
    elim (Bool-cases (not (is_oauth mode) && not (is_defined (get "AUTH_RATE_LIMITER" b)))) [
      | inl nothing ↦ absurd (cc (rw nothing at h))
      | inr bound ↦
          let (_, e) = unless_rejected-some _ _ c (rw bound at h) in
          subst IsPositive e (
            parse_positive_integer_pos _ _ _ 120 (omega arith),
            parse_positive_integer_pos _ _ _ 60 (omega arith),
          )
    ]

rate_limit_resolved_pos :
    (b : Fields) (r : AuthModeResolution) (c : RateLimitConfig)
    → (rate_limit_resolved b r).config ≡ some c
    → IsPositive c
unfolding rate_limit_resolved
rate_limit_resolved_pos b (unresolved errors) c h = cc
rate_limit_resolved_pos b (resolved mode) c h = rate_limit_for_pos b mode c h

-- Whatever the bindings say, a deployment that is given a rate limit is given one with at least one
-- request and a window of at least one second.
pub validate_rate_limit_config_pos :
    (bindings : Fields) (c : RateLimitConfig)
    → (validate_rate_limit_config bindings).config ≡ some c
    → (0 < c.max_requests) × (0 < c.window_seconds)
unfolding validate_rate_limit_config
validate_rate_limit_config_pos bindings c h = rate_limit_resolved_pos bindings _ c h

unless_rejected-valid :
    (es : List String) (config c : RateLimitConfig)
    → (unless_rejected es config).config ≡ some c
    → (unless_rejected es config).valid ≡ true
unfolding unless_rejected
unless_rejected-valid [] config c h = refl
unless_rejected-valid (e ∷ es) config c h = absurd (cc h)

rate_limit_for-valid :
    (b : Fields) (mode : AuthMode) (c : RateLimitConfig)
    → (rate_limit_for b mode).config ≡ some c
    → (rate_limit_for b mode).valid ≡ true
unfolding rate_limit_for
rate_limit_for-valid b mode c h =
    elim (Bool-cases (not (is_oauth mode) && not (is_defined (get "AUTH_RATE_LIMITER" b)))) [
      | inl nothing ↦ absurd (cc (rw nothing at h))
      | inr bound ↦ rw bound (unless_rejected-valid _ _ c (rw bound at h))
    ]

resolved-valid :
    (b : Fields) (m : AuthModeResolution) (c : RateLimitConfig)
    → (rate_limit_resolved b m).config ≡ some c
    → (rate_limit_resolved b m).valid ≡ true
unfolding rate_limit_resolved
resolved-valid b (unresolved errors) c h = absurd (cc h)
resolved-valid b (resolved mode) c h = rate_limit_for-valid b mode c h

pub validate_rate_limit_config-valid :
    (bindings : Fields) (config : RateLimitConfig)
    → (validate_rate_limit_config bindings).config ≡ some config
    → (validate_rate_limit_config bindings).valid ≡ true
unfolding validate_rate_limit_config
validate_rate_limit_config-valid bindings config h = resolved-valid bindings _ config h
