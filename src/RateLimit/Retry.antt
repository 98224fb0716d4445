-- ===== src/RateLimit/Retry.antt =====
-- The window that a request leaves, and the advice of a decision: what remains, and when to come back.
use aws_mcp_gateway.Base.{
  ◌↔◌, ℕ, ◌+◌, ◌*◌, ◌-◌, ◌≤◌, ◌<◌, ◌≡◌, ◌⊎◌, true, false, Option, none, some, arith,
}
use aws_mcp_gateway.RateLimit.{RateLimitWindowState, RateLimitCheckPayload, evaluate}

-- The window that a request leaves: a new one, with the request in it, where there was none or the
-- old one has ended, and else the old one with one request more.
abbrev pub IsNext :
    Option RateLimitWindowState → RateLimitCheckPayload → RateLimitWindowState → Type 0
IsNext none p s' = (s'.count ≡ 1) × (s'.reset_at_ms ≡ p.now_ms + p.window_seconds * 1000)
IsNext (some s) p s' =
    ((s.reset_at_ms ≤ p.now_ms)
      × (s'.count ≡ 1)
      × (s'.reset_at_ms ≡ p.now_ms + p.window_seconds * 1000))
    ⊎ ((p.now_ms < s.reset_at_ms) × (s'.count ≡ s.count + 1) × (s'.reset_at_ms ≡ s.reset_at_ms))

-- Where windows last at least a second and admit at least one request, whatever the window was: the window
-- that is stored is a new one that counts this request alone, if there was none or the old one has ended,
-- and else the old one with one request more, whose end is unchanged; it ends after the request, when the
-- decision says; `limit` is the configured one, `remaining` is what that leaves of the new count, and the
-- request is allowed exactly when the new count is within the limit.
pub evaluate_accounts :
    (s : Option RateLimitWindowState) (p : RateLimitCheckPayload)
    → 0 < p.window_seconds
    → 0 < p.max_requests
    → let (s', d) = evaluate s p in
      IsNext s p s'
      × (p.now_ms < s'.reset_at_ms)
      × (d.reset_at_ms ≡ s'.reset_at_ms)
      × (d.limit ≡ p.max_requests)
      × (d.remaining ≡ p.max_requests - s'.count)
      × ((d.allowed ≡ true) ↔ (s'.count ≤ p.max_requests))
unfolding evaluate
evaluate_accounts none p lasts some_pass = ground arith
evaluate_accounts (some s) p lasts some_pass = ground arith

-- When a request is refused, the next one under the same limits is admitted if it comes at least
-- `retryAfterSeconds` later, and is refused if it comes any smaller number of whole seconds later.
pub evaluate-retry :
    (s : Option RateLimitWindowState) (p : RateLimitCheckPayload) (later n : ℕ)
    → (evaluate s p).1.allowed ≡ false
    → p.now_ms + (evaluate s p).1.retry_after_seconds * 1000 ≤ later
    → n < (evaluate s p).1.retry_after_seconds
    → let next = λ (t : ℕ). evaluate (some (evaluate s p).0) (record p { now_ms = t }) in
      ((next later).1.allowed ≡ true) × ((next (p.now_ms + n * 1000)).1.allowed ≡ false)
unfolding evaluate
evaluate-retry none p later n refused = ground arith
evaluate-retry (some s) p later n refused = ground arith
