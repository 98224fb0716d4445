-- ===== src/RateLimit/Window.antt =====
-- What a fixed window admits: the decisions of `evaluate` over a sequence of requests.
use aws_mcp_gateway.Base.{
  ℕ, zero, suc, ◌+◌, ◌*◌, ◌-◌, ◌≤◌, ◌<◌, ◌≡◌, refl, inl, inr, Bool, true, false, Option, none, some,
  List, [], ◌∷◌, All, All-imp, arith, leb, if◌then◌else◌, Bool-cases, leb→le,
}
use aws_mcp_gateway.RateLimit.{RateLimitWindowState, RateLimitCheckPayload, evaluate}

-- The number of requests that were let through.
abbrev pub admitted : List Bool → ℕ
admitted [] = 0
admitted (b ∷ bs) = (if b then 1 else 0) + admitted bs

-- No window is open at this time.
abbrev pub IsExpired : ℕ → Option RateLimitWindowState → Type 0
IsExpired now none = Unit
IsExpired now (some s) = s.reset_at_ms ≤ now

module _ (max_requests window_seconds : ℕ) where
  abbrev at : ℕ → RateLimitCheckPayload
  at now_ms = record {
    max_requests = max_requests;
    window_seconds = window_seconds;
    now_ms = now_ms;
  }

  -- The answers that one durable object gives to requests at these times, one after the other.
  unfoldable pub serve : Option RateLimitWindowState → List ℕ → List Bool
  serve s [] = []
  serve s (t ∷ ts) = let (s', decision) = evaluate s (at t) in decision.allowed ∷ serve (some s') ts

  -- The first so many requests are admitted, and no later one.
  abbrev pub quota : ℕ → List ℕ → List Bool
  quota left [] = []
  quota zero (t ∷ ts) = false ∷ quota zero ts
  quota (suc left) (t ∷ ts) = true ∷ quota left ts

  admitted-quota-le : (left : ℕ) (ts : List ℕ) → admitted (quota left ts) ≤ left
  admitted-quota-le left [] = omega arith
  admitted-quota-le zero (t ∷ ts) = omega (arith, admitted-quota-le zero ts)
  admitted-quota-le (suc left) (t ∷ ts) = omega (arith, admitted-quota-le left ts)

  -- While a window is open, what is left of its quota is admitted and nothing more.
  serve-open :
      (s : RateLimitWindowState) (ts : List ℕ)
      → All (λ t. t < s.reset_at_ms) ts
      → serve (some s) ts ≡ quota (max_requests - s.count) ts
  unfolding serve evaluate
  serve-open s [] h = refl
  serve-open s (t ∷ ts) h =
      ground
        (arith, serve-open (record { count = s.count + 1; reset_at_ms = s.reset_at_ms }) ts h.1)

  serve-open_lem :
      (s : Option RateLimitWindowState) (t : ℕ) (ts : List ℕ)
      → IsExpired t s
      → All (λ u. u < t + window_seconds * 1000) ts
      → serve s (t ∷ ts) ≡ true ∷ quota (max_requests - 1) ts
  unfolding serve evaluate
  serve-open_lem none t ts _ h =
      ground
        (arith, serve-open (record { count = 1; reset_at_ms = t + window_seconds * 1000 }) ts h)
  serve-open_lem (some s) t ts e h =
      ground
        (arith, serve-open (record { count = 1; reset_at_ms = t + window_seconds * 1000 }) ts h)

  -- A request that finds no open window opens one, and of the requests until that window ends
  -- exactly the first `maxRequests` are admitted, where `maxRequests` is positive.
  pub serve-eq-quota :
      (s : Option RateLimitWindowState) (t : ℕ) (ts : List ℕ)
      → 0 < max_requests
      → IsExpired t s
      → All (λ u. u < t + window_seconds * 1000) ts
      → serve s (t ∷ ts) ≡ quota max_requests (t ∷ ts)
  serve-eq-quota s t ts pos e h = ground (arith, serve-open_lem s t ts e h)

  module _ (start : ℕ) (pos : 0 < max_requests) where
    abbrev Within : ℕ → Type 0
    Within t = (start ≤ t) × (t < start + window_seconds * 1000)

    admitted-fresh-le :
        (s : Option RateLimitWindowState) (t : ℕ) (ts : List ℕ)
        → IsExpired t s
        → start ≤ t
        → All Within ts
        → admitted (serve s (t ∷ ts)) ≤ max_requests
    admitted-fresh-le s t ts e from h =
        rw (serve-eq-quota s t ts pos e (All-imp (λ u w. omega arith) ts h))
          (admitted-quota-le max_requests (t ∷ ts))

    admitted-some-le :
        (s : RateLimitWindowState) (ts : List ℕ)
        → All Within ts
        → admitted (serve (some s) ts) ≤ (max_requests - s.count) + max_requests
    unfolding serve evaluate
    admitted-some-le s [] h = omega arith
    admitted-some-le s (t ∷ ts) h = elim (Bool-cases (leb s.reset_at_ms t)) [
      | inl over ↦ omega (arith, admitted-fresh-le (some s) t ts (leb→le _ _ over) h.0.0 h.1)
      | inr more ↦ ground (
        arith,
        admitted-some-le (record { count = s.count + 1; reset_at_ms = s.reset_at_ms }) ts h.1,
      )
    ]

  -- Whatever the window was, the requests that fall into any stretch of `windowSeconds` are admitted
  -- at most `2 * maxRequests` times, in whatever order they come, if `maxRequests` is positive.
  pub admitted-serve-le :
      (start : ℕ) (s : Option RateLimitWindowState) (ts : List ℕ)
      → 0 < max_requests
      → All (λ t. (start ≤ t) × (t < start + window_seconds * 1000)) ts
      → admitted (serve s ts) ≤ 2 * max_requests
  unfolding serve
  admitted-serve-le start s [] pos h = omega arith
  admitted-serve-le start none (t ∷ ts) pos h =
      omega (arith, admitted-fresh-le start pos none t ts tt h.0.0 h.1)
  admitted-serve-le start (some s) (t ∷ ts) pos h =
      omega (arith, admitted-some-le start pos s (t ∷ ts) h)
