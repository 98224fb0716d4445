-- ===== src/RateLimit/Enforce.antt =====
-- The check in front of `/mcp`, over many callers.
use aws_mcp_gateway.Base.{
  ℕ, ◌+◌, ◌*◌, ◌≤◌, ◌<◌, ◌≡◌, ◌≢◌, refl, inl, inr, true, false, Option, some, String, List, [], ◌∷◌,
  ◌==◌, ◌&&◌, string_eq, string_eq_iff, arith, if◌then◌else◌, ◌<>◌, Bool-cases, All, is_some, not,
}
use aws_mcp_gateway.Http.{Request}
use aws_mcp_gateway.RateLimit.{
  RateLimitWindowState, RateLimitConfig, RateLimitCheckPayload, Namespace, Delivery, delivered,
  request_lost, answer_lost, evaluate, put, object_fetch, build_identity, enforce,
}
use aws_mcp_gateway.RateLimit.Window.{serve, admitted, admitted-serve-le}

put_self :
    (objects : Namespace) (name : String) (s : RateLimitWindowState)
    → put objects name s name ≡ some s
unfolding put
put_self objects name s = ground (arith, string_eq_iff name name)

put_other :
    (objects : Namespace) (name other : String) (s : RateLimitWindowState)
    → other ≢ name
    → put objects name s other ≡ objects other
unfolding put
put_other objects name other s ne = ground (arith, string_eq_iff other name)

module _ (sha256_hex : String → String) (config : RateLimitConfig) where
  abbrev pub object_of : Request → String
  object_of request = "mcp:" <> build_identity sha256_hex request

  -- A request changes no window but its own caller's, however the call of the object goes.
  pub enforce-others :
      (request : Request) (now_ms : ℕ) (how : Delivery) (objects : Namespace) (name : String)
      → name ≢ object_of request
      → (enforce sha256_hex request (some config) now_ms how objects).0 name ≡ objects name
  unfolding enforce object_fetch
  enforce-others request now_ms delivered objects name ne = put_other objects _ name _ ne
  enforce-others request now_ms request_lost objects name ne = refl
  enforce-others request now_ms answer_lost objects name ne = put_other objects _ name _ ne

  -- a request, its time, and how the call of its object goes
  abbrev pub Arrival : Type 0
  Arrival = Request × ℕ × Delivery

  -- How many of the named caller's requests pass, among requests of everybody.
  unfoldable pub passes : String → Namespace → List Arrival → ℕ
  passes name objects [] = 0
  passes name objects ((r, t, how) ∷ rest) =
      let (objects', answer) = enforce sha256_hex r (some config) t how objects in
      (if object_of r == name && not (is_some answer) then 1 else 0) + passes name objects' rest

  -- The times at which the named caller's object handles a request.
  handled : String → List Arrival → List ℕ
  handled name [] = []
  handled name ((r, t, request_lost) ∷ rest) = handled name rest
  handled name ((r, t, how) ∷ rest) =
      if object_of r == name then t ∷ handled name rest else handled name rest

  module _ (name : String) where
    abbrev served : Option RateLimitWindowState → List ℕ → ℕ
    served s ts = admitted (serve config.max_requests config.window_seconds s ts)

    -- the window that is stored for the named caller after another one's request
    put_elsewhere :
        (objects : Namespace) (r : Request) (s : RateLimitWindowState)
        → (object_of r == name) ≡ false
        → put objects (object_of r) s name ≡ objects name
    put_elsewhere objects r s e =
        put_other objects (object_of r) name s (ground (arith, string_eq_iff (object_of r) name))

    put_here :
        (objects : Namespace) (r : Request) (s : RateLimitWindowState)
        → (object_of r == name) ≡ true
        → (put objects (object_of r) s name ≡ some s) × (objects (object_of r) ≡ objects name)
    put_here objects r s e =
        let same = (string_eq_iff (object_of r) name).0 e in rw same (put_self objects name s, refl)

    abbrev payload : ℕ → RateLimitCheckPayload
    payload t = record {
      max_requests = config.max_requests;
      window_seconds = config.window_seconds;
      now_ms = t;
    }

    abbrev after : Namespace → Request → ℕ → Namespace
    after objects r t = put objects (object_of r) (evaluate (objects (object_of r)) (payload t)).0

    served-cons :
        (objects : Namespace) (r : Request) (t : ℕ) (ts : List ℕ)
        → (object_of r == name) ≡ true
        → served (objects name) (t ∷ ts)
          ≡ (if (evaluate (objects (object_of r)) (payload t)).1.allowed then 1 else 0)
            + served (after objects r t name) ts
    unfolding serve
    served-cons objects r t ts e =
        let (mine, same) = put_here objects r (evaluate (objects (object_of r)) (payload t)).0 e in
        rw mine (rw same refl)

    passes-le-served :
        (objects : Namespace) (rs : List Arrival)
        → passes name objects rs ≤ served (objects name) (handled name rs)
    unfolding passes handled enforce object_fetch
    passes-le-served objects [] = omega arith
    passes-le-served objects ((r, t, delivered) ∷ rest) = elim (Bool-cases (object_of r == name)) [
      | inl own ↦ rw own (
          ground (
            arith,
            served-cons objects r t (handled name rest) own,
            passes-le-served (after objects r t) rest,
          ))
      | inr other ↦ rw other (
          ground (
            arith,
            put_elsewhere objects r (evaluate (objects (object_of r)) (payload t)).0 other,
            passes-le-served (after objects r t) rest,
          ))
    ]
    passes-le-served objects ((r, t, answer_lost) ∷ rest) =
        elim (Bool-cases (object_of r == name)) [
          | inl own ↦ rw own (
              ground (
                arith,
                served-cons objects r t (handled name rest) own,
                passes-le-served (after objects r t) rest,
              ))
          | inr other ↦ rw other (
              ground (
                arith,
                put_elsewhere objects r (evaluate (objects (object_of r)) (payload t)).0 other,
                passes-le-served (after objects r t) rest,
              ))
        ]
    passes-le-served objects ((r, t, request_lost) ∷ rest) =
        ground (arith, passes-le-served objects rest)

  All-handled :
      (name : String) (P : ℕ → Type 0) (rs : List Arrival)
      → All (λ a. P a.1) rs
      → All P (handled name rs)
  unfolding handled
  All-handled name P [] h = tt
  All-handled name P ((r, t, request_lost) ∷ rest) h = All-handled name P rest h.1
  All-handled name P ((r, t, how) ∷ rest) h = elim (Bool-cases (object_of r == name)) [
    | inl own ↦ rw own (h.0, All-handled name P rest h.1)
    | inr other ↦ rw other (All-handled name P rest h.1)
  ]

  -- Of all the requests that arrive within a stretch of `windowSeconds`, from any callers and in any
  -- order, with any calls of the objects failing, at most `2 * maxRequests` of one caller's pass, if
  -- `maxRequests` is positive.
  pub passes-le :
      (name : String) (start : ℕ) (objects : Namespace) (rs : List Arrival)
      → 0 < config.max_requests
      → All (λ a. (start ≤ a.1) × (a.1 < start + config.window_seconds * 1000)) rs
      → passes name objects rs ≤ 2 * config.max_requests
  passes-le name start objects rs pos h = omega (
    arith,
    passes-le-served name objects rs,
    admitted-serve-le config.max_requests config.window_seconds start (objects name)
        (handled name rs) pos (All-handled name _ rs h),
  )
