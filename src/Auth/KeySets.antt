-- ===== src/Auth/KeySets.antt =====
-- auth/oauth/jwks.ts: the one key set that is kept between requests. `createRemoteJWKSet` is the
-- library's, and a parameter: what it makes for a URI at a time, or `none` where it or the URI throws.
-- Each request reads the clock twice; requests that overlap in time are not modelled.
use aws_mcp_gateway.Base.{
  ◌*◌, ℕ, ◌+◌, ◌-◌, ◌<◌, ◌≡◌, refl, ◌⊎◌, inl, inr, Bool, ◌&&◌, Option, none, some, String, List, [],
  ◌∷◌, ltb, ltb→lt, ◌==◌, string_eq, string_eq_iff, and-eq-true_iff, Bool-cases, if◌then◌else◌, All,
  arith,
}

-- `cachedJwks`
pub record CachedJwks (K : Type 0) : Type 0 where
  pub uri : String
  pub resolver : K
  pub fetched_at : ℕ

-- `CACHE_TTL_MS`
abbrev cache_ttl_ms : ℕ
cache_ttl_ms = 5 * 60 * 1000

module _ {K : Type 0} (create : ℕ → String → Option K) where
  -- `cachedJwks.uri === jwksUri && Date.now() - cachedJwks.fetchedAt < CACHE_TTL_MS`
  is_current : CachedJwks K → String → ℕ → Bool
  is_current cached uri now = cached.uri == uri && ltb (now - cached.fetched_at) cache_ttl_ms

  created : Option K → String → ℕ → Option (CachedJwks K) → Option (CachedJwks K) × Option K
  created none uri now cached = (cached, none)
  created (some k) uri now cached =
      (some (record { uri = uri; resolver = k; fetched_at = now }), some k)

  -- `getJwksResolver`
  unfoldable pub get_jwks_resolver :
      String → ℕ → ℕ → Option (CachedJwks K) → Option (CachedJwks K) × Option K
  unfolding is_current created
  get_jwks_resolver uri now later none = created (create later uri) uri later none
  get_jwks_resolver uri now later (some cached) =
      if is_current cached uri now
      then (some cached, some cached.resolver)
      else created (create later uri) uri later (some cached)

  -- the requests that a deployment answers one after the other, each with its URI and its times
  unfoldable pub resolve_each :
      Option (CachedJwks K) → List (String × ℕ × ℕ) → List ((String × ℕ × ℕ) × Option K)
  resolve_each cached [] = []
  resolve_each cached ((uri, now, later) ∷ asked) =
      let (cached', answer) = get_jwks_resolver uri now later cached in
      ((uri, now, later), answer) ∷ resolve_each cached' asked

  -- A key set that was made for the URI, now or less than five minutes ago; or none, since none can be made.
  abbrev pub IsCurrent : (String × ℕ × ℕ) × Option K → Type 0
  IsCurrent ((uri, now, later), none) = create later uri ≡ none
  IsCurrent ((uri, now, later), some k) =
      (t : ℕ) × (create t uri ≡ some k) × ((t ≡ later) ⊎ (now < t + cache_ttl_ms))

  -- What is kept was made for its URI at its time.
  abbrev WasMade : Option (CachedJwks K) → Type 0
  WasMade none = Unit
  WasMade (some cached) = create cached.fetched_at cached.uri ≡ some cached.resolver

  created-IsCurrent :
      (made : Option K) (uri : String) (now later : ℕ) (cached : Option (CachedJwks K))
      → create later uri ≡ made
      → WasMade cached
      → WasMade (created made uri later cached).0
        × IsCurrent ((uri, now, later), (created made uri later cached).1)
  unfolding created
  created-IsCurrent none uri now later cached e w = (w, e)
  created-IsCurrent (some k) uri now later cached e w = (e, (later, e, inl refl))

  get_jwks_resolver-IsCurrent :
      (uri : String) (now later : ℕ) (cached : Option (CachedJwks K))
      → WasMade cached
      → WasMade (get_jwks_resolver uri now later cached).0
        × IsCurrent ((uri, now, later), (get_jwks_resolver uri now later cached).1)
  unfolding get_jwks_resolver is_current
  get_jwks_resolver-IsCurrent uri now later none w =
      created-IsCurrent (create later uri) uri now later none refl w
  get_jwks_resolver-IsCurrent uri now later (some cached) w =
      elim (Bool-cases (is_current cached uri now)) [
        | inl current ↦
            let (same, young) = (and-eq-true_iff _ _).0 current in
            let e = (string_eq_iff cached.uri uri).0 same in
            let y = ltb→lt _ _ young in
            rw current (w, (cached.fetched_at, (rw (← e) w), inr (omega arith)))
        | inr old ↦ rw old (created-IsCurrent (create later uri) uri now later (some cached) refl w)
      ]

  resolve_each-all :
      (asked : List (String × ℕ × ℕ)) (cached : Option (CachedJwks K))
      → WasMade cached
      → All IsCurrent (resolve_each cached asked)
  unfolding resolve_each
  resolve_each-all [] cached w = tt
  resolve_each-all ((uri, now, later) ∷ asked) cached w =
      let (made, current) = get_jwks_resolver-IsCurrent uri now later cached w in
      (current, resolve_each-all asked _ made)

  -- Over all the requests of a new deployment, one after the other: every key set that is given was made for
  -- the URI that is asked for, just now or less than five minutes before, and none is given only where none
  -- can be made.
  pub resolve_each-IsCurrent :
      (asked : List (String × ℕ × ℕ)) → All IsCurrent (resolve_each none asked)
  resolve_each-IsCurrent asked = resolve_each-all asked none tt
