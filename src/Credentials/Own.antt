-- ===== src/Credentials/Own.antt =====
-- Whose credentials a resolver gives, over all the requests that it answers.
use aws_mcp_gateway.Base.{
  [], ◌∷◌, sym, subst, All, List, ℕ, ◌+◌, ◌<◌, ◌≡◌, refl, ◌∙◌, ◌⊎◌, true, false, Bool-cases, Option,
  none, some, String, ◌==◌, string_eq, string_eq_iff, arith, inl, inr,
}
use mathlib.Core.Option.{some-injective}
use aws_mcp_gateway.Profiles.{CredentialRequest, default, assume_role}
use aws_mcp_gateway.Profiles.Patterns.{is_valid_role_arn}
use aws_mcp_gateway.Credentials.{
  resolve_role, is_near_expiry, resolve, reuse_or, AwsCredentials, CredentialCache, Sts,
  with_default_source, expires_soon, set_entry, credential_refresh_margin_ms,
  build_credential_cache_key, keep_assumed,
}

-- The credentials expire, and not within the margin.
abbrev pub IsFresh : AwsCredentials → ℕ → Type 0
IsFresh c now = (t : ℕ) × ((c.expires_at ≡ some t) × (now + credential_refresh_margin_ms < t))

expires_soon-false :
    (o : Option ℕ) (now : ℕ)
    → expires_soon o now ≡ false
    → (t : ℕ) × ((o ≡ some t) × (now + credential_refresh_margin_ms < t))
unfolding expires_soon
expires_soon-false none now h = absurd (cc h)
expires_soon-false (some t) now h = (t, (refl, ground arith))

module _ (sha256_hex : String → String) (sts : Sts) (default_credentials : AwsCredentials) where
  abbrev key_of : String → Option String → String
  key_of = build_credential_cache_key sha256_hex sts default_credentials

  -- STS once gave these credentials, for a role and an external id with this key.
  abbrev pub WasAssumed : String → AwsCredentials → ℕ → Type 0
  WasAssumed key c t =
      (role : String) × ((external_id : Option String) × ((session : Option String) × ((key_of role
                external_id
              ≡ key)
            × (sts t role external_id session ≡ some c))))

  -- Every entry of the cache was once assumed under its key.
  abbrev IsOwn : CredentialCache → Type 0
  IsOwn cache =
      (key : String) (c : AwsCredentials) → cache key ≡ some c → (t : ℕ) × WasAssumed key c t

  -- The default credentials for a request of these; for one of a role, credentials that STS gave under its key,
  -- either now or earlier with time left.
  abbrev pub IsAnswer : ℕ → CredentialRequest → AwsCredentials → Type 0
  IsAnswer now default c = c ≡ with_default_source default_credentials
  IsAnswer now (assume_role role external_id session) c =
      (is_valid_role_arn role ≡ true)
      × ((t : ℕ) × (WasAssumed (key_of role external_id) c t × ((t ≡ now) ⊎ IsFresh c now)))

  set_entry-IsOwn :
      (cache : CredentialCache) (key : String) (c : AwsCredentials) (t : ℕ)
      → IsOwn cache
      → WasAssumed key c t
      → IsOwn (set_entry cache key c)
  unfolding set_entry
  set_entry-IsOwn cache key c t own assumed other d h = elim (Bool-cases (other == key)) [
    | inl same ↦
        let e = (string_eq_iff other key).0 same in
        let cd = some-injective _ _ (rw same at h) in (t, rw (e, ← cd) assumed)
    | inr differ ↦ own other d (rw differ at h)
  ]

  keep_assumed-IsAnswer :
      (now : ℕ) (cache : CredentialCache) (role : String) (ext session : Option String)
      (o : Option AwsCredentials)
      → IsOwn cache
      → sts now role ext session ≡ o
      → IsOwn (keep_assumed sha256_hex sts default_credentials cache (key_of role ext) o).0
        × ((c : AwsCredentials)
            → (keep_assumed sha256_hex sts default_credentials cache (key_of role ext) o).1 ≡ some c
            → WasAssumed (key_of role ext) c now)
  unfolding keep_assumed
  keep_assumed-IsAnswer now cache role ext session none own h = (own, λ c e. absurd (cc e))
  keep_assumed-IsAnswer now cache role ext session (some d) own h = (
    set_entry-IsOwn cache (key_of role ext) d now own (role, (ext, (session, (refl, h)))),
    λ c e. (role, (ext, (session, (refl, h ∙ e)))),
  )

  -- what a role is given, whether it is reused or assumed anew
  abbrev IsGiven : ℕ → String → Option String → AwsCredentials → Type 0
  IsGiven now role ext c =
      (t : ℕ) × (WasAssumed (key_of role ext) c t × ((t ≡ now) ⊎ IsFresh c now))

  reuse_or-IsGiven :
      (now : ℕ) (cache : CredentialCache) (role : String) (ext session : Option String)
      (found o : Option AwsCredentials)
      → IsOwn cache
      → cache (key_of role ext) ≡ found
      → sts now role ext session ≡ o
      → IsOwn (reuse_or sha256_hex sts default_credentials now cache (key_of role ext) found o).0
        × ((c : AwsCredentials)
            → (reuse_or sha256_hex sts default_credentials now cache (key_of role ext) found o).1
              ≡ some c
            → IsGiven now role ext c)
  unfolding reuse_or is_near_expiry
  reuse_or-IsGiven now cache role ext session none o own f h =
      let (own', new) = keep_assumed-IsAnswer now cache role ext session o own h in
      (own', λ c e. (now, (new c e, inl refl)))
  reuse_or-IsGiven now cache role ext session (some d) o own f h =
      let (own', new) = keep_assumed-IsAnswer now cache role ext session o own h in
      elim (Bool-cases (expires_soon d.expires_at now)) [
        | inl soon ↦ rw soon (own', λ c e. (now, (new c e, inl refl)))
        | inr later ↦ rw later (
          own,
          λ c e.
              let (t, assumed) = own (key_of role ext) d f in
              subst (IsGiven now role ext) (some-injective _ _ e)
                (t, (assumed, inr (expires_soon-false d.expires_at now later))),
        )
      ]

  resolve-IsAnswer :
      (now : ℕ) (cache : CredentialCache) (request : CredentialRequest)
      → IsOwn cache
      → IsOwn (resolve sha256_hex sts default_credentials now cache request).0
        × ((c : AwsCredentials)
            → (resolve sha256_hex sts default_credentials now cache request).1 ≡ some c
            → IsAnswer now request c)
  unfolding resolve resolve_role
  resolve-IsAnswer now cache default own = (own, λ c e. sym (some-injective _ _ e))
  resolve-IsAnswer now cache (assume_role role ext session) own =
      let (own', given) = reuse_or-IsGiven now cache role ext session _ _ own refl refl in
      elim (Bool-cases (is_valid_role_arn role)) [
        | inl valid ↦ rw valid (own', λ c e. (refl, given c e))
        | inr invalid ↦ rw invalid (own, λ c e. absurd (cc e))
      ]

  -- The answers of one resolver to requests one after the other, each at its time.
  unfoldable pub resolve_all :
      CredentialCache
      → List (ℕ × CredentialRequest)
      → List ((ℕ × CredentialRequest) × Option AwsCredentials)
  resolve_all cache [] = []
  resolve_all cache ((now, request) ∷ rest) =
      let (cache', answer) = resolve sha256_hex sts default_credentials now cache request in
      ((now, request), answer) ∷ resolve_all cache' rest

  -- The answer, if there is one, is one to the request.
  abbrev pub IsAnswered : (ℕ × CredentialRequest) × Option AwsCredentials → Type 0
  IsAnswered ((now, request), none) = Unit
  IsAnswered ((now, request), some c) = IsAnswer now request c

  IsAnswered-if :
      (now : ℕ) (request : CredentialRequest) (o : Option AwsCredentials)
      → ((c : AwsCredentials) → o ≡ some c → IsAnswer now request c)
      → IsAnswered ((now, request), o)
  IsAnswered-if now request none f = tt
  IsAnswered-if now request (some c) f = f c refl

  resolve_all-own :
      (cache : CredentialCache) (requests : List (ℕ × CredentialRequest))
      → IsOwn cache
      → All IsAnswered (resolve_all cache requests)
  unfolding resolve_all
  resolve_all-own cache [] own = tt
  resolve_all-own cache ((now, request) ∷ rest) own =
      let (own', answer) = resolve-IsAnswer now cache request own in
      (
        IsAnswered-if now request _ answer,
        resolve_all-own (resolve sha256_hex sts default_credentials now cache request).0 rest own',
      )

  -- Over all the requests that a new resolver answers, one after the other: a request for the default credentials
  -- is given these, and one for a role only ever credentials that STS gave for a role and an external id with the
  -- same key, either at this time or earlier, and then with more than the margin left before they expire. A
  -- role that is no role's name is given nothing.
  pub resolve_all-IsAnswered :
      (requests : List (ℕ × CredentialRequest))
      → All IsAnswered (resolve_all (λ key. none) requests)
  resolve_all-IsAnswered requests = resolve_all-own _ requests (λ key c e. absurd (cc e))
