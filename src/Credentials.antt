-- ===== src/Credentials.antt =====
-- aws/credentials/resolver.ts and helpers.ts: the credentials that a request for some role is given. The
-- resolver's variable `cache` is a state that each call takes and returns. The call of STS is the
-- platform's and AWS's: a parameter that may answer differently at each time, or fail.
pub mod Own
use Prim.Native.String
use aws_mcp_gateway.Base.{
  ℕ, ◌+◌, ◌*◌, Bool, true, false, ◌&&◌, ◌||◌, not, Option, none, some, String, List, [], ◌∷◌, leb,
  eqb, ◌==◌, string_eq, is_empty, if◌then◌else◌, ◌<>◌,
}
use aws_mcp_gateway.Profiles.{CredentialRequest, default, assume_role}
use aws_mcp_gateway.Profiles.Patterns.{is_valid_role_arn}

pub data CredentialSource : Type 0 where
  from_default from_assume_role : CredentialSource

-- `AwsCredentials`
pub record AwsCredentials : Type 0 where
  pub access_key_id : String
  pub secret_access_key : String
  pub session_token : Option String
  pub expires_at : Option ℕ
  pub source : Option CredentialSource

-- `withDefaultSource`
unfoldable pub with_default_source : AwsCredentials → AwsCredentials
with_default_source c = record {
  access_key_id = c.access_key_id;
  secret_access_key = c.secret_access_key;
  session_token = c.session_token;
  expires_at = c.expires_at;
  source = some from_default;
}

-- `CREDENTIAL_REFRESH_MARGIN_MS`
abbrev pub credential_refresh_margin_ms : ℕ
credential_refresh_margin_ms = 300000

-- `expiresAt - currentTime <= CREDENTIAL_REFRESH_MARGIN_MS`, where a time of 0 is none
expires_soon : Option ℕ → ℕ → Bool
expires_soon none now = true
expires_soon (some t) now = eqb t 0 || leb t (now + credential_refresh_margin_ms)

-- `isNearExpiry`
unfoldable pub is_near_expiry : AwsCredentials → ℕ → Bool
unfolding expires_soon
is_near_expiry c now = expires_soon c.expires_at now

-- the text that is digested: the role, and behind a zero the external id if it is not empty
unfoldable pub key_material : String → Option String → String
key_material role_arn none = role_arn
key_material role_arn (some external_id) =
    if is_empty external_id then role_arn else role_arn <> "\0" <> external_id

-- The cache of one resolver.
abbrev pub CredentialCache : Type 0
CredentialCache = String → Option AwsCredentials

-- `cache.set(key, …)`
unfoldable pub set_entry : CredentialCache → String → AwsCredentials → CredentialCache
set_entry cache key c other = if other == key then some c else cache other

-- What `resolve` comes to, where `none` is a throw.
abbrev pub Resolution : Type 0
Resolution = CredentialCache × Option AwsCredentials

-- the call of STS at a time, for a role, an external id and the name of a session
abbrev pub Sts : Type 0
Sts = ℕ → String → Option String → Option String → Option AwsCredentials

module _ (sha256_hex : String → String) (sts : Sts) (default_credentials : AwsCredentials) where
  -- `buildCredentialCacheKey`
  unfoldable pub build_credential_cache_key : String → Option String → String
  build_credential_cache_key role_arn external_id = sha256_hex (key_material role_arn external_id)

  keep_assumed : CredentialCache → String → Option AwsCredentials → Resolution
  keep_assumed cache key none = (cache, none)
  keep_assumed cache key (some c) = (set_entry cache key c, some c)

  reuse_or :
      ℕ → CredentialCache → String → Option AwsCredentials → Option AwsCredentials → Resolution
  unfolding keep_assumed
  reuse_or now cache key none assumed = keep_assumed cache key assumed
  reuse_or now cache key (some c) assumed =
      if not (is_near_expiry c now) then (cache, some c) else keep_assumed cache key assumed

  resolve_role : ℕ → CredentialCache → String → Option String → Option String → Resolution
  unfolding reuse_or
  resolve_role now cache role_arn external_id session_name =
      let key = build_credential_cache_key role_arn external_id in
      let (cache', found) =
        reuse_or now cache key (cache key) (sts now role_arn external_id session_name) in
      if not (is_valid_role_arn role_arn) then (cache, none) else (cache', found)

  -- `resolve`
  unfoldable pub resolve : ℕ → CredentialCache → CredentialRequest → Resolution
  unfolding resolve_role
  resolve now cache default = (cache, some (with_default_source default_credentials))
  resolve now cache (assume_role role_arn external_id session_name) =
      resolve_role now cache role_arn external_id session_name
