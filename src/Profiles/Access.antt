-- ===== src/Profiles/Access.antt =====
-- profiles/access.ts: the credentials that a block of a profile is read with, and whether a profile is stored.
use aws_mcp_gateway.Base.{ℕ, Bool, true, false, not, Option, none, some, String, if◌then◌else◌}
use aws_mcp_gateway.Errors.{Result, ok, thrown, invalid, ◌>>=◌}
use aws_mcp_gateway.Js.{Value, null}
use aws_mcp_gateway.Credentials.{AwsCredentials, CredentialCache, Sts, resolve}
use aws_mcp_gateway.Execution.Metadata.{unexpected}
use aws_mcp_gateway.Profiles.{CredentialRequest, default, assume_role, resolve_profile_auth}
use aws_mcp_gateway.Profiles.Patterns.{is_valid_role_arn}
use aws_mcp_gateway.Profiles.Fields.{validate_profile_id}
use aws_mcp_gateway.Profiles.Store.{Store, build_profile_key}

-- `AuthStrategyLabel`
pub data AuthStrategyLabel : Type 0 where
  default_label assume_role_label : AuthStrategyLabel

label_of : CredentialRequest → AuthStrategyLabel
label_of default = default_label
label_of (assume_role role_arn external_id session_name) = assume_role_label

-- `blockAuth ?? profileAuth`
unfoldable pub auth_of :
    Option CredentialRequest → Option CredentialRequest → Option CredentialRequest
auth_of none profile_auth = profile_auth
auth_of (some auth) profile_auth = some auth

-- `authStrategyLabel`
unfoldable pub auth_strategy_label :
    Option CredentialRequest → Option CredentialRequest → AuthStrategyLabel
unfolding label_of auth_of
auth_strategy_label block_auth profile_auth =
    label_of (resolve_profile_auth (auth_of block_auth profile_auth))

or_thrown : {A : Type 0} → Option A → Result A
or_thrown none = thrown unexpected
or_thrown (some a) = ok a

-- The resolver of the context, at a time, with its cache.
module _ (sha256_hex : String → String) (sts : Sts) (default_credentials : AwsCredentials) where
  credentials_for :
      ℕ → CredentialCache → CredentialRequest → CredentialCache × Result AwsCredentials
  unfolding or_thrown
  credentials_for now cache default = (cache, ok default_credentials)
  credentials_for now cache (assume_role role_arn external_id session_name) =
      let (cache', found) =
        resolve sha256_hex sts default_credentials now cache
          (assume_role role_arn external_id session_name) in
      if not (is_valid_role_arn role_arn)
      then (
        cache,
        thrown (
            invalid
              "roleArn must be a valid IAM role ARN (arn:aws:iam::ACCOUNT_ID:role/ROLE_NAME)."),
      )
      else (cache', or_thrown found)

  -- `resolveBlockCredentials`
  unfoldable pub resolve_block_credentials :
      ℕ
      → CredentialCache
      → Option CredentialRequest
      → Option CredentialRequest
      → CredentialCache × Result AwsCredentials
  unfolding credentials_for
  resolve_block_credentials now cache profile_auth block_auth =
      credentials_for now cache (resolve_profile_auth (auth_of block_auth profile_auth))

  -- `resolveSectionCredentials`, for the auth of a block that may be absent
  unfoldable pub resolve_section_credentials :
      ℕ
      → CredentialCache
      → Option CredentialRequest
      → Option CredentialRequest
      → CredentialCache × Result (AwsCredentials × AuthStrategyLabel)
  resolve_section_credentials now cache profile_auth block_auth =
      let (cache', found) = resolve_block_credentials now cache profile_auth block_auth in
      (cache', found >>= λ c. ok (c, auth_strategy_label block_auth profile_auth))

is_stored : Option (Option Value) → Bool
is_stored none = false
is_stored (some none) = false
is_stored (some (some null)) = false
is_stored (some (some value)) = true

stored_in : Option Store → ℕ → String → Result Bool
unfolding is_stored
stored_in none n profile_id = ok false
stored_in (some store) n profile_id = do
  safe_profile_id ← validate_profile_id profile_id
  key ← build_profile_key safe_profile_id
  ok (is_stored (store.get_json n key))

-- `isProfileConfigAvailable`
unfoldable pub is_profile_config_available : Option Store → ℕ → String → Result Bool
unfolding stored_in
is_profile_config_available kv n profile_id = stored_in kv n profile_id
