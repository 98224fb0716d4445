-- ===== src/Profiles/Fields.antt =====
-- profiles/validation.ts: the fields of a profile, up to its blocks.
pub mod Ids
pub mod Checked
use aws_mcp_gateway.Base.{
  ℕ, suc, Bool, true, false, ◌&&◌, not, Option, none, some, String, List, [], ◌∷◌, ltb, trim, units,
  show, is_empty, ◌==◌, string_eq, if◌then◌else◌, ◌<>◌,
}
use aws_mcp_gateway.Errors.{Result, ok, thrown, GatewayError, invalid, ◌>>=◌, ◌>>◌}
use aws_mcp_gateway.Js.{Value, undefined, null, text, array, object, Items, nil, item, Fields, get}
use aws_mcp_gateway.Profiles.{CredentialRequest, default, assume_role}
use aws_mcp_gateway.Profiles.Patterns.{
  matches, test, profile_id_pattern, connection_string_pattern, key_value_secret_pattern,
  pem_block_pattern, long_base64_pattern, aws_access_key_pattern, word_pattern,
  bearer_token_pattern, is_valid_role_arn,
}

bad_profile_id : GatewayError
bad_profile_id = invalid "profileId must match /^[a-z0-9][a-z0-9-_]{1,62}$/."

-- `validateProfileId`
unfoldable pub validate_profile_id : String → Result String
unfolding bad_profile_id
validate_profile_id profile_id =
    if not (matches profile_id_pattern (trim profile_id))
    then thrown bad_profile_id
    else ok (trim profile_id)

-- `if (test) throw new ValidationError("validation_error", message)`
abbrev pub throw_if : Bool → String → Result (Unit {0})
throw_if true message = thrown (invalid message)
throw_if false message = ok tt

-- `assertNoSecretLikeContent`
unfoldable pub assert_no_secret_like_content : String → String → Result (Unit {0})
assert_no_secret_like_content value path = do
  throw_if (test connection_string_pattern value)
      (path <> " must not look like a connection string.")
  throw_if (test key_value_secret_pattern value)
      (path <> " must not contain secret-like key=value patterns.")
  throw_if (test pem_block_pattern value) (path <> " must not contain private key material.")
  throw_if (matches long_base64_pattern (trim value))
      (path <> " must not contain long base64-like strings.")
  throw_if (test aws_access_key_pattern value)
      (path <> " must not contain AWS access key identifiers.")
  throw_if (test (word_pattern "AWS_SECRET_ACCESS_KEY") value)
      (path <> " must not reference AWS secret access keys.")
  throw_if (test (word_pattern "AWS_SESSION_TOKEN") value)
      (path <> " must not reference AWS session tokens.")
  throw_if (test (word_pattern "DATABASE_URL") value) (path <> " must not reference DATABASE_URL.")
  throw_if (test (word_pattern "JWT_SECRET") value) (path <> " must not reference JWT_SECRET.")
  throw_if (test bearer_token_pattern value) (path <> " must not contain bearer tokens.")

not_secret : String → String → Result (Unit {0})
unfolding assert_no_secret_like_content
not_secret trimmed path =
    if not (is_empty trimmed) then assert_no_secret_like_content trimmed path else ok tt

-- the checks of a text that is trimmed
check_text : String → String → ℕ → Bool → Result String
unfolding not_secret
check_text trimmed path max_length required = do
  throw_if (required && is_empty trimmed) (path <> " is required.")
  throw_if (ltb max_length (units trimmed))
      (path <> " must not exceed " <> show max_length <> " characters.")
  not_secret trimmed path
  ok trimmed

-- `validateStringField`
unfoldable pub validate_string_field : Value → String → ℕ → Bool → Result String
unfolding check_text
validate_string_field (text value) path max_length required =
    check_text (trim value) path max_length required
validate_string_field undefined path max_length false = ok ""
validate_string_field null path max_length false = ok ""
validate_string_field value path max_length required =
    thrown (invalid (path <> " must be a string."))

-- `x !== undefined ? validateStringField(x, …, false) : …`: where it is absent, the text is empty here, and
-- the callers treat an empty text as an absent one
unfoldable pub validate_optional_field : Value → String → ℕ → Result String
unfolding validate_string_field
validate_optional_field undefined path max_length = ok ""
validate_optional_field value path max_length = validate_string_field value path max_length false

-- `...(x ? { x } : {})`
abbrev pub if_any : String → Option String
if_any s = if is_empty s then none else some s

assumed_role : Fields → String → Result (Option CredentialRequest)
unfolding validate_string_field validate_optional_field
assumed_role fields path = do
  role_arn ← validate_string_field (get "roleArn" fields) (path <> ".roleArn") 256 true
  throw_if (not (is_valid_role_arn role_arn)) (path <> ".roleArn must be a valid IAM role ARN.")
  external_id ← validate_optional_field (get "externalId" fields) (path <> ".externalId") 256
  session_name ← validate_optional_field (get "sessionName" fields) (path <> ".sessionName") 64
  ok (some (assume_role role_arn (if_any external_id) (if_any session_name)))

strategy_of : Value → Fields → String → Result (Option CredentialRequest)
unfolding assumed_role
strategy_of (text strategy) fields path =
    if strategy == "default"
    then ok (some default)
    else if strategy == "assume-role"
    then assumed_role fields path
    else thrown (invalid (path <> ".strategy must be \"default\" or \"assume-role\"."))
strategy_of value fields path =
    thrown (invalid (path <> ".strategy must be \"default\" or \"assume-role\"."))

-- `validateAuthBlock`
unfoldable pub validate_auth_block : Value → String → Result (Option CredentialRequest)
unfolding strategy_of
validate_auth_block undefined path = ok none
validate_auth_block null path = ok none
validate_auth_block (object fields) path = strategy_of (get "strategy" fields) fields path
validate_auth_block value path = thrown (invalid (path <> " must be an object."))

-- `parseOptionalBlockAuth`
unfoldable pub parse_optional_block_auth : Fields → String → Result (Option CredentialRequest)
unfolding validate_auth_block
parse_optional_block_auth fields path = validate_auth_block (get "auth" fields) (path <> ".auth")

unfoldable pub count_items : Items → ℕ
count_items nil = 0
count_items (item v vs) = suc (count_items vs)

-- `value.map((item, index) => …)`
validate_items : Items → String → ℕ → ℕ → Result (List String)
unfolding validate_string_field
validate_items nil path index max_length = ok []
validate_items (item v vs) path index max_length = do
  s ← validate_string_field v (path <> "[" <> show index <> "]") max_length true
  rest ← validate_items vs path (suc index) max_length
  ok (s ∷ rest)

-- `validateStringArray`, which no caller requires
unfoldable pub validate_string_array : Value → String → ℕ → ℕ → Result (List String)
unfolding count_items validate_items
validate_string_array undefined path max_items max_length = ok []
validate_string_array null path max_items max_length = ok []
validate_string_array (array vs) path max_items max_length = do
  throw_if (ltb max_items (count_items vs))
      (path <> " must not exceed " <> show max_items <> " items.")
  validate_items vs path 0 max_length
validate_string_array value path max_items max_length =
    thrown (invalid (path <> " must be an array."))
