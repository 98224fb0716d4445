-- ===== src/Ssm.antt =====
-- aws/ssm/validation.ts: the prefix and the names of the parameters that a request asks for.
pub mod Names
use Prim.Native.Char.{code}
use Prim.Native.String
use aws_mcp_gateway.Base.{
  none, ℕ, suc, ◌+◌, Bool, true, false, ◌&&◌, ◌||◌, not, String, List, [], ◌∷◌, length, ltb, eqb,
  trim, units, is_empty, is_some, strip_prefix, split, ◌<>◌, show, every, if◌then◌else◌,
}
use aws_mcp_gateway.Errors.{Result, ok, thrown, invalid, ◌>>=◌, ◌>>◌}
use aws_mcp_gateway.Profiles.Patterns.{
  one, run, Item, test, matches, is_lower, is_upper, is_decimal, connection_string_pattern,
  key_value_secret_pattern, pem_block_pattern, long_base64_pattern,
}
use aws_mcp_gateway.Profiles.Fields.{throw_if}

-- `[a-zA-Z0-9._-]`
is_name_part : ℕ → Bool
is_name_part c = is_lower c || is_upper c || is_decimal c || eqb c b'.' || eqb c b'_' || eqb c b'-'

is_slash : ℕ → Bool
is_slash c = eqb c b'/'

-- `PATH_LIKE_PREFIX_PATTERN`
path_like_prefix_pattern : List Item
unfolding is_name_part is_slash
path_like_prefix_pattern = one is_slash ∷ run (λ c. is_name_part c || is_slash c) 0 none ∷ []

-- `RELATIVE_NAME_PATTERN`: between the slashes there is at least one character, and each is of the class.
unfoldable pub is_relative_name : String → Bool
unfolding is_name_part is_slash
is_relative_name name = every (matches (run is_name_part 1 none ∷ [])) (split is_slash name)

-- a text without the slash that it may end with
drop_slash : String → String
unfolding is_slash
drop_slash String.[] = String.[]
drop_slash (String.◌∷◌ c s) =
    let rest = drop_slash s in
    if is_empty s && is_slash (code c) then String.[] else String.◌∷◌ c rest

-- `normalizeParameterPrefix`
unfoldable pub normalize_parameter_prefix : String → String
unfolding drop_slash
normalize_parameter_prefix prefix =
    let trimmed = trim prefix in if ltb 1 (units trimmed) then drop_slash trimmed else trimmed

-- `validateParameterPrefix`
unfoldable pub validate_parameter_prefix : String → Result String
unfolding path_like_prefix_pattern
validate_parameter_prefix prefix =
    let trimmed = trim prefix in
    do
      throw_if (is_empty trimmed) "parameterPrefix is required."
      throw_if (not (is_some (strip_prefix "/" trimmed)))
          "parameterPrefix must be a path-like SSM prefix starting with '/'."
      throw_if (ltb 512 (units trimmed)) "parameterPrefix must not exceed 512 characters."
      throw_if (not (matches path_like_prefix_pattern trimmed))
          "parameterPrefix contains invalid characters for an SSM path."
      throw_if (test connection_string_pattern trimmed)
          "parameterPrefix must not look like a connection string."
      throw_if (test key_value_secret_pattern trimmed)
          "parameterPrefix must not contain secret-like key=value patterns."
      throw_if (test pem_block_pattern trimmed)
          "parameterPrefix must not contain private key material."
      ok (normalize_parameter_prefix trimmed)

-- `requiredParameterNames[…]`
label_at : ℕ → String
label_at index = "requiredParameterNames[" <> show index <> "]"

-- `validateRequiredParameterName`
unfoldable pub validate_required_parameter_name : String → ℕ → Result String
unfolding label_at is_relative_name
validate_required_parameter_name name index =
    let trimmed = trim name in
    do
      throw_if (is_empty trimmed) (label_at index <> " must be a non-empty relative name.")
      throw_if (is_some (strip_prefix "/" trimmed))
          (label_at index <> " must be a relative name without a leading '/'.")
      throw_if (ltb 256 (units trimmed)) (label_at index <> " must not exceed 256 characters.")
      throw_if (not (is_relative_name trimmed)) (label_at index <> " contains invalid characters.")
      throw_if (test connection_string_pattern trimmed)
          (label_at index <> " must not look like a connection string.")
      throw_if (test key_value_secret_pattern trimmed)
          (label_at index <> " must not contain secret-like key=value patterns.")
      throw_if (matches long_base64_pattern trimmed)
          (label_at index <> " must not look like an encoded secret value.")
      ok trimmed

-- the call of `map` on the names, from an index on
unfoldable pub validate_names_from : ℕ → List String → Result (List String)
validate_names_from index [] = ok []
validate_names_from index (name ∷ names) = do
  first ← validate_required_parameter_name name index
  rest ← validate_names_from (suc index) names
  ok (first ∷ rest)

-- `validateRequiredParameterNames`
unfoldable pub validate_required_parameter_names : List String → Result (List String)
validate_required_parameter_names names = do
  throw_if (eqb (length names) 0) "requiredParameterNames must be a non-empty array."
  throw_if (ltb 50 (length names)) "requiredParameterNames must not exceed 50 entries."
  validate_names_from 0 names

-- `buildParameterPath`
unfoldable pub build_parameter_path : String → String → String
build_parameter_path prefix name = normalize_parameter_prefix prefix <> "/" <> name
