-- ===== src/Profiles/Documents.antt =====
-- profiles/validation.ts: the index of the profiles, and the document of one.
pub mod Accepted
use aws_mcp_gateway.Base.{
  ℕ, Bool, true, false, not, Option, none, some, String, List, [], ◌∷◌, ltb, includes, ◌!=◌,
  string_eq, if◌then◌else◌, ◌<>◌, join,
}
use aws_mcp_gateway.Errors.{Result, ok, thrown, invalid, ◌>>=◌, ◌>>◌}
use aws_mcp_gateway.Js.{
  Fields, Value, undefined, null, boolean, number, text, array, object, Items, nil, item, get,
}
use aws_mcp_gateway.Js.Numbers.{Num, whole, num_eq}
use aws_mcp_gateway.Regions.{validate_region}
use aws_mcp_gateway.Profiles.{SafeProfileIndexEntry, ProfileIndex, ValidatedAppProfile}
use aws_mcp_gateway.Profiles.Fields.{
  throw_if, validate_profile_id, validate_string_field, validate_auth_block, validate_string_array,
  count_items,
}
use aws_mcp_gateway.Profiles.Blocks.{as_object, validate_resources}

is_one : Value → Bool
is_one (number n) = num_eq n (whole 1)
is_one value = false

as_array : Value → String → Result Items
as_array (array vs) message = ok vs
as_array value message = thrown (invalid message)

as_boolean : Value → String → Result Bool
as_boolean (boolean b) message = ok b
as_boolean value message = thrown (invalid message)

-- the loop over the ids: those that were met, and those to come
unfoldable pub check_ids : List String → List SafeProfileIndexEntry → Result (Unit {0})
check_ids met [] = ok tt
check_ids met (p ∷ ps) =
    let rest = check_ids (p.id ∷ met) ps in
    if includes met p.id
    then thrown (invalid ("Duplicate profile id in index: " <> p.id <> "."))
    else rest

-- `jsonBytes !== undefined && jsonBytes > APP_PROFILE_MAX_JSON_BYTES`
too_large : Option ℕ → Bool
too_large none = false
too_large (some bytes) = ltb 16384 bytes

-- `show_number` stands for the platform's `String(n)` of a number.
module _ (show_number : Num → String) where
  mutual
    -- `String(value ?? "")`
    string_of : Value → String
    string_of undefined = ""
    string_of null = ""
    string_of (boolean true) = "true"
    string_of (boolean false) = "false"
    string_of (number n) = show_number n
    string_of (text s) = s
    string_of (array vs) = join "," (strings_of vs)
    string_of (object fields) = "[object Object]"

    strings_of : Items → List String
    strings_of nil = []
    strings_of (item v vs) = string_of v ∷ strings_of vs

  -- `validateIndexEntry`
  unfoldable pub validate_index_entry : Value → List String → Result SafeProfileIndexEntry
  unfolding string_of as_boolean
  validate_index_entry value allowed = do
    fields ← as_object value "Profile index entry must be an object."
    id ← validate_profile_id (string_of (get "id" fields))
    display_name ← validate_string_field (get "displayName" fields) "displayName" 128 true
    environment ← validate_string_field (get "environment" fields) "environment" 32 true
    region ← validate_string_field (get "region" fields) "region" 256 true
    validate_region region allowed
    enabled ← as_boolean (get "enabled" fields) "enabled must be a boolean."
    aliases ← validate_string_array (get "aliases" fields) "aliases" 10 32
    capabilities ← validate_string_array (get "capabilities" fields) "capabilities" 20 32
    ok (record {
      id = id;
      display_name = display_name;
      environment = environment;
      region = region;
      enabled = enabled;
      aliases = aliases;
      capabilities = capabilities;
    })

  -- `record.profiles.map(…)`
  unfoldable pub validate_entries : Items → List String → Result (List SafeProfileIndexEntry)
  validate_entries nil allowed = ok []
  validate_entries (item v vs) allowed = do
    entry ← validate_index_entry v allowed
    entries ← validate_entries vs allowed
    ok (entry ∷ entries)

  -- `validateProfileIndexDocument`
  unfoldable pub validate_profile_index_document :
      Value → List String → Option ℕ → Result ProfileIndex
  unfolding too_large is_one as_array
  validate_profile_index_document raw allowed json_bytes = do
    throw_if (too_large json_bytes) "Profile index exceeds maximum size of 16384 bytes."
    fields ← as_object raw "Profile index must be an object."
    throw_if (not (is_one (get "version" fields))) "Profile index version must be 1."
    listed ← as_array (get "profiles" fields) "Profile index profiles must be an array."
    throw_if (ltb 50 (count_items listed)) "Profile index must not exceed 50 profiles."
    profiles ← validate_entries listed allowed
    check_ids [] profiles
    ok (record { profiles = profiles })

  -- the fields behind the id
  unfoldable pub document_fields : Fields → String → List String → Result ValidatedAppProfile
  document_fields fields id allowed = do
    display_name ← validate_string_field (get "displayName" fields) "displayName" 128 true
    environment ← validate_string_field (get "environment" fields) "environment" 32 true
    region ← validate_string_field (get "region" fields) "region" 256 true
    validate_region region allowed
    auth ← validate_auth_block (get "auth" fields) "auth"
    resources ← validate_resources (get "resources" fields)
    ok (record {
      id = id;
      display_name = display_name;
      environment = environment;
      region = region;
      auth = auth;
      resources = resources;
    })

  -- `validateProfileDocument`
  unfoldable pub validate_profile_document :
      Value → String → List String → Option ℕ → Result ValidatedAppProfile
  unfolding too_large is_one string_of
  validate_profile_document raw profile_id allowed json_bytes = do
    safe_profile_id ← validate_profile_id profile_id
    throw_if (too_large json_bytes) "Profile exceeds maximum size of 16384 bytes."
    fields ← as_object raw "Profile must be an object."
    throw_if (not (is_one (get "version" fields))) "Profile version must be 1."
    id ← validate_profile_id (string_of (get "id" fields))
    throw_if (id != safe_profile_id) "Profile id must match the requested profileId and KV key."
    document_fields fields id allowed
