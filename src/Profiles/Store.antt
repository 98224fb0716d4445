-- ===== src/Profiles/Store.antt =====
-- profiles/keys.ts, loader.ts and access.ts: the store that profiles are kept in, and the way to one. The
-- namespace is the platform's: a read has a place in the order of all reads, and any read may fail.
use aws_mcp_gateway.Base.{
  ℕ, suc, not, Option, none, some, String, List, [], ◌∷◌, trim, is_empty, ◌==◌, string_eq,
  if◌then◌else◌, ◌<>◌,
}
use aws_mcp_gateway.Errors.{Result, ok, thrown, invalid, ◌>>=◌, ◌>>◌}
use aws_mcp_gateway.Js.{Value, null}
use aws_mcp_gateway.Js.Numbers.{Num}
use aws_mcp_gateway.Env.Deployment.{app_profile_default_index_key}
use aws_mcp_gateway.Profiles.{
  ProfileStoreStatus, disabled, available, unavailable, invalid_index,
  ListApplicationProfilesResult, SafeProfileIndexEntry, ProfileIndex, ValidatedAppProfile,
}
use aws_mcp_gateway.Profiles.Fields.{validate_profile_id}
use aws_mcp_gateway.Profiles.Documents.{validate_profile_index_document, validate_profile_document}

-- `buildProfileKey`
unfoldable pub build_profile_key : String → Result String
build_profile_key profile_id = do
  safe_id ← validate_profile_id profile_id
  ok ("app-profiles/profiles/" <> safe_id <> ".json")

-- `resolveIndexKey`
unfoldable pub resolve_index_key : Option String → String
resolve_index_key none = app_profile_default_index_key
resolve_index_key (some index_key) =
    if is_empty (trim index_key) then app_profile_default_index_key else trim index_key

-- The namespace at each of its reads: `none` where the read throws, and else the value that is stored as
-- text, or as JSON, or none.
pub record Store : Type 0 where
  pub get_text : ℕ → String → Option (Option String)
  pub get_json : ℕ → String → Option (Option Value)

-- `KvReadResult` and `KvIndexReadResult`
pub record KvReadResult : Type 0 where
  pub value : Option Value
  pub status : ProfileStoreStatus

nothing : ProfileStoreStatus → KvReadResult
nothing status = record { value = none; status = status }

-- a value that is read, where `null` is none
found_value : Value → KvReadResult
unfolding nothing
found_value null = nothing available
found_value value = record { value = some value; status = available }

json_read : Option (Option Value) → KvReadResult
unfolding nothing found_value
json_read none = nothing unavailable
json_read (some none) = nothing available
json_read (some (some value)) = found_value value

-- `readKvJson`
unfoldable pub read_kv_json : Option Store → ℕ → String → KvReadResult
unfolding nothing json_read
read_kv_json none n key = nothing disabled
read_kv_json (some store) n key = json_read (store.get_json n key)

-- `assertProfilesConfigured`
unfoldable pub assert_profiles_configured : ProfileStoreStatus → Result (Unit {0})
assert_profiles_configured disabled = thrown (invalid "Application profiles are not configured.")
assert_profiles_configured unavailable =
    thrown (invalid "Application profiles are temporarily unavailable.")
assert_profiles_configured invalid_index = thrown (invalid "Application profile index is invalid.")
assert_profiles_configured available = ok tt

no_profiles : ProfileStoreStatus → ListApplicationProfilesResult
no_profiles status = record { status = status; profiles = []; error = none }

-- `invalidIndexResult`
invalid_index_result : ListApplicationProfilesResult
invalid_index_result = record {
  status = invalid_index;
  profiles = [];
  error = some "Application profile index is invalid.";
}

listed_index : Result ProfileIndex → ListApplicationProfilesResult
unfolding invalid_index_result
listed_index (ok index) = record { status = available; profiles = index.profiles; error = none }
listed_index (thrown e) = invalid_index_result

-- an index that is there is valid
unfoldable pub valid_or_throw : Result ProfileIndex → Result (Unit {0})
valid_or_throw (ok index) = ok tt
valid_or_throw (thrown e) = thrown (invalid "Application profile index is invalid.")

unfoldable pub find_entry : String → List SafeProfileIndexEntry → Option SafeProfileIndexEntry
find_entry id [] = none
find_entry id (p ∷ ps) = let rest = find_entry id ps in if p.id == id then some p else rest

unfoldable pub enabled_entry : String → Option SafeProfileIndexEntry → Result SafeProfileIndexEntry
enabled_entry id none = thrown (invalid ("Application profile not found: " <> id <> "."))
enabled_entry id (some entry) =
    if not entry.enabled
    then thrown (invalid ("Application profile is disabled: " <> id <> "."))
    else ok entry

unfoldable pub stored : Option Value → String → Result Value
stored none id = thrown (invalid ("Application profile not found: " <> id <> "."))
stored (some value) id = ok value

-- The platform's `JSON.parse`, whose throw is `none`, and its `String(n)` of a number; the namespace, the key
-- of the index, and the allowed regions of the context.
module _ (parse_json : String → Option Value) (show_number : Num → String) (kv : Option Store)
    (index_key : Option String) (allowed : List String) where
  parsed : Option Value → KvReadResult
  unfolding nothing found_value
  parsed none = nothing invalid_index
  parsed (some value) = found_value value

  text_read : Option (Option String) → KvReadResult
  unfolding nothing parsed
  text_read none = nothing unavailable
  text_read (some none) = nothing available
  text_read (some (some raw)) = parsed (parse_json raw)

  index_read : Option Store → ℕ → KvReadResult
  unfolding nothing text_read
  index_read none n = nothing disabled
  index_read (some store) n = text_read (store.get_text n (resolve_index_key index_key))

  -- `readKvIndex(ctx.appConfig, resolveIndexKey(ctx.appProfileIndexKey))`
  unfoldable pub read_kv_index : ℕ → KvReadResult
  unfolding index_read
  read_kv_index n = index_read kv n

  listed_of : ProfileStoreStatus → Option Value → ListApplicationProfilesResult
  unfolding no_profiles invalid_index_result listed_index
  listed_of disabled value = no_profiles disabled
  listed_of unavailable value = no_profiles unavailable
  listed_of invalid_index value = invalid_index_result
  listed_of available none = no_profiles available
  listed_of available (some value) =
      listed_index (validate_profile_index_document show_number value allowed none)

  -- `listApplicationProfiles`
  unfoldable pub list_application_profiles : ℕ → ListApplicationProfilesResult
  unfolding listed_of
  list_application_profiles n = listed_of (read_kv_index n).status (read_kv_index n).value

  -- the check of the index in `loadApplicationProfile`
  unfoldable pub check_index : Option Value → Result (Unit {0})
  unfolding valid_or_throw
  check_index none = ok tt
  check_index (some value) =
      valid_or_throw (validate_profile_index_document show_number value allowed none)

  -- `loadApplicationProfile`, whose reads are the `n`-th and the one after it
  unfoldable pub load_application_profile : ℕ → String → Result ValidatedAppProfile
  unfolding check_index stored
  load_application_profile n profile_id = do
    safe_profile_id ← validate_profile_id profile_id
    assert_profiles_configured (read_kv_index n).status
    check_index (read_kv_index n).value
    key ← build_profile_key safe_profile_id
    assert_profiles_configured (read_kv_json kv (suc n) key).status
    value ← stored (read_kv_json kv (suc n) key).value safe_profile_id
    validate_profile_document show_number value safe_profile_id allowed none

  -- `resolveApplicationProfileForTool`
  unfoldable pub resolve_application_profile_for_tool : ℕ → String → Result ValidatedAppProfile
  unfolding find_entry enabled_entry
  resolve_application_profile_for_tool n profile_id = do
    assert_profiles_configured (list_application_profiles n).status
    safe_profile_id ← validate_profile_id profile_id
    entry ←
        enabled_entry safe_profile_id
          (find_entry safe_profile_id (list_application_profiles n).profiles)
    load_application_profile (suc n) safe_profile_id
