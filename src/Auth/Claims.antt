-- ===== src/Auth/Claims.antt =====
-- auth/oauth/scopes.ts and auth/oauth/token-claims.ts: what the gateway reads from a token's claims.
use Prim.Native.Char.{code}
use aws_mcp_gateway.Base.{
  ℕ, Bool, true, false, ◌||◌, String, List, [], ◌∷◌, ◌++◌, ◌==◌, string_eq, includes, set_add_all,
  eqb, length, non_empty, split, is_space, is_empty, if◌then◌else◌, ◌<>◌,
}
use aws_mcp_gateway.Js.{Value, Fields, text, array, get, texts}
use aws_mcp_gateway.Js.Numbers.{whole, num_le, num_lt}

-- the scopes that a text lists between white space
unfoldable pub string_scopes : Value → List String
string_scopes (text s) = non_empty (split is_space s)
string_scopes v = []

-- the scopes that an array lists
unfoldable pub array_scopes : Value → List String
array_scopes (array vs) = non_empty (texts vs)
array_scopes v = []

-- `extractScopes`
unfoldable pub extract_scopes : Fields → List String
unfolding string_scopes array_scopes
extract_scopes payload =
    set_add_all
      (set_add_all (set_add_all [] (string_scopes (get "scope" payload)))
        (array_scopes (get "scp" payload)))
      (array_scopes (get "permissions" payload))

dot : ℕ → Bool
dot c = eqb c b'.'

-- `isLikelyJwt`
unfoldable pub is_likely_jwt : String → Bool
unfolding dot
is_likely_jwt token = eqb (length (split dot token)) 3

-- `stringValues`
unfoldable pub string_values : Value → List String
string_values (text s) = if is_empty s then [] else s ∷ []
string_values (array vs) = non_empty (texts vs)
string_values v = []

-- `s.replace(/\/$/, "")`
unfoldable pub drop_last_slash : String → String
drop_last_slash String.[] = String.[]
drop_last_slash (String.◌∷◌ c String.[]) =
    if eqb (code c) b'/' then String.[] else String.◌∷◌ c String.[]
drop_last_slash (String.◌∷◌ c (String.◌∷◌ d s)) = String.◌∷◌ c (drop_last_slash (String.◌∷◌ d s))

-- `s.endsWith(suffix)`
unfoldable pub ends_with : String → String → Bool
ends_with suffix String.[] = is_empty suffix
ends_with suffix (String.◌∷◌ c s) = String.◌∷◌ c s == suffix || ends_with suffix s

-- `audienceCandidates`
unfoldable pub audience_candidates : String → List String
unfolding drop_last_slash ends_with
audience_candidates expected_audience =
    let normalized = drop_last_slash expected_audience in
    if ends_with "/mcp" normalized
    then normalized ∷ []
    else normalized ∷ (normalized <> "/mcp") ∷ []

-- `candidates.some((candidate) => values.includes(candidate))`
unfoldable pub some_included : List String → List String → Bool
some_included [] values = false
some_included (candidate ∷ candidates) values =
    includes values candidate || some_included candidates values

-- `[...audiences, ...resources]`
unfoldable pub token_audiences : Fields → List String
unfolding string_values
token_audiences payload =
    string_values (get "aud" payload) ++ string_values (get "resource" payload)

-- `hasExpectedAudience`
unfoldable pub has_expected_audience : Fields → String → Bool
unfolding audience_candidates some_included token_audiences
has_expected_audience payload expected_audience =
    some_included (audience_candidates expected_audience) (token_audiences payload)

-- `typeof expiresAt === "number" && expiresAt <= nowSeconds`
unfoldable pub is_expired : Value → ℕ → Bool
is_expired (Value.number expires_at) now_seconds = num_le expires_at (whole now_seconds)
is_expired v now_seconds = false

-- `typeof notBefore === "number" && notBefore > nowSeconds`
unfoldable pub is_early : Value → ℕ → Bool
is_early (Value.number not_before) now_seconds = num_lt (whole now_seconds) not_before
is_early v now_seconds = false

-- `hasValidTokenTimes`
unfoldable pub has_valid_token_times : Fields → ℕ → Bool
unfolding is_expired is_early
has_valid_token_times payload now_seconds =
    if is_expired (get "exp" payload) now_seconds
    then false
    else if is_early (get "nbf" payload) now_seconds
    then false
    else true
