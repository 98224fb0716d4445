-- ===== src/Logging.antt =====
-- observability/logging.ts: what the gateway lets into its logs. `Number` of a text is the platform's.
-- A pair of surrogates that a cut would split is left out whole.
pub mod Words
pub mod Entries
pub mod Short
pub mod Safe
use Prim.Native.Char.{code}
use aws_mcp_gateway.Base.{
  ℕ, ◌-◌, Bool, true, false, ◌&&◌, not, Option, none, some, or_else, is_some, String, List, [], ◌∷◌,
  map, take, units, ltb, leb, is_empty, strip_prefix, ◌<>◌, ◌==◌, string_eq, if◌then◌else◌,
}
use aws_mcp_gateway.Http.{Request}
use aws_mcp_gateway.Js.{
  Value, undefined, boolean, number, text, array, Fields, end, field, texts, texts_value,
}
use aws_mcp_gateway.Js.Numbers.{Num, ratio, minus}
use aws_mcp_gateway.Profiles.Patterns.{Pattern, literal, any_case, test}

abbrev pub forbidden_words : List String
forbidden_words =
    "authorization" ∷ "cookie" ∷ "token" ∷ "secret" ∷ "password" ∷ "credential" ∷ "jwt"
    ∷ "access_key" ∷ "client_secret" ∷ []

-- `FORBIDDEN_KEY`
unfoldable pub forbidden_key : Pattern
forbidden_key = record {
  begins_word = false;
  ends_word = false;
  rows = map any_case forbidden_words;
}

-- `isForbiddenKey`
unfoldable pub is_forbidden_key : String → Bool
unfolding forbidden_key
is_forbidden_key key = test forbidden_key key

-- `s.slice(0, n)`
unfoldable pub take_units : ℕ → String → String
take_units n String.[] = String.[]
take_units n (String.◌∷◌ c s) =
    let width : ℕ = if ltb (code c) 0x10000 then 1 else 2 in
    let rest = take_units (n - width) s in if leb width n then String.◌∷◌ c rest else String.[]

-- `capString`
unfoldable pub cap_string : String → String
unfolding take_units
cap_string s = if leb (units s) 200 then s else take_units 200 s <> "…"

-- `sanitizeValue`
unfoldable pub sanitize_value : Value → Value
unfolding cap_string
sanitize_value (text s) = text (cap_string s)
sanitize_value (number n) = number n
sanitize_value (boolean b) = boolean b
sanitize_value (array items) = array (texts_value (map cap_string (take 50 (texts items))))
sanitize_value value = undefined

-- `sanitized[key] = value`
unfoldable pub set_field : String → Value → Fields → Fields
set_field key value end = field key value end
set_field key value (field k v rest) =
    let rest' = set_field key value rest in if k == key then field k value rest else field k v rest'

-- `if (safeValue !== undefined) sanitized[key] = safeValue`
set_given : String → Value → Fields → Fields
unfolding set_field
set_given key undefined sanitized = sanitized
set_given key value sanitized = set_field key value sanitized

-- one turn of the loop, and the loop over the properties of an event
unfoldable pub add_entry : String → Value → Fields → Fields
unfolding is_forbidden_key set_given sanitize_value
add_entry key value sanitized =
    if is_forbidden_key key then sanitized else set_given key (sanitize_value value) sanitized

unfoldable pub add_entries : Fields → Fields → Fields
unfolding add_entry
add_entries sanitized end = sanitized
add_entries sanitized (field key value rest) = add_entries (add_entry key value sanitized) rest

-- `sanitizeLogEvent`
unfoldable pub sanitize_log_event : Fields → Fields
unfolding add_entries
sanitize_log_event event = add_entries (field "service" (text "aws-mcp-gateway") end) event

-- `text.includes(part)`
contains : String → String → Bool
unfolding literal
contains part s =
    test (record { begins_word = false; ends_word = false; rows = literal part ∷ [] }) s

-- `classifyUserAgentFamily`
unfoldable pub classify_user_agent_family : Option String → String
unfolding contains
classify_user_agent_family none = "other"
classify_user_agent_family (some agent) =
    if is_empty agent
    then "other"
    else if is_some (strip_prefix "openai-mcp/" agent)
    then "openai-mcp"
    else if contains "aiohttp" agent
    then "aiohttp"
    else "other"

is_text : Option String → String → Bool
is_text none s = false
is_text (some t) s = t == s

-- `classifyRequestKind`
unfoldable pub classify_request_kind : Request → String
unfolding contains is_text
classify_request_kind request =
    if request.method == "POST" && is_text (request.header "content-length") "0"
    then "empty_post"
    else if contains "application/json" (or_else (request.header "content-type") "")
    then "json_rpc"
    else "other"

-- `Number.isFinite(contentLength) ? { contentLength } : {}`
finite_length : Num → Fields → Fields
finite_length (ratio n d) rest = field "contentLength" (number (ratio n d)) rest
finite_length (minus n d) rest = field "contentLength" (number (minus n d)) rest
finite_length n rest = rest

content_length : (String → Num) → Option String → Fields → Fields
unfolding finite_length
content_length to_number none rest = rest
content_length to_number (some s) rest =
    if is_empty s then rest else finite_length (to_number s) rest

-- `buildRequestDiagnostics`
unfoldable pub build_request_diagnostics : (String → Num) → Request → Fields
unfolding content_length classify_user_agent_family classify_request_kind
build_request_diagnostics to_number request = field "service" (text "aws-mcp-gateway") (
    field "path" (text request.pathname) (
      field "method" (text request.method) (
        field "hasAuthorization" (boolean (is_some (request.header "Authorization"))) (
          field "contentType" (text (or_else (request.header "content-type") "")) (
            field "accept" (text (or_else (request.header "accept") "")) (
              content_length to_number (request.header "content-length") (
                field "userAgentFamily"
                  (text (classify_user_agent_family (request.header "user-agent")))
                  (field "requestKind" (text (classify_request_kind request)) end))))))))

-- `logInfo`, `logWarn` and `logError`, which hand the console what is safe of an event
pub data Level : Type 0 where
  info warn error : Level

unfoldable pub emit : Level → Fields → List (Level × Fields) → List (Level × Fields)
emit level event lines = (level, sanitize_log_event event) ∷ lines
