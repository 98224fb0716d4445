-- ===== src/Aws.antt =====
-- aws/client.ts: a request to AWS, and the state that the clients of AWS share: the namespace of the
-- cache, what the call has counted, and the requests that went out. What AWS sends back is a parameter of
-- each request, and so is which reads and writes of the namespace throw.
pub mod Reads
pub mod Shared
pub mod Answers
use aws_mcp_gateway.Base.{
  ℕ, suc, ◌≡◌, Bool, true, false, ◌&&◌, not, Option, none, some, or_else, String, List, ◌∷◌, leb,
  length, ◌!=◌, string_eq, if◌then◌else◌,
}
use aws_mcp_gateway.Errors.{
  Result, ok, thrown, GatewayError, gateway_error, retryable_error, internal_error,
  aws_request_failed,
}
use aws_mcp_gateway.Capabilities.{AwsCapabilityDefinition, get_aws_capability}
use aws_mcp_gateway.Credentials.{AwsCredentials}
use aws_mcp_gateway.Telemetry.{ExecutionCollector, record_aws_request}
use aws_mcp_gateway.Cache.{cache_read_with_status, cache_set}

-- A namespace: its entries, and which of the operations to come throw.
pub record Namespace (E : Type 0) : Type 0 where
  pub entries : String → Option E
  pub throws : ℕ → Bool

-- A request that went out.
pub record Sent : Type 0 where
  pub capability_id : String
  pub service : String
  pub region : String
  pub credentials : AwsCredentials

pub record Cloud (E : Type 0) : Type 0 where
  pub cache : Option (Namespace E)
  pub execution : ExecutionCollector
  pub sent : List Sent

-- A program that may throw, over the shared state.
abbrev pub Io : Type 0 → Type 0 → Type 0
Io E A = Cloud E → Result A × Cloud E

-- what follows a program that has ended
abbrev pub go_on : {E A B : Type 0} → Result A × Cloud E → (A → Io E B) → Result B × Cloud E
go_on (ok a, s) next = next a s
go_on (thrown e, s) next = (thrown e, s)

infixl 5 ◌>>=◌ ◌>>◌
abbrev pub ◌>>=◌ : {E A B : Type 0} → Io E A → (A → Io E B) → Io E B
◌>>=◌ m next s = go_on (m s) next

abbrev pub ◌>>◌ : {E A : Type 0} → Io E (Unit {0}) → Io E A → Io E A
◌>>◌ m next s = go_on (m s) (λ _. next)

-- a value, or a throw, with the state as it is
abbrev pub lift : {E A : Type 0} → Result A → Io E A
lift result s = (result, s)

-- What the platform's `fetch` comes to: an answer with its status and its body, which may be empty or no
-- JSON; an answer whose body is cut off, by the time limit (`true`) or else; or no answer, likewise.
pub data Body (A : Type 0) : Type 0 where
  empty no_json : Body A
  json : A → Body A

pub data Delivery (A : Type 0) : Type 0 where
  answered : ℕ → Body A → Delivery A
  cut_off : ℕ → Bool → Delivery A
  timed_out failed : Delivery A

-- `new AwsRequestError({ … })`
request_error : Bool → GatewayError
request_error true = retryable_error aws_request_failed "AWS request failed."
request_error false = gateway_error aws_request_failed "AWS request failed."

-- `JSON.parse(text) as T`, where an empty text is `undefined`
body_of : {A : Type 0} → Body A → Result (Option A)
unfolding request_error
body_of empty = ok none
body_of no_json = thrown (request_error false)
body_of (json a) = ok (some a)

-- what is made of an answer with a status: only one in the 200s is counted
when_ok : {E A : Type 0} → String → String → ℕ → Result (Option A) → Io E (Option A)
unfolding request_error
when_ok id region status result s =
    if leb 200 status && leb status 299
    then (result, record s { execution = record_aws_request s.execution (id, some region) })
    else (thrown (request_error (leb 500 status)), s)

-- what is made of the answer to a request for a capability in a region
unfoldable pub response_of : {E A : Type 0} → String → String → Delivery A → Io E (Option A)
unfolding request_error body_of when_ok
response_of id region (answered status body) s = when_ok id region status (body_of body) s
response_of id region (cut_off status late) s =
    when_ok id region status (thrown (request_error late)) s
response_of id region timed_out s = (thrown (request_error true), s)
response_of id region failed s = (thrown (request_error false), s)

-- `capability.requestService ?? capability.iamService`
unfoldable pub expected_service : AwsCapabilityDefinition → String
expected_service c = or_else c.request_service c.iam_service

-- the throw of an `AwsCapabilityError`, which is no error of the gateway's own
unfoldable pub foreign_error : GatewayError
foreign_error = gateway_error internal_error "An unexpected error occurred."

-- the state with one more request that went out
unfoldable pub sending :
    {E : Type 0} → String → String → String → AwsCredentials → Cloud E → Cloud E
sending id service region credentials s = record s {
  sent =
      (record { capability_id = id; service = service; region = region; credentials = credentials })
      ∷ s.sent;
}

-- the request for a capability that the registry may have
request_for :
    {E A : Type 0}
    → Option AwsCapabilityDefinition
    → String
    → String
    → String
    → AwsCredentials
    → (ℕ → Delivery A)
    → Io E (Option A)
unfolding response_of expected_service foreign_error sending
request_for none id service region credentials deliver s = (thrown foreign_error, s)
request_for (some c) id service region credentials deliver s =
    if service != expected_service c
    then (thrown foreign_error, s)
    else response_of id region (deliver (length s.sent)) (sending id service region credentials s)

-- `awsRequest`: the delivery is that of the platform for the requests that went out before
unfoldable pub aws_request :
    {E A : Type 0} → String → String → String → AwsCredentials → (ℕ → Delivery A) → Io E (Option A)
unfolding request_for
aws_request id service region credentials deliver =
    request_for (get_aws_capability id) id service region credentials deliver

-- a read of the namespace, with the operations that are still to come
read_of :
    {E : Type 0} → Option (Namespace E) → String → Option (Option (Option E)) × Option (Namespace E)
read_of none key = (none, none)
read_of (some kv) key = (
  some (if kv.throws 0 then none else some (kv.entries key)),
  some (record kv { throws = λ n. kv.throws (suc n) }),
)

-- `cacheReadWithStatus` on the shared state
unfoldable pub read_cache : {E : Type 0} → String → Io E (Option E)
unfolding read_of
read_cache key s =
    let (read, cache) = read_of s.cache key in
    let (result, execution) = cache_read_with_status read s.execution in
    (ok result.value, record s { cache = cache; execution = execution })

write_to : {E : Type 0} → Option (Namespace E) → String → E → Option (Namespace E)
write_to none key value = none
write_to (some kv) key value = some (record {
  entries = cache_set (not (kv.throws 0)) key value kv.entries;
  throws = λ n. kv.throws (suc n);
})

-- `if (cache) await cacheSet(…)`
unfoldable pub write_cache : {E : Type 0} → String → E → Io E (Unit {0})
unfolding write_to
write_cache key value s = (ok tt, record s { cache = write_to s.cache key value })

-- A property of a response that is `undefined` cannot be read: the read throws a `TypeError`.
unfoldable pub defined : {A : Type 0} → Option A → Result A
unfolding foreign_error
defined none = thrown foreign_error
defined (some a) = ok a

-- How values of one type are kept among the entries of a namespace, and read again. A value of another
-- type is never found, since the name of the tool is a part of what is digested.
pub record Kept (E A : Type 0) : Type 0 where
  pub keep : A → E
  pub kept : E → Option A
  pub kept-keep : (a : A) → kept (keep a) ≡ some a

-- `if (cached) return cached`, and what is done otherwise
unfoldable pub cached_or : {E A : Type 0} → Kept E A → Option E → Io E A → Io E A
cached_or kept none rest = rest
cached_or kept (some entry) rest = elim (kept.kept entry) [ none ↦ rest | some a ↦ lift (ok a) ]
