-- ===== src/Telemetry.antt =====
-- telemetry/collector.ts and telemetry/types.ts: what one tool call counts of its AWS requests and of
-- its cache reads. The collector's two variables are a state that each operation takes and returns.
pub mod Counts
pub mod Keys
pub mod Status
use Prim.Native.Char.{Char, code}
use aws_mcp_gateway.Capabilities.{is_aws_capability_id}
use aws_mcp_gateway.Base.{
  ℕ, ◌+◌, Bool, true, false, Option, none, some, String, List, [], ◌∷◌, ◌++◌, ◌==◌, string_eq,
  is_empty, eqb, if◌then◌else◌, ◌<>◌,
}

-- `CacheStatus`
pub data CacheStatus : Type 0 where
  hit miss disabled unavailable bypass : CacheStatus

-- the place of a status in `CACHE_STATUSES`
abbrev pub status_index : CacheStatus → ℕ
status_index hit = 0
status_index miss = 1
status_index disabled = 2
status_index unavailable = 3
status_index bypass = 4

abbrev pub same_status : CacheStatus → CacheStatus → Bool
same_status s t = eqb (status_index s) (status_index t)

-- `CACHE_STATUS_PRIORITY`
abbrev pub cache_status_priority : List CacheStatus
cache_status_priority = miss ∷ bypass ∷ unavailable ∷ hit ∷ disabled ∷ []

-- `awsRequestKey`; an empty region is none
unfoldable pub aws_request_key : String → Option String → String
aws_request_key capability_id none = capability_id
aws_request_key capability_id (some region) =
    if is_empty region then capability_id else capability_id <> "|" <> region

before : Char → String × Option String → String × Option String
before c (s, rest) = (String.◌∷◌ c s, rest)

-- `parseAwsRequestKey`: the capability before the first `|`, and the region after it
unfoldable pub parse_aws_request_key : String → String × Option String
unfolding before
parse_aws_request_key String.[] = ("", none)
parse_aws_request_key (String.◌∷◌ c s) =
    let parsed = parse_aws_request_key s in
    if eqb (code c) b'|' then ("", some s) else before c parsed

-- `RecordedAwsRequest`
pub record RecordedAwsRequest : Type 0 where
  pub capability_id : String
  pub region : Option String
  pub request_count : ℕ

-- The variables `cacheStatuses` and `awsRequestCounts` of `createExecutionCollector`; the map lists
-- its entries in the order in which their keys were first set.
pub record ExecutionCollector : Type 0 where
  pub cache_statuses : List CacheStatus
  pub aws_request_counts : List (String × ℕ)

-- a collector is created as `reset` leaves it
abbrev pub reset : ExecutionCollector
reset = record { cache_statuses = []; aws_request_counts = [] }

-- `recordCacheStatus`
unfoldable pub record_cache_status : ExecutionCollector → CacheStatus → ExecutionCollector
record_cache_status c status = record {
  cache_statuses = c.cache_statuses ++ status ∷ [];
  aws_request_counts = c.aws_request_counts;
}

-- `counts.set(key, (counts.get(key) ?? 0) + 1)`
unfoldable pub count_one : String → List (String × ℕ) → List (String × ℕ)
count_one key [] = (key, 1) ∷ []
count_one key ((k, n) ∷ counts) =
    let rest = count_one key counts in if k == key then (k, n + 1) ∷ counts else (k, n) ∷ rest

-- `recordAwsRequest`
unfoldable pub record_aws_request : ExecutionCollector → String × Option String → ExecutionCollector
unfolding count_one aws_request_key
record_aws_request c (capability_id, region) = record {
  cache_statuses = c.cache_statuses;
  aws_request_counts = count_one (aws_request_key capability_id region) c.aws_request_counts;
}

unfoldable pub has_status : List CacheStatus → CacheStatus → Bool
has_status [] s = false
has_status (t ∷ ts) s = let rest = has_status ts s in if same_status s t then true else rest

first_status : List CacheStatus → List CacheStatus → Option CacheStatus
unfolding has_status
first_status [] [] = none
first_status [] (s ∷ ss) = some s
first_status (p ∷ ps) statuses =
    let rest = first_status ps statuses in if has_status statuses p then some p else rest

status_among : List CacheStatus → Option CacheStatus
unfolding first_status
status_among [] = none
status_among (s ∷ ss) = first_status cache_status_priority (s ∷ ss)

-- `resolveCacheStatus`
unfoldable pub resolve_cache_status : ExecutionCollector → Option CacheStatus
unfolding status_among
resolve_cache_status c = status_among c.cache_statuses

-- the loop of `snapshot`, which throws on a capability that the gateway does not know
unfoldable pub recorded_requests : List (String × ℕ) → Option (List RecordedAwsRequest)
unfolding parse_aws_request_key
recorded_requests [] = some []
recorded_requests ((key, request_count) ∷ counts) =
    let (capability_id, region) = parse_aws_request_key key in
    let rest = recorded_requests counts in
    if is_aws_capability_id capability_id
    then elim rest [
      | none ↦ none
      | some requests ↦ some (
          record { capability_id = capability_id; region = region; request_count = request_count }
          ∷ requests)
    ]
    else none

-- `snapshot`, less the copy of the statuses
unfoldable pub snapshot : ExecutionCollector → Option (List RecordedAwsRequest)
unfolding recorded_requests
snapshot c = recorded_requests c.aws_request_counts
