-- ===== src/Cache.antt =====
-- cache/read.ts and cache/kv.ts: the cache of answers. The namespace is the platform's: a read throws
-- (`none`), or finds nothing, or a value; a write that throws leaves the namespace as it was.
pub mod Keys
use aws_mcp_gateway.Base.{
  Option, none, some, String, ◌==◌, string_eq, Bool, true, false, if◌then◌else◌,
}
use aws_mcp_gateway.Telemetry.{
  CacheStatus, hit, miss, disabled, unavailable, ExecutionCollector, record_cache_status,
}

-- `CacheReadResult`, where `null` is none
pub record CacheReadResult (A : Type 0) : Type 0 where
  pub value : Option A
  pub status : CacheStatus

-- What a read of the namespace comes to: `none` is a throw, and the inner `none` is `null`.
abbrev pub KvRead : Type 0 → Type 0
KvRead A = Option (Option A)

module _ {A : Type 0} where
  -- `cacheGet`
  unfoldable pub cache_get : KvRead A → Option A
  cache_get none = none
  cache_get (some found) = found

  hit_or_miss : Option A → CacheReadResult A
  hit_or_miss none = record { value = none; status = miss }
  hit_or_miss (some value) = record { value = some value; status = hit }

  -- the result, for a namespace that may be absent
  result_of : Option (KvRead A) → CacheReadResult A
  unfolding hit_or_miss
  result_of none = record { value = none; status = disabled }
  result_of (some none) = record { value = none; status = unavailable }
  result_of (some (some found)) = hit_or_miss found

  -- `cacheReadWithStatus`, with the collector of the call
  unfoldable pub cache_read_with_status :
      Option (KvRead A) → ExecutionCollector → CacheReadResult A × ExecutionCollector
  unfolding result_of
  cache_read_with_status kv collector =
      (result_of kv, record_cache_status collector (result_of kv).status)

  -- `cacheSet`, which never throws, where `true` says that the write went through, on the values of
  -- the namespace by their keys
  unfoldable pub cache_set : Bool → String → A → (String → Option A) → String → Option A
  cache_set false key value entries = entries
  cache_set true key value entries = λ other. if other == key then some value else entries other
