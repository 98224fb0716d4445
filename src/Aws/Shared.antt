-- ===== src/Aws/Shared.antt =====
-- What the namespace of the cache hands on from one call to the next.
use aws_mcp_gateway.Base.{
  ℕ, suc, ◌≡◌, refl, sym, ap, ◌∙◌, subst, inl, inr, true, false, ◌&&◌, Bool-cases, Option, none,
  some, Option-cases, String, length, leb, ◌==◌, string_eq, string_eq_iff,
}
use aws_mcp_gateway.Errors.{Result, ok, thrown, thrown_ne_ok, ok-injective}
use aws_mcp_gateway.Capabilities.{AwsCapabilityDefinition, get_aws_capability}
use aws_mcp_gateway.Credentials.{AwsCredentials}
use aws_mcp_gateway.Telemetry.{CacheStatus, record_cache_status, hit, miss}
use aws_mcp_gateway.Cache.{cache_set, cache_read_with_status}
use aws_mcp_gateway.Aws.{
  Io, Cloud, Namespace, Kept, cached_or, read_cache, write_cache, read_of, write_to, go_on, ◌>>=◌,
  ◌>>◌, lift, Delivery, answered, cut_off, when_ok, timed_out, failed, response_of, request_for,
  expected_service, sending, aws_request,
}

module _ {E : Type 0} where
  -- The namespace is there, and none of its operations throws.
  abbrev pub IsSound : Cloud E → Type 0
  IsSound s = (kv : Namespace E) × (s.cache ≡ some kv) × ((n : ℕ) → kv.throws n ≡ false)

  -- The next read of the key gives the value.
  abbrev pub Holds : {A : Type 0} → Kept E A → String → A → Cloud E → Type 0
  Holds kept key a s =
      (kv : Namespace E) × (e : E) × (s.cache ≡ some kv)
      × (kv.throws 0 ≡ false)
      × (kv.entries key ≡ some e)
      × (kept.kept e ≡ some a)

  pub go_on-ok :
      {A B : Type 0} (end : Result A × Cloud E) (next : A → Io E B) (b : B) (s : Cloud E)
      → go_on end next ≡ (ok b, s)
      → (a : A) × ((end.0 ≡ ok a) × (next a end.1 ≡ (ok b, s)))
  go_on-ok (ok a, s') next b s h = (a, (refl, h))
  go_on-ok {B = B} (thrown e, s') next b s h =
      absurd (thrown_ne_ok (ap (λ (p : Result B × Cloud E). p.0) h))

  module _ {A : Type 0} (kept : Kept E A) (key : String) where
    -- what was written is found
    pub write_cache-Holds :
        (a : A) (s : Cloud E) → IsSound s → Holds kept key a (write_cache key (kept.keep a) s).1
    unfolding write_cache write_to cache_set
    write_cache-Holds a s (kv, e, sound) = (
      record {
        entries = cache_set true key (kept.keep a) kv.entries;
        throws = λ n. kv.throws (suc n);
      },
      kept.keep a,
      rw e (rw (sound 0) refl),
      sound 1,
      rw ((string_eq_iff key key).1 refl) refl,
      kept.kept-keep a,
    )

    -- so is what is written last
    pub written-Holds :
        (a b : A) (s s1 : Cloud E)
        → IsSound s
        → (write_cache key (kept.keep a) >> lift (ok a)) s ≡ (ok b, s1)
        → Holds kept key b s1
    unfolding write_cache
    written-Holds a b s s1 sound h =
        subst (λ b'. Holds kept key b' s1) (ok-injective (ap (λ (p : Result A × Cloud E). p.0) h))
          (subst (Holds kept key a) (ap (λ (p : Result A × Cloud E). p.1) h)
            (write_cache-Holds a s sound))

    read_status : Option E → CacheStatus
    read_status none = miss
    read_status (some e) = hit

    -- the state after a read of a namespace
    after_read : Namespace E → Option E → Cloud E → Cloud E
    after_read kv found s = record {
      cache = some (record { entries = kv.entries; throws = λ n. kv.throws (suc n) });
      execution = record_cache_status s.execution (read_status found);
      sent = s.sent;
    }

    read_cache_lem :
        (kv : Namespace E) (found : Option E) (s : Cloud E)
        → s.cache ≡ some kv
        → kv.throws 0 ≡ false
        → kv.entries key ≡ found
        → read_cache key s ≡ (ok found, after_read kv found s)
    unfolding read_cache read_of cache_read_with_status after_read read_status
    read_cache_lem kv none s at calm found = simp (at, calm, found)
    read_cache_lem kv (some e) s at calm found = simp (at, calm, found)

    cached_or-some :
        (e : E) (a : A) (rest : Io E A) (s : Cloud E)
        → kept.kept e ≡ some a
        → cached_or kept (some e) rest s ≡ (ok a, s)
    unfolding cached_or
    cached_or-some e a rest s h = rw (h, cached_or) refl

    cached_or-none :
        (e : E) (rest : Io E A) (s : Cloud E)
        → kept.kept e ≡ none
        → cached_or kept (some e) rest s ≡ rest s
    unfolding cached_or
    cached_or-none e rest s h = rw (h, cached_or) refl

    -- what is held is the answer, and nothing is sent for it
    pub cached-Holds :
        (a : A) (rest : Io E A) (s : Cloud E)
        → Holds kept key a s
        → (s' : Cloud E) × ((read_cache key >>= λ found. cached_or kept found rest) s ≡ (ok a, s'))
          × (s'.sent ≡ s.sent)
    unfolding after_read
    cached-Holds a rest s (kv, e, at, calm, found, is_a) = (
      after_read kv (some e) s,
      rw (read_cache_lem kv (some e) s at calm found)
          (cached_or-some e a rest (after_read kv (some e) s) is_a),
      refl,
    )

    -- an answer that was read is still held, and one that was not is held if what made it left it behind
    pub cached-fills :
        (a : A) (rest : Io E A) (s s1 : Cloud E)
        → IsSound s
        → (read_cache key >>= λ found. cached_or kept found rest) s ≡ (ok a, s1)
        → ((s' : Cloud E) → IsSound s' → rest s' ≡ (ok a, s1) → Holds kept key a s1)
        → Holds kept key a s1
    unfolding after_read cached_or
    cached-fills a rest s s1 (kv, at, calm) h fill = elim (Option-cases (kv.entries key)) [
      | inl missing ↦
          fill (after_read kv none s) (_, refl, λ n. calm (suc n))
            (rw (read_cache_lem kv none s at (calm 0) missing) at h)
      | inr (e, there) ↦
          let h' = rw (read_cache_lem kv (some e) s at (calm 0) there) at h in
          elim (Option-cases (kept.kept e)) [
            | inl other ↦
                fill (after_read kv (some e) s) (_, refl, λ n. calm (suc n))
                  (sym (cached_or-none e rest (after_read kv (some e) s) other) ∙ h')
            | inr (b, is_b) ↦
                let same = sym (cached_or-some e b rest (after_read kv (some e) s) is_b) ∙ h' in
                subst (Holds kept key a) (ap (λ (p : Result A × Cloud E). p.1) same) (
                  (
                    _,
                    e,
                    refl,
                    calm 1,
                    there,
                    is_b ∙ ap some (ok-injective (ap (λ (p : Result A × Cloud E). p.0) same)),
                  ))
          ]
    ]

when_ok-cache :
    {E A : Type 0} (id r : String) (status : ℕ) (result : Result (Option A)) (s : Cloud E)
    → (when_ok id r status result s).1.cache ≡ s.cache
unfolding when_ok
when_ok-cache id r status result s = elim (Bool-cases (leb 200 status && leb status 299)) [
  | inl fine ↦ rw fine
  | inr wrong ↦ rw wrong
]

response_of-cache :
    {E A : Type 0} (id r : String) (d : Delivery A) (s : Cloud E)
    → (response_of id r d s).1.cache ≡ s.cache
unfolding response_of
response_of-cache id r (answered status body) s = when_ok-cache id r status _ s
response_of-cache id r (cut_off status late) s = when_ok-cache id r status (thrown _) s
response_of-cache id r timed_out s = refl
response_of-cache id r failed s = refl

request_for-cache :
    {E A : Type 0} (found : Option AwsCapabilityDefinition) (id service region : String)
    (credentials : AwsCredentials) (deliver : ℕ → Delivery A) (s : Cloud E)
    → (request_for found id service region credentials deliver s).1.cache ≡ s.cache
unfolding request_for
request_for-cache none id service region credentials deliver s = refl
request_for-cache (some c) id service region credentials deliver s =
    elim (Bool-cases (service == expected_service c)) [
      | inl same ↦ rw same (
          response_of-cache id region (deliver (length s.sent))
            (sending id service region credentials s))
      | inr other ↦ rw other refl
    ]

-- The program leaves the namespace as it is.
pub record LeavesCache {E A : Type 0} (m : Io E A) : Type 0 where
  pub leave : (s : Cloud E) → (m s).1.cache ≡ s.cache

go_on-LeavesCache :
    {E A B : Type 0} (end : Result A × Cloud E) (next : A → Io E B)
    → ((a : A) → LeavesCache (next a))
    → (go_on end next).1.cache ≡ end.1.cache
go_on-LeavesCache (ok a, s) next h = (h a).leave s
go_on-LeavesCache (thrown e, s) next h = refl

pub >>=-LeavesCache :
    {E A B : Type 0} (m : Io E A) (next : A → Io E B)
    → LeavesCache m
    → ((a : A) → LeavesCache (next a))
    → LeavesCache (m >>= next)
>>=-LeavesCache m next h k = record { leave = λ s. go_on-LeavesCache (m s) next k ∙ h.leave s }

pub lift-LeavesCache : {E A : Type 0} (result : Result A) → LeavesCache {E = E} (lift result)
lift-LeavesCache result = record { leave = λ s. refl }

pub aws_request-LeavesCache :
    {E A : Type 0} (id service region : String) (credentials : AwsCredentials)
    (deliver : ℕ → Delivery A)
    → LeavesCache {E = E} (aws_request id service region credentials deliver)
unfolding aws_request
aws_request-LeavesCache id service region credentials deliver = record {
  leave = request_for-cache (get_aws_capability id) id service region credentials deliver;
}

-- a sound namespace stays one behind a program that leaves it
pub LeavesCache-IsSound :
    {E A : Type 0} (m : Io E A) (s : Cloud E) → LeavesCache m → IsSound s → IsSound (m s).1
LeavesCache-IsSound m s h (kv, at, calm) = (kv, h.leave s ∙ at, calm)
