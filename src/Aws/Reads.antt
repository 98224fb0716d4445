-- ===== src/Aws/Reads.antt =====
-- Which requests the clients of AWS send: reads that the registry has, with the caller's region and credentials.
use aws_mcp_gateway.Base.{
  Bool, ℕ, ◌&&◌, true, Option, none, some, String, All, ◌≡◌, refl, inl, inr, Bool-cases, ◌==◌,
  string_eq, string_eq_iff, if◌then◌else◌, true, false,
}
use aws_mcp_gateway.Errors.{Result, ok, thrown}
use aws_mcp_gateway.Capabilities.{
  AwsCapabilityDefinition, get_aws_capability, get_aws_capability-readonly, IsReadOnly,
}
use aws_mcp_gateway.Credentials.{AwsCredentials}
use aws_mcp_gateway.Aws.{
  leb, Sent, Cloud, Io, go_on, ◌>>=◌, ◌>>◌, lift, Delivery, answered, cut_off, when_ok, timed_out,
  failed, response_of, request_for, expected_service, aws_request, read_cache, write_cache, Kept,
  cached_or,
}

-- The request asks for a capability of the registry that only reads, under a permission whose action
-- writes nothing, at the service of that capability.
abbrev pub IsRead : Sent → Type 0
IsRead q =
    (c : AwsCapabilityDefinition) × (get_aws_capability q.capability_id ≡ some c)
    × IsReadOnly c
    × (q.service ≡ expected_service c)

module _ (region : String) (credentials : AwsCredentials) where
  abbrev pub IsOwnRead : Sent → Type 0
  IsOwnRead q = IsRead q × (q.region ≡ region) × (q.credentials ≡ credentials)

  -- What the program sends are reads for the region with the credentials.
  pub record OnlyReads {E A : Type 0} (m : Io E A) : Type 0 where
    pub keep : (s : Cloud E) → All IsOwnRead s.sent → All IsOwnRead (m s).1.sent

when_ok-sent :
    {E A : Type 0} (id r : String) (status : ℕ) (result : Result (Option A)) (s : Cloud E)
    → (when_ok id r status result s).1.sent ≡ s.sent
unfolding when_ok
when_ok-sent id r status result s = elim (Bool-cases (leb 200 status && leb status 299)) [
  | inl fine ↦ rw fine
  | inr wrong ↦ rw wrong
]

response_of-sent :
    {E A : Type 0} (id r : String) (d : Delivery A) (s : Cloud E)
    → (response_of id r d s).1.sent ≡ s.sent
unfolding response_of
response_of-sent id r (answered status body) s = when_ok-sent id r status _ s
response_of-sent id r (cut_off status late) s = when_ok-sent id r status (thrown _) s
response_of-sent id r timed_out s = refl
response_of-sent id r failed s = refl

module _ (region : String) (credentials : AwsCredentials) where
  request_for-keeps :
      {E A : Type 0} (found : Option AwsCapabilityDefinition) (id service : String)
      (deliver : ℕ → Delivery A) (s : Cloud E)
      → get_aws_capability id ≡ found
      → All (IsOwnRead region credentials) s.sent
      → All
          (IsOwnRead region credentials)
          (request_for found id service region credentials deliver s).1.sent
  unfolding request_for
  request_for-keeps none id service deliver s e h = h
  request_for-keeps (some c) id service deliver s e h =
      elim (Bool-cases (service == expected_service c)) [
        | inl same ↦ rw same (
            rw (response_of-sent id region) (
              (
                (c, e, (get_aws_capability-readonly id c e).1, (string_eq_iff _ _).0 same),
                refl,
                refl,
              ),
              h,
            ))
        | inr other ↦ rw other h
      ]

module _ {region : String} {credentials : AwsCredentials} {E : Type 0} where
  go_on-OnlyReads :
      {A B : Type 0} (end : Result A × Cloud E) (next : A → Io E B)
      → All (IsOwnRead region credentials) end.1.sent
      → ((a : A) → OnlyReads region credentials (next a))
      → All (IsOwnRead region credentials) (go_on end next).1.sent
  go_on-OnlyReads (ok a, s) next h reads = (reads a).keep s h
  go_on-OnlyReads (thrown e, s) next h reads = h

  pub >>=-OnlyReads :
      {A B : Type 0} (m : Io E A) (next : A → Io E B)
      → OnlyReads region credentials m
      → ((a : A) → OnlyReads region credentials (next a))
      → OnlyReads region credentials (m >>= next)
  >>=-OnlyReads m next first rest = record {
    keep = λ s h. go_on-OnlyReads (m s) next (first.keep s h) rest;
  }

  pub >>-OnlyReads :
      {A : Type 0} (m : Io E (Unit {0})) (next : Io E A)
      → OnlyReads region credentials m
      → OnlyReads region credentials next
      → OnlyReads region credentials (m >> next)
  >>-OnlyReads m next first rest = >>=-OnlyReads m (λ _. next) first (λ _. rest)

  pub lift-OnlyReads :
      {A : Type 0} (result : Result A) → OnlyReads region credentials {E = E} (lift result)
  lift-OnlyReads result = record { keep = λ s h. h }

  pub read_cache-OnlyReads : (key : String) → OnlyReads region credentials {E = E} (read_cache key)
  unfolding read_cache
  read_cache-OnlyReads key = record { keep = λ s h. h }

  pub write_cache-OnlyReads :
      (key : String) (value : E) → OnlyReads region credentials (write_cache key value)
  unfolding write_cache
  write_cache-OnlyReads key value = record { keep = λ s h. h }

  pub aws_request-OnlyReads :
      {A : Type 0} (id service : String) (deliver : ℕ → Delivery A)
      → OnlyReads region credentials {E = E} (aws_request id service region credentials deliver)
  unfolding aws_request
  aws_request-OnlyReads id service deliver = record {
    keep = λ s h.
        request_for-keeps region credentials (get_aws_capability id) id service deliver s refl h;
  }

  pub cached_or-OnlyReads :
      {A : Type 0} (kept : Kept E A) (found : Option E) (rest : Io E A)
      → OnlyReads region credentials rest
      → OnlyReads region credentials (cached_or kept found rest)
  unfolding cached_or
  cached_or-OnlyReads kept none rest h = h
  cached_or-OnlyReads kept (some entry) rest h =
      elim (kept.kept entry)
        as (λ o. OnlyReads region credentials (elim o [ none ↦ rest | some a ↦ lift (ok a) ])) [
          | none ↦ h
          | some a ↦ lift-OnlyReads (ok a)
        ]

  pub if-OnlyReads :
      {A : Type 0} (b : Bool) (m n : Io E A)
      → OnlyReads region credentials m
      → OnlyReads region credentials n
      → OnlyReads region credentials {E = E} (if b then m else n)
  if-OnlyReads true m n h k = h
  if-OnlyReads false m n h k = k

pub ruleset reads = (
  >>=-OnlyReads, >>-OnlyReads, lift-OnlyReads, read_cache-OnlyReads, write_cache-OnlyReads,
  aws_request-OnlyReads, cached_or-OnlyReads, if-OnlyReads,
)
