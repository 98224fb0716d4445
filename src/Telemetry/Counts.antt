-- ===== src/Telemetry/Counts.antt =====
-- What the collector has counted after a run of requests.
use aws_mcp_gateway.Base.{
  ℕ, ◌+◌, ◌≡◌, refl, inl, inr, Bool-cases, Option, String, List, [], ◌∷◌, ◌==◌, string_eq,
  string_eq_iff, if◌then◌else◌, length, arith,
}
use aws_mcp_gateway.Telemetry.{ExecutionCollector, count_one, aws_request_key, record_aws_request}

-- a collector that has been told of these requests, in their order
abbrev pub record_all : ExecutionCollector → List (String × Option String) → ExecutionCollector
record_all c [] = c
record_all c (r ∷ rs) = record_all (record_aws_request c r) rs

abbrev pub total : List (String × ℕ) → ℕ
total [] = 0
total ((k, n) ∷ counts) = n + total counts

-- what is counted under a key
abbrev pub count_of : String → List (String × ℕ) → ℕ
count_of key [] = 0
count_of key ((k, n) ∷ counts) = (if k == key then n else 0) + count_of key counts

-- how many of the requests have a key
abbrev pub asked_for : String → List (String × Option String) → ℕ
asked_for key [] = 0
asked_for key ((id, region) ∷ rs) =
    (if aws_request_key id region == key then 1 else 0) + asked_for key rs

total-count_one :
    (key : String) (counts : List (String × ℕ)) → total (count_one key counts) ≡ total counts + 1
unfolding count_one
total-count_one key [] = refl
total-count_one key ((k, n) ∷ counts) = ground (arith, total-count_one key counts)

count_of-count_one :
    (key asked : String) (counts : List (String × ℕ))
    → count_of asked (count_one key counts)
      ≡ (if key == asked then 1 else 0) + count_of asked counts
unfolding count_one
count_of-count_one key asked [] = refl
count_of-count_one key asked ((k, n) ∷ counts) = elim (Bool-cases (k == key)) [
  | inl same ↦ rw (same, (string_eq_iff k key).0 same) (ground arith)
  | inr other ↦ rw other (ground (arith, count_of-count_one key asked counts))
]

-- However requests repeat, the counts of a collector grow by one for each of them.
pub total-record_all :
    (c : ExecutionCollector) (rs : List (String × Option String))
    → total (record_all c rs).aws_request_counts ≡ total c.aws_request_counts + length rs
unfolding record_aws_request
total-record_all c [] = omega arith
total-record_all c ((id, region) ∷ rs) = omega (
  arith,
  total-record_all (record_aws_request c (id, region)) rs,
  total-count_one (aws_request_key id region) c.aws_request_counts,
)

-- After any run of requests, what a fresh collector has counted under a key is the number of the
-- requests whose capability and region make that key.
pub count_of-record_all :
    (c : ExecutionCollector) (rs : List (String × Option String)) (key : String)
    → count_of key (record_all c rs).aws_request_counts
      ≡ count_of key c.aws_request_counts + asked_for key rs
unfolding record_aws_request
count_of-record_all c [] key = omega arith
count_of-record_all c ((id, region) ∷ rs) key = omega (
  arith,
  count_of-record_all (record_aws_request c (id, region)) rs key,
  count_of-count_one (aws_request_key id region) key c.aws_request_counts,
)
