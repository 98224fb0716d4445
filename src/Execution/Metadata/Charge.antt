-- ===== src/Execution/Metadata/Charge.antt =====
-- When a call is billed.
use aws_mcp_gateway.Base.{
  [], ◌*◌, ◌+◌, eqb, Bool-cases, ◌∷◌, sym, List, ℕ, and_iff, ◌<◌, ◌≡◌, ◌↔◌, ◌⊎◌, refl, subst, Bool,
  true, false, not, Option, none, some, inl, inr, arith, if◌then◌else◌,
}
use aws_mcp_gateway.Errors.{GatewayError, ok, thrown, ok-injective, thrown_ne_ok}
use aws_mcp_gateway.Manifest.{
  ToolManifest, ToolCostControl, CostControlClass, is_aws_backed_manifest,
}
use aws_mcp_gateway.Telemetry.{CacheStatus, hit, miss, disabled, unavailable, bypass}
use aws_mcp_gateway.Execution.{
  AwsRequestSummary, cost_of, ToolExecutionMetadata, ExecutionRuntimeFacts, estimate_cost,
  should_charge, sum_request_counts,
}
use aws_mcp_gateway.Execution.Metadata.{
  charges, is_charged, metadata_of, resolve_billing, parse_tool_execution_metadata, with_class,
  with_control, build_aws_execution_metadata,
}

-- AWS was asked, since the cache had nothing or was not to be read.
abbrev pub IsPaidRead : Option CacheStatus → Type 0
IsPaidRead status = (status ≡ some miss) ⊎ (status ≡ some bypass)

charges_iff : (status : Option CacheStatus) → (charges status ≡ true) ↔ IsPaidRead status
unfolding charges should_charge
charges_iff none = (λ h. absurd (cc h), λ h. ground arith)
charges_iff (some miss) = (λ h. inl refl, λ h. refl)
charges_iff (some bypass) = (λ h. inr refl, λ h. refl)
charges_iff (some hit) = (λ h. absurd (cc h), λ h. ground arith)
charges_iff (some disabled) = (λ h. absurd (cc h), λ h. ground arith)
charges_iff (some unavailable) = (λ h. absurd (cc h), λ h. ground arith)

-- what one request of a kind costs, where a price is known
abbrev pub unit_cost : Option ℕ → ℕ
unit_cost none = 0
unit_cost (some cost) = cost

-- What requests cost: each kind its count times the price of one.
abbrev pub total_cost : List AwsRequestSummary → ℕ
total_cost [] = 0
total_cost (r ∷ rs) = r.request_count * unit_cost r.estimated_unit_cost + total_cost rs

-- how many requests there are
abbrev pub total_count : List AwsRequestSummary → ℕ
total_count [] = 0
total_count (r ∷ rs) = r.request_count + total_count rs

cost_of_lem : (count : ℕ) (cost : Option ℕ) → cost_of count cost ≡ count * unit_cost cost
unfolding cost_of
cost_of_lem count none = ground arith
cost_of_lem count (some cost) = elim (Bool-cases (eqb count 0)) [
  | inl e ↦ let zero : count ≡ 0 = ground arith in rw (e, zero) (ground arith)
  | inr e ↦ rw e refl
]

estimate_cost-total : (rs : List AwsRequestSummary) → estimate_cost rs ≡ total_cost rs
unfolding estimate_cost
estimate_cost-total [] = refl
estimate_cost-total (r ∷ rs) =
    rw (cost_of_lem r.request_count r.estimated_unit_cost, estimate_cost-total rs) refl

sum_request_counts-total : (rs : List AwsRequestSummary) → sum_request_counts rs ≡ total_count rs
unfolding sum_request_counts
sum_request_counts-total [] = refl
sum_request_counts-total (r ∷ rs) = rw (sum_request_counts-total rs) refl

-- What the metadata says of the cost.
abbrev pub IsBilled : ExecutionRuntimeFacts → ToolExecutionMetadata → Type 0
IsBilled facts m =
    ((m.billing.charged ≡ true)
      ↔ (IsPaidRead facts.cache_status × (0 < total_cost facts.aws_requests)))
    × ((m.billing.estimated_cost ≡ (if m.billing.charged then total_cost facts.aws_requests else 0))
        × ((m.aws_requests ≡ facts.aws_requests)
            × (m.aws_request_count ≡ total_count facts.aws_requests)))

metadata_of-IsBilled :
    (manifest : ToolManifest) (control : ToolCostControl) (class : CostControlClass)
    (facts : ExecutionRuntimeFacts)
    → IsBilled facts (metadata_of manifest control class facts)
unfolding metadata_of is_charged resolve_billing
metadata_of-IsBilled manifest control class facts =
    let (to, from) = charges_iff facts.cache_status in
    rw
      (
        sym (estimate_cost-total facts.aws_requests),
        sym (sum_request_counts-total facts.aws_requests),
      )
      (
        and_iff (charges facts.cache_status) _ (to, from) (ground arith, ground arith),
        (refl, (refl, refl)),
      )

-- a result that is kept if a test holds
kept :
    (b : Bool) (e : GatewayError) (m after : ToolExecutionMetadata)
    → (if b then ok m else thrown e) ≡ ok after
    → m ≡ after
kept true e m after h = ok-injective h
kept false e m after h = absurd (thrown_ne_ok h)

class-IsBilled :
    (manifest : ToolManifest) (control : ToolCostControl) (class : Option CostControlClass)
    (facts : ExecutionRuntimeFacts) (m : ToolExecutionMetadata)
    → with_class manifest control class facts ≡ ok m
    → IsBilled facts m
unfolding with_class parse_tool_execution_metadata
class-IsBilled manifest control none facts m h = absurd (thrown_ne_ok h)
class-IsBilled manifest control (some class) facts m h =
    subst (IsBilled facts) (kept _ _ (metadata_of manifest control class facts) m h)
      (metadata_of-IsBilled manifest control class facts)

control-IsBilled :
    (manifest : ToolManifest) (control : Option ToolCostControl) (facts : ExecutionRuntimeFacts)
    (m : ToolExecutionMetadata)
    → with_control manifest control facts ≡ ok m
    → IsBilled facts m
unfolding with_control
control-IsBilled manifest none facts m h = absurd (thrown_ne_ok h)
control-IsBilled manifest (some control) facts m h =
    class-IsBilled manifest control control.class facts m h

backed-IsBilled :
    (b : Bool) (manifest : ToolManifest) (e : GatewayError) (facts : ExecutionRuntimeFacts)
    (m : ToolExecutionMetadata)
    → (if not b then thrown e else with_control manifest manifest.cost_control facts) ≡ ok m
    → IsBilled facts m
backed-IsBilled true manifest e facts m h = control-IsBilled manifest _ facts m h
backed-IsBilled false manifest e facts m h = absurd (thrown_ne_ok h)

-- Metadata that is built says that a call is charged exactly when the cache status of its facts is a miss or a
-- bypass and the cost of its requests, the sum of their counts times the known price of one, is above 0. A call
-- whose status is a hit, disabled, unavailable or none is not charged, whatever it asked of AWS. The cost that is
-- given is that sum for a call that is charged, and else 0; the requests are those of the facts, and their number
-- is the sum of their counts.
pub build_aws_execution_metadata-IsBilled :
    (manifest : ToolManifest) (facts : ExecutionRuntimeFacts) (m : ToolExecutionMetadata)
    → build_aws_execution_metadata manifest facts ≡ ok m
    → IsBilled facts m
unfolding build_aws_execution_metadata
build_aws_execution_metadata-IsBilled manifest facts m h =
    backed-IsBilled (is_aws_backed_manifest manifest) manifest _ facts m h
