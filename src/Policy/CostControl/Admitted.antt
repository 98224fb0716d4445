-- ===== src/Policy/CostControl/Admitted.antt =====
-- Exactly which manifests and requests the cost limits let pass.
use mathlib.Core.Path.{subst}
use aws_mcp_gateway.Base.{
  ℕ, ◌≡◌, ◌↔◌, refl, sym, Bool, false, Option, none, some, String, List, <|>_iff, length,
}
use aws_mcp_gateway.Errors.{Result, ok, thrown, thrown_ne_ok, ok-injective}
use aws_mcp_gateway.Js.{Fields, get, as_text, as_number, as_texts}
use aws_mcp_gateway.Js.Numbers.{Num, num_lt}
use aws_mcp_gateway.Dates.Range.{RangeFits, validate_cost_dates_iff}
use aws_mcp_gateway.Regions.{resolve_regions}
use aws_mcp_gateway.Manifest.{
  ToolManifest, ToolCostControl, CostControlClass, AwsRegionMode, no_region, bounded_multi_region,
}
use aws_mcp_gateway.Policy.CostControl.{
  reject_if, cost_limits, known_class, validate_cost_control_manifest, exceeds, dates_result,
  dates_denial, fanout_result, fanout_denial, control_denial, request_denial,
  validate_cost_control_request,
}
use aws_mcp_gateway.Policy.CostControl.Fanout.{IsWithin, effective_max_iff}
use aws_mcp_gateway.Policy.CostControl.Limits.{
  IsDeclared, IsAbsentOrDeclared, SameNumber, ClassFits, CachesAsNeeded, positive_iff,
  good_limit_iff, same_number_iff, class_fits_iff, caching, caching_iff,
}
use aws_mcp_gateway.Policy.Checks.{reject-not_iff, reject-false_iff}

-- The declared limits make sense: a timeout, which is the tool's own; every limit positive; a class
-- that fits the kind of tool; and caching where the class needs it.
abbrev pub LimitsFit : ToolManifest → ToolCostControl → CostControlClass → Bool → Type 0
LimitsFit m c class rc =
    IsDeclared c.timeout_ms
    × (SameNumber m.timeout_ms c.timeout_ms
        × (IsAbsentOrDeclared c.max_regions
            × (IsAbsentOrDeclared c.max_date_range_days
                × (IsAbsentOrDeclared c.max_result_count
                    × (IsAbsentOrDeclared c.max_lookback_hours
                        × (IsAbsentOrDeclared c.min_cache_ttl_seconds
                            × (ClassFits m class rc × CachesAsNeeded m c class rc)))))))

cost_limits_iff :
    (m : ToolManifest) (c : ToolCostControl) (class : CostControlClass) (rc : Bool)
    → (cost_limits m c class rc ≡ none) ↔ LimitsFit m c class rc
unfolding cost_limits caching
cost_limits_iff m c class rc = <|>_iff _ _ (reject-not_iff _ _ (positive_iff c.timeout_ms)) (
    <|>_iff _ _ (reject-not_iff _ _ (same_number_iff m.timeout_ms c.timeout_ms)) (
      <|>_iff _ _ (good_limit_iff c.max_regions _) (
        <|>_iff _ _ (good_limit_iff c.max_date_range_days _) (
          <|>_iff _ _ (good_limit_iff c.max_result_count _) (
            <|>_iff _ _ (good_limit_iff c.max_lookback_hours _) (
              <|>_iff _ _ (good_limit_iff c.min_cache_ttl_seconds _) (
                <|>_iff _ _ (reject-not_iff _ _ (class_fits_iff m class rc))
                  (caching_iff m c class rc))))))))

-- What the manifest says of its class and of caching, and that its limits fit.
abbrev pub Declares :
    ToolManifest → ToolCostControl → Option CostControlClass → Option Bool → Type 0
Declares m c (some class) (some rc) = LimitsFit m c class rc
Declares m c class rc = ⊥

abbrev pub IsCostControlled : ToolManifest → Option ToolCostControl → Type 0
IsCostControlled m none = ⊥
IsCostControlled m (some c) = Declares m c c.class c.requires_cache

known_class_iff :
    (m : ToolManifest) (c : ToolCostControl) (class : Option CostControlClass) (rc : Option Bool)
    → (known_class m c class rc ≡ none) ↔ Declares m c class rc
unfolding known_class
known_class_iff m c (some class) (some rc) = cost_limits_iff m c class rc
known_class_iff m c (some class) none = (λ h. cc, λ h. absurd h)
known_class_iff m c none rc = (λ h. cc, λ h. absurd h)

control_iff :
    (m : ToolManifest) (c : Option ToolCostControl)
    → (control_denial m c ≡ none) ↔ IsCostControlled m c
unfolding control_denial
control_iff m none = (λ h. cc, λ h. absurd h)
control_iff m (some c) = known_class_iff m c c.class c.requires_cache

-- A manifest's cost limits pass exactly when they are declared and make sense.
pub validate_cost_control_manifest_iff :
    (m : ToolManifest)
    → (validate_cost_control_manifest m ≡ none) ↔ IsCostControlled m m.cost_control
unfolding validate_cost_control_manifest
validate_cost_control_manifest_iff m = control_iff m m.cost_control

-- The dates of a request fit, where it has both and the tool limits them.
abbrev pub DatesFit : ℕ → Option Num → Option String → Option String → Type 0
DatesFit now_ms (some limit) (some s) (some t) = RangeFits now_ms s t limit
DatesFit now_ms limit s t = Unit

dates_result_iff :
    {P : Type 0} (m : Result (Unit {0})) → (m ≡ ok tt) ↔ P → (dates_result m ≡ none) ↔ P
unfolding dates_result
dates_result_iff (ok _) p = (λ h. p.0 refl, λ x. refl)
dates_result_iff (thrown e) p = (λ h. cc, λ x. absurd (thrown_ne_ok (p.1 x)))

dates_iff :
    (now_ms : ℕ) (limit : Option Num) (s t : Option String)
    → (dates_denial now_ms limit s t ≡ none) ↔ DatesFit now_ms limit s t
unfolding dates_denial
dates_iff now_ms (some limit) (some s) (some t) =
    dates_result_iff _ (validate_cost_dates_iff now_ms s t limit)
dates_iff now_ms (some limit) (some s) none = (λ _. tt, λ _. refl)
dates_iff now_ms (some limit) none t = (λ _. tt, λ _. refl)
dates_iff now_ms none s t = (λ _. tt, λ _. refl)

-- The regions that a tool fans out to are resolved, and not more than it may take.
abbrev pub FanoutFits : AwsRegionMode → Option Num → List String → Option (List String) → Type 0
FanoutFits bounded_multi_region max_regions allowed requested =
    (rs : List String) × (resolve_regions requested allowed ≡ ok rs)
    × IsWithin max_regions (length allowed) (length rs)
FanoutFits mode max_regions allowed requested = Unit

fanout_result_iff :
    (max_regions : Option Num) (allowed : List String) (m : Result (List String))
    → (fanout_result max_regions allowed m ≡ none)
      ↔ ((rs : List String) × (m ≡ ok rs) × IsWithin max_regions (length allowed) (length rs))
unfolding fanout_result
fanout_result_iff max_regions allowed (ok rs) =
    let (to, from) = effective_max_iff max_regions allowed (length rs) in
    (
      λ h. (rs, refl, to ((reject-false_iff _ _).0 h)),
      λ (rs', e, h). (reject-false_iff _ _).1 (
          from (
            subst (λ (l : List String). IsWithin max_regions (length allowed) (length l))
              (sym (ok-injective e)) h)),
    )
fanout_result_iff max_regions allowed (thrown e) = (λ h. cc, λ (_, h, _). absurd (thrown_ne_ok h))

fanout_iff :
    (mode : AwsRegionMode) (max_regions : Option Num) (allowed : List String)
    (requested : Option (List String))
    → (fanout_denial mode max_regions allowed requested ≡ none)
      ↔ FanoutFits mode max_regions allowed requested
unfolding fanout_denial
fanout_iff bounded_multi_region max_regions allowed requested =
    fanout_result_iff max_regions allowed (resolve_regions requested allowed)
fanout_iff no_region max_regions allowed requested = (λ _. tt, λ _. refl)
fanout_iff mode max_regions allowed requested = (λ _. tt, λ _. refl)

-- A number that is given is not above a limit that is declared.
abbrev pub Keeps : Option Num → Option Num → Type 0
Keeps (some limit) (some n) = num_lt limit n ≡ false
Keeps limit n = Unit

exceeds_iff : (limit n : Option Num) → (exceeds limit n ≡ false) ↔ Keeps limit n
unfolding exceeds
exceeds_iff (some limit) (some n) = (λ h. h, λ h. h)
exceeds_iff (some limit) none = (λ _. tt, λ _. refl)
exceeds_iff none n = (λ _. tt, λ _. refl)

-- what keeps within a limit is not rejected
kept_iff :
    (limit n : Option Num) (message : String)
    → (reject_if (exceeds limit n) message ≡ none) ↔ Keeps limit n
kept_iff limit n message =
    let (to, from) = exceeds_iff limit n in
    (λ h. to ((reject-false_iff _ _).0 h), λ h. (reject-false_iff _ _).1 (from h))

-- A request within the limits that its tool declares.
abbrev pub RequestFits : AwsRegionMode → Option ToolCostControl → ℕ → List String → Fields → Type 0
RequestFits mode none now_ms allowed args = ⊥
RequestFits mode (some c) now_ms allowed args =
    DatesFit now_ms c.max_date_range_days (as_text (get "startDate" args))
      (as_text (get "endDate" args))
    × (Keeps c.max_result_count (as_number (get "limit" args))
        × (Keeps c.max_result_count (as_number (get "serviceLimit" args))
            × (Keeps c.max_lookback_hours (as_number (get "hours" args))
                × FanoutFits mode c.max_regions allowed (as_texts (get "regions" args)))))

request_iff :
    (mode : AwsRegionMode) (c : Option ToolCostControl) (now_ms : ℕ) (allowed : List String)
    (args : Fields)
    → (request_denial mode c now_ms allowed args ≡ none) ↔ RequestFits mode c now_ms allowed args
unfolding request_denial
request_iff mode none now_ms allowed args = (λ h. cc, λ h. absurd h)
request_iff mode (some c) now_ms allowed args =
    <|>_iff _ _ (dates_iff now_ms c.max_date_range_days _ _) (
      <|>_iff _ _ (kept_iff c.max_result_count _ _) (
        <|>_iff _ _ (kept_iff c.max_result_count _ _) (
          <|>_iff _ _ (kept_iff c.max_lookback_hours _ _)
            (fanout_iff mode c.max_regions allowed (as_texts (get "regions" args))))))

-- A request passes exactly when it keeps the limits that its tool declares.
pub validate_cost_control_request_iff :
    (m : ToolManifest) (now_ms : ℕ) (allowed : List String) (args : Fields)
    → (validate_cost_control_request m now_ms allowed args ≡ none)
      ↔ RequestFits m.region_mode m.cost_control now_ms allowed args
unfolding validate_cost_control_request
validate_cost_control_request_iff m now_ms allowed args =
    request_iff m.region_mode m.cost_control now_ms allowed args
