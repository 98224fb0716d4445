-- ===== src/Policy/CostControl/Limits.antt =====
-- The limits of a tool and of a request, said without their checks.
use native.Mathlib.Nat.{div-add-mod, mul-mod_left}
use aws_mcp_gateway.Base.{
  ℕ, suc, ◌*◌, ◌-◌, ◌/◌, ◌%◌, ◌<◌, ◌≡◌, ◌≢◌, ◌↔◌, refl, ◌⊎◌, inl, inr, Bool, true, false, ◌&&◌, not,
  Option, none, some, String, arith, ◌<|>◌, <|>_iff,
}
use aws_mcp_gateway.Errors.{GatewayError}
use aws_mcp_gateway.Js.Numbers.{Num, whole, num_eq, is_positive_integer, ratio, minus}
use aws_mcp_gateway.Manifest.{
  ToolManifest, ToolCostControl, CostControlClass, free, low, is_aws_backed_manifest,
}
use aws_mcp_gateway.Policy.CostControl.{
  reject_if, positive, bad_limit, same_number, requires_caching, class_fits, below, malformed,
}
use aws_mcp_gateway.Policy.Checks.{reject-not_iff, reject-false_iff}

-- A number that is whole and above 0.
abbrev pub IsPositiveInteger : Num → Type 0
IsPositiveInteger x = (k : ℕ) × (num_eq x (whole (suc k)) ≡ true)

exact : (n d : ℕ) → n % suc d ≡ 0 → 0 < n → n ≡ suc (n / suc d - 1) * suc d
exact n d e pos = grind (arith, div-add-mod n (suc d))

multiple : (k d n : ℕ) → n ≡ suc k * suc d → (n % suc d ≡ 0) × (0 < n)
multiple k d n e = (rw e (mul-mod_left (suc k) (suc d)), grind arith)

pub is_positive_integer_iff : (x : Num) → (is_positive_integer x ≡ true) ↔ IsPositiveInteger x
unfolding is_positive_integer num_eq
is_positive_integer_iff (ratio n d) =
    (λ h. (n / suc d - 1, ground (arith, exact n d)), λ (k, e). ground (arith, multiple k d n))
is_positive_integer_iff (minus n d) = (λ h. cc, λ (k, e). e)
is_positive_integer_iff x = (λ h. cc, λ (k, e). e)

-- A declared limit is a positive whole number; so is one that must be there.
abbrev pub IsDeclared : Option Num → Type 0
IsDeclared none = ⊥
IsDeclared (some x) = IsPositiveInteger x

abbrev pub IsAbsentOrDeclared : Option Num → Type 0
IsAbsentOrDeclared none = Unit
IsAbsentOrDeclared (some x) = IsPositiveInteger x

pub positive_iff : (o : Option Num) → (positive o ≡ true) ↔ IsDeclared o
unfolding positive
positive_iff none = (λ h. cc, λ e. absurd e)
positive_iff (some x) = is_positive_integer_iff x

pub good_limit_iff :
    (o : Option Num) (message : String)
    → (reject_if (bad_limit o) message ≡ none) ↔ IsAbsentOrDeclared o
unfolding bad_limit
good_limit_iff none message = (λ _. tt, λ _. refl)
good_limit_iff (some x) message = reject-not_iff _ message (is_positive_integer_iff x)

-- The two timeouts agree.
abbrev pub SameNumber : Option Num → Option Num → Type 0
SameNumber (some a) (some b) = num_eq a b ≡ true
SameNumber none none = Unit
SameNumber a b = ⊥

pub same_number_iff : (a b : Option Num) → (same_number a b ≡ true) ↔ SameNumber a b
unfolding same_number
same_number_iff (some a) (some b) = ((λ h. h), (λ h. h))
same_number_iff none none = (λ _. tt, λ _. refl)
same_number_iff none (some b) = (λ h. cc, λ h. absurd h)
same_number_iff (some a) none = (λ h. cc, λ h. absurd h)

-- A tool of AWS is not free of charge; any other is, and caches nothing.
abbrev pub ClassFits : ToolManifest → CostControlClass → Bool → Type 0
ClassFits m class requires_cache =
    ((is_aws_backed_manifest m ≡ true) × (class ≢ free))
    ⊎ ((is_aws_backed_manifest m ≡ false) × (class ≡ free) × (requires_cache ≡ false))

pub class_fits_iff :
    (m : ToolManifest) (class : CostControlClass) (rc : Bool)
    → (class_fits m class rc ≡ true) ↔ ClassFits m class rc
unfolding class_fits
class_fits_iff m class rc = grind arith

-- A class that is paid for or fans out caches, with a declared least lifetime that the tool keeps.
abbrev pub CachesAsNeeded : ToolManifest → ToolCostControl → CostControlClass → Bool → Type 0
CachesAsNeeded m c class requires_cache =
    (class ≡ free)
    ⊎ (class ≡ low)
    ⊎ ((requires_cache ≡ true)
        × IsDeclared c.min_cache_ttl_seconds
        × (below m.cache_ttl_seconds c.min_cache_ttl_seconds ≡ false))

unfoldable pub caching :
    ToolManifest → ToolCostControl → CostControlClass → Bool → Option GatewayError
caching m c class rc =
    reject_if (requires_caching class && not rc) malformed
    <|> reject_if (requires_caching class && not (positive c.min_cache_ttl_seconds)) malformed
    <|> reject_if (requires_caching class && below m.cache_ttl_seconds c.min_cache_ttl_seconds)
        malformed

needed_iff :
    (m : ToolManifest) (c : ToolCostControl) (class : CostControlClass) (rc : Bool)
    → requires_caching class ≡ true
    → (caching m c class rc ≡ none) ↔ (
        (rc ≡ true)
        × (IsDeclared c.min_cache_ttl_seconds
            × (below m.cache_ttl_seconds c.min_cache_ttl_seconds ≡ false)))
unfolding caching
needed_iff m c class rc needed = rw needed (
    <|>_iff _ _ (reject-not_iff _ _ ((λ h. h), (λ h. h))) (
      <|>_iff _ _ (reject-not_iff _ _ (positive_iff c.min_cache_ttl_seconds))
        (reject-false_iff _ _)))

pub caching_iff :
    (m : ToolManifest) (c : ToolCostControl) (class : CostControlClass) (rc : Bool)
    → (caching m c class rc ≡ none) ↔ CachesAsNeeded m c class rc
unfolding caching requires_caching
caching_iff m c free rc = (λ _. inl refl, λ _. refl)
caching_iff m c low rc = (λ _. inr (inl refl), λ _. refl)
caching_iff m c class rc =
    let (to, from) = needed_iff m c class rc refl in
    (
      λ h. let (a, (b, d)) = to h in inr (inr (a, b, d)),
      λ h. elim h [
        | inl e ↦ absurd (cc e)
        | inr rest ↦ elim rest [ inl e ↦ absurd (cc e) | inr (a, b, d) ↦ from (a, (b, d)) ]
      ],
    )
