-- ===== src/Dates/Range.antt =====
-- Which date ranges a cost query may cover.
use mathlib.Core.Path.{subst₂, sym}
use aws_mcp_gateway.Base.{ℕ, ◌+◌, ◌*◌, ◌-◌, ◌≤◌, ◌<◌, ◌≡◌, ◌↔◌, refl, false, String, arith}
use aws_mcp_gateway.Errors.{Result, ok, thrown, thrown_ne_ok, ok-injective, ◌>>=◌}
use aws_mcp_gateway.Js.Numbers.{Num, whole, num_lt}
use aws_mcp_gateway.Dates.{parse_iso_date, validate_cost_dates, check_range}

-- The first day is before the second, the second has begun, and there are not too many between them.
abbrev pub InRange : ℕ → ℕ → ℕ → Num → Type 0
InRange now_ms d e max_days =
    (d < e)
    × (e * 86400000 ≤ now_ms + 719528 * 86400000)
    × (num_lt max_days (whole (e - d)) ≡ false)

-- Both texts are dates of the calendar, and the days that they name are in range.
abbrev pub RangeFits : ℕ → String → String → Num → Type 0
RangeFits now_ms start_date end_date max_days =
    (d : ℕ) × (e : ℕ) × (parse_iso_date start_date ≡ ok d)
    × (parse_iso_date end_date ≡ ok e)
    × InRange now_ms d e max_days

check_range_iff :
    (now_ms d e : ℕ) (max_days : Num)
    → (check_range now_ms d e max_days ≡ ok tt) ↔ InRange now_ms d e max_days
unfolding check_range
check_range_iff now_ms d e max_days = grind arith

both_iff :
    (a b : Result ℕ) (k : ℕ → ℕ → Result (Unit {0})) (P : ℕ → ℕ → Type 0)
    → ((d e : ℕ) → (k d e ≡ ok tt) ↔ P d e)
    → ((a >>= λ d. b >>= λ e. k d e) ≡ ok tt)
      ↔ ((d : ℕ) × (e : ℕ) × (a ≡ ok d) × (b ≡ ok e) × P d e)
both_iff (ok d) (ok e) k P agree = (
  λ h. (d, e, refl, refl, (agree d e).0 h),
  λ (d', e', p, q, x). (agree d e).1 (subst₂ P (sym (ok-injective p)) (sym (ok-injective q)) x),
)
both_iff (ok d) (thrown x) k P agree =
    (λ h. absurd (thrown_ne_ok h), λ (_, _, _, q, _). absurd (thrown_ne_ok q))
both_iff (thrown x) b k P agree =
    (λ h. absurd (thrown_ne_ok h), λ (_, _, p, _, _). absurd (thrown_ne_ok p))

-- A range is accepted exactly when both dates are in the calendar, the first is before the second,
-- the second has begun, and the days between them do not exceed the limit.
pub validate_cost_dates_iff :
    (now_ms : ℕ) (start_date end_date : String) (max_days : Num)
    → (validate_cost_dates now_ms start_date end_date max_days ≡ ok tt)
      ↔ RangeFits now_ms start_date end_date max_days
unfolding validate_cost_dates
validate_cost_dates_iff now_ms s t max_days =
    both_iff (parse_iso_date s) (parse_iso_date t) (λ d e. check_range now_ms d e max_days)
      (λ d e. InRange now_ms d e max_days) (λ d e. check_range_iff now_ms d e max_days)
