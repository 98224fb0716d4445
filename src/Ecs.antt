-- ===== src/Ecs.antt =====
-- aws/ecs/validation.ts: the checks of what is asked of ECS.
pub mod Parse
pub mod Definitions
pub mod Requests
pub mod Tasks
pub mod Pages
pub mod Reports
pub mod Reads
pub mod Recent
pub mod Shared
pub mod Images
use aws_mcp_gateway.Base.{
  ℕ, zero, suc, ◌+◌, ◌-◌, ◌/◌, Bool, true, false, ◌||◌, not, Option, none, some, or_else, String,
  List, [], ◌∷◌, ◌++◌, length, take, min, ltb, trim, is_empty, includes, string_eq, if◌then◌else◌,
}
use aws_mcp_gateway.Errors.{Result, ok, thrown, invalid, ◌>>◌}
use aws_mcp_gateway.Js.Numbers.{Num, ratio, minus, infinity, neg_infinity, nan, is_positive_integer}

-- `validateClusterName` and `validateServiceName`, which differ in the message
unfoldable pub validate_name : String → String → Result (Unit {0})
validate_name name message =
    if is_empty name || is_empty (trim name) then thrown (invalid message) else ok tt

-- `validateDesiredStatus`
unfoldable pub validate_desired_status : Option String → Result (Option String)
validate_desired_status none = ok none
validate_desired_status (some status) =
    if not (includes ("RUNNING" ∷ "PENDING" ∷ "STOPPED" ∷ []) status)
    then thrown (invalid "desiredStatus must be one of: RUNNING, PENDING, STOPPED.")
    else ok (some status)

-- the value of a number that is an integer above 0
unfoldable pub integer_of : Num → ℕ
integer_of (ratio n d) = n / suc d
integer_of n = 0

bounded : Num → ℕ → String → String → Result ℕ
bounded n most low high =
    if not (is_positive_integer n)
    then thrown (invalid low)
    else if ltb most (integer_of n)
    then thrown (invalid high)
    else ok (integer_of n)

-- `validateTaskLimit`
unfoldable pub validate_task_limit : Option Num → Result ℕ
unfolding bounded
validate_task_limit limit =
    bounded (or_else limit (ratio 100 0)) 100 "limit must be at least 1."
      "limit must not exceed 100."

-- `validateLookbackMinutes`
unfoldable pub validate_lookback_minutes : Option Num → Result ℕ
unfolding bounded
validate_lookback_minutes minutes =
    bounded (or_else minutes (ratio 60 0)) 1440 "lookbackMinutes must be at least 1."
      "lookbackMinutes must not exceed 1440."
