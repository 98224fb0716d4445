-- ===== src/Js/Numbers.antt =====
-- JavaScript numbers: fractions with a positive denominator, and the values that are not finite.
use aws_mcp_gateway.Base.{ℕ, suc, ◌*◌, ◌%◌, Bool, true, false, ◌&&◌, ltb, eqb, not, if◌then◌else◌}

-- `ratio n d` is n / (d + 1), `minus n d` is -(n + 1) / (d + 1)
pub data Num : Type 0 where
  ratio minus : ℕ → ℕ → Num
  infinity neg_infinity nan : Num

-- a whole number
abbrev pub whole : ℕ → Num
whole n = ratio n 0

-- `a < b`, false wherever `NaN` takes part
unfoldable pub num_lt : Num → Num → Bool
num_lt nan b = false
num_lt (ratio a d) (ratio b e) = ltb (a * suc e) (b * suc d)
num_lt (ratio a d) infinity = true
num_lt (ratio a d) b = false
num_lt (minus a d) (ratio b e) = true
num_lt (minus a d) (minus b e) = ltb (suc b * suc d) (suc a * suc e)
num_lt (minus a d) infinity = true
num_lt (minus a d) b = false
num_lt infinity b = false
num_lt neg_infinity neg_infinity = false
num_lt neg_infinity nan = false
num_lt neg_infinity b = true

-- `a === b`
unfoldable pub num_eq : Num → Num → Bool
num_eq (ratio a d) (ratio b e) = eqb (a * suc e) (b * suc d)
num_eq (minus a d) (minus b e) = eqb (suc a * suc e) (suc b * suc d)
num_eq infinity infinity = true
num_eq neg_infinity neg_infinity = true
num_eq a b = false

-- `a <= b`, false at `NaN` as well
unfoldable pub num_le : Num → Num → Bool
unfolding num_lt num_eq
num_le a nan = false
num_le nan b = false
num_le a b = not (num_lt b a)

-- `Math.min(a, b)`
unfoldable pub num_min : Num → Num → Num
num_min nan b = nan
num_min a nan = nan
num_min a b = if num_lt a b then a else b

-- `Number.isInteger(n) && n > 0`
unfoldable pub is_positive_integer : Num → Bool
is_positive_integer (ratio n d) = eqb (n % suc d) 0 && ltb 0 n
is_positive_integer n = false
