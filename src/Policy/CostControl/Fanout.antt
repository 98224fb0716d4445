-- ===== src/Policy/CostControl/Fanout.antt =====
-- How many regions a tool may fan out to.
use native.Mathlib.Nat.{mul-le-mul_right, le_of_mul-le-mul_right}
use aws_mcp_gateway.Base.{
  inr, inl, ℕ, suc, ◌*◌, ◌≤◌, ◌≡◌, ◌↔◌, refl, true, false, Option, none, some, String, List, ltb,
  length, Bool-cases, arith,
}
use aws_mcp_gateway.Js.Numbers.{
  Num, ratio, minus, infinity, neg_infinity, nan, whole, num_lt, num_min,
}
use aws_mcp_gateway.Policy.CostControl.{effective_max}

-- A number of regions is not above a declared limit, nor above the number of the regions that are allowed.
-- A limit that is not a number limits nothing; no manifest that is accepted has one.
abbrev pub IsWithin : Option Num → ℕ → ℕ → Type 0
IsWithin none allowed n = n ≤ allowed
IsWithin (some nan) allowed n = Unit
IsWithin (some limit) allowed n = (num_lt limit (whole n) ≡ false) × (n ≤ allowed)

whole-le_iff : (k n : ℕ) → (num_lt (whole k) (whole n) ≡ false) ↔ (n ≤ k)
unfolding num_lt
whole-le_iff k n = ground arith

-- with a limit below the number allowed
below_iff :
    (a d k n : ℕ)
    → ltb (a * 1) (k * suc d) ≡ true
    → (ltb (a * 1) (n * suc d) ≡ false) ↔ ((ltb (a * 1) (n * suc d) ≡ false) × (n ≤ k))
below_iff a d k n h = (
  λ e.
      let at_most : n * suc d ≤ k * suc d = ground arith in
      (e, le_of_mul-le-mul_right at_most (omega arith)),
  λ (e, _). e,
)

-- with a limit that is not below it
above_iff :
    (a d k n : ℕ)
    → ltb (a * 1) (k * suc d) ≡ false
    → (num_lt (whole k) (whole n) ≡ false) ↔ ((ltb (a * 1) (n * suc d) ≡ false) × (n ≤ k))
above_iff a d k n h =
    let (to, from) = whole-le_iff k n in
    (λ e. let at_most = mul-le-mul_right (suc d) (to e) in (ground arith, to e), λ (_, m). from m)

pub effective_max_iff :
    (limit : Option Num) (allowed : List String) (n : ℕ)
    → (num_lt (effective_max limit allowed) (whole n) ≡ false) ↔ IsWithin limit (length allowed) n
unfolding effective_max num_min num_lt
effective_max_iff none allowed n = ground arith
effective_max_iff (some nan) allowed n = (λ _. tt, λ _. refl)
effective_max_iff (some infinity) allowed n =
    let (to, from) = whole-le_iff (length allowed) n in (λ e. (refl, to e), λ (_, m). from m)
effective_max_iff (some neg_infinity) allowed n = (λ e. absurd (cc e), λ (e, _). e)
effective_max_iff (some (minus a d)) allowed n = (λ e. absurd (cc e), λ (e, _). e)
effective_max_iff (some (ratio a d)) allowed n =
    elim (Bool-cases (ltb (a * 1) (length allowed * suc d))) [
      | inl h ↦ rw h (below_iff a d (length allowed) n h)
      | inr h ↦ rw h (above_iff a d (length allowed) n h)
    ]
