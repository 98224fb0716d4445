-- ===== src/Base/Decimal.antt =====
-- `String(n)` of a natural number, in decimal.
use Prim.Native.Nat.{ℕ, zero, suc, ◌+◌, ◌-◌, ◌*◌, ◌/◌, ◌%◌, ◌<◌}
use Prim.Native.Char.{code}
use Prim.Native.String.{String, [], ◌∷◌}
use mathlib.Core.Path.{◌≡◌, refl}
use native.Mathlib.Omega.{arith}
use text.Mathlib.TextLemmas.{nil-append, cons-append}
use aws_mcp_gateway.Base.Tests.{ltb, ltb→lt, if◌then◌else◌, Bool-cases}
use aws_mcp_gateway.Base.Strings.{◌<>◌}
use mathlib.Core.Logic.{inl, inr}

digit : ℕ → String
digit zero = "0"
digit (suc zero) = "1"
digit (suc (suc zero)) = "2"
digit (suc (suc (suc zero))) = "3"
digit (suc (suc (suc (suc zero)))) = "4"
digit (suc (suc (suc (suc (suc zero))))) = "5"
digit (suc (suc (suc (suc (suc (suc zero)))))) = "6"
digit (suc (suc (suc (suc (suc (suc (suc zero))))))) = "7"
digit (suc (suc (suc (suc (suc (suc (suc (suc zero)))))))) = "8"
digit n = "9"

show_digits : ℕ → ℕ → String
unfolding digit
show_digits zero n = ""
show_digits (suc fuel) n =
    let more = show_digits fuel (n / 10) <> digit (n % 10) in if ltb n 10 then digit n else more

unfoldable pub show : ℕ → String
unfolding show_digits
show n = show_digits (suc n) n

-- the number that a row of digits denotes, after `acc`
unfoldable pub read_from : ℕ → String → ℕ
read_from acc [] = acc
read_from acc (c ∷ s) = read_from (acc * 10 + (code c - b'0')) s

read_from-append : (acc : ℕ) (s t : String) → read_from acc (s <> t) ≡ read_from (read_from acc s) t
unfolding read_from
read_from-append acc [] t = rw nil-append
read_from-append acc (c ∷ s) t = rw cons-append (read_from-append (acc * 10 + (code c - b'0')) s t)

read_from-digit : (acc d : ℕ) → d < 10 → read_from acc (digit d) ≡ acc * 10 + d
unfolding read_from digit
read_from-digit acc zero h = refl
read_from-digit acc (suc zero) h = refl
read_from-digit acc (suc (suc zero)) h = refl
read_from-digit acc (suc (suc (suc zero))) h = refl
read_from-digit acc (suc (suc (suc (suc zero)))) h = refl
read_from-digit acc (suc (suc (suc (suc (suc zero))))) h = refl
read_from-digit acc (suc (suc (suc (suc (suc (suc zero)))))) h = refl
read_from-digit acc (suc (suc (suc (suc (suc (suc (suc zero))))))) h = refl
read_from-digit acc (suc (suc (suc (suc (suc (suc (suc (suc zero)))))))) h = refl
read_from-digit acc (suc (suc (suc (suc (suc (suc (suc (suc (suc n))))))))) h = omega arith

read_from-show_digits : (fuel n : ℕ) → n < fuel → read_from 0 (show_digits fuel n) ≡ n
unfolding show_digits
read_from-show_digits zero n h = elim h [ ]
read_from-show_digits (suc fuel) n h = elim (Bool-cases (ltb n 10)) [
  | inl small ↦ rw small (omega (arith, read_from-digit 0 n (ltb→lt n 10 small)))
  | inr large ↦
      rw (large, read_from-append)
        (rw (read_from-digit _ (n % 10) (omega arith))
          (rw (read_from-show_digits fuel (n / 10) (ground arith)) (omega arith)))
]

-- The digits that are printed denote the number, so the fuel is enough.
pub read_from-show : (n : ℕ) → read_from 0 (show n) ≡ n
unfolding show
read_from-show n = read_from-show_digits (suc n) n (omega arith)
