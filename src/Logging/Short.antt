-- ===== src/Logging/Short.antt =====
-- A value that is let into the logs is short.
use Prim.Native.Char.{code}
use package.text.Mathlib.TextLemmas.{cons-append, nil-append}
use aws_mcp_gateway.Base.{
  zero, suc, suc, ℕ, ◌+◌, ◌-◌, ◌≤◌, ◌≡◌, refl, ap, inl, inr, String, List, [], ◌∷◌, map, take,
  length, All, units, ltb, leb, leb→le, ◌<>◌, string_eq, Bool-cases, arith,
}
use aws_mcp_gateway.Js.{
  Value, undefined, null, boolean, number, text, array, object, texts, texts_value,
}
use aws_mcp_gateway.Logging.{take_units, cap_string, sanitize_value}

-- a cut text, and its end
units-append : (s t : String) → units (s <> t) ≡ units s + units t
unfolding units
units-append String.[] t = rw nil-append (omega arith)
units-append (String.◌∷◌ c s) t = rw cons-append (omega (arith, units-append s t))

units-take_units : (n : ℕ) (s : String) → units (take_units n s) ≤ n
unfolding units take_units
units-take_units n String.[] = omega arith
units-take_units n (String.◌∷◌ c s) = elim (Bool-cases (ltb (code c) 0x10000)) [
  | inl one ↦ elim (Bool-cases (leb 1 n)) [
    | inl fits ↦ rw (one, fits, one) (omega (arith, units-take_units (n - 1) s, leb→le 1 n fits))
    | inr over ↦ rw (one, over) (omega arith)
  ]
  | inr two ↦ elim (Bool-cases (leb 2 n)) [
    | inl fits ↦ rw (two, fits, two) (omega (arith, units-take_units (n - 2) s, leb→le 2 n fits))
    | inr over ↦ rw (two, over) (omega arith)
  ]
]

units-cap_string : (s : String) → units (cap_string s) ≤ 201
unfolding cap_string units
units-cap_string s = elim (Bool-cases (leb (units s) 200)) [
  | inl short ↦ rw short (omega (arith, leb→le (units s) 200 short))
  | inr long ↦ rw (long, units-append) (omega (arith, units-take_units 200 s))
]

-- A text has at most 201 units and an array at most 50 texts, which have as many; nothing else has parts.
abbrev pub IsShort : Value → Type 0
IsShort undefined = Unit
IsShort null = ⊥
IsShort (boolean b) = Unit
IsShort (number n) = Unit
IsShort (text s) = units s ≤ 201
IsShort (array items) = (length (texts items) ≤ 50) × All (λ s. units s ≤ 201) (texts items)
IsShort (object fields) = ⊥

texts-texts_value : (ss : List String) → texts (texts_value ss) ≡ ss
unfolding texts texts_value
texts-texts_value [] = refl
texts-texts_value (s ∷ ss) = ap (λ xs. s ∷ xs) (texts-texts_value ss)

length-capped : (n : ℕ) (ss : List String) → length (map cap_string (take n ss)) ≤ n
length-capped zero ss = omega arith
length-capped (suc n) [] = omega arith
length-capped (suc n) (s ∷ ss) = omega (arith, length-capped n ss)

all-capped : (ss : List String) → All (λ s. units s ≤ 201) (map cap_string ss)
all-capped [] = tt
all-capped (s ∷ ss) = (units-cap_string s, all-capped ss)

pub sanitize_value-IsShort : (v : Value) → IsShort (sanitize_value v)
unfolding sanitize_value
sanitize_value-IsShort (text s) = units-cap_string s
sanitize_value-IsShort (array items) =
    rw (texts-texts_value (map cap_string (take 50 (texts items))))
      (length-capped 50 (texts items), all-capped (take 50 (texts items)))
sanitize_value-IsShort (number n) = tt
sanitize_value-IsShort (boolean b) = tt
sanitize_value-IsShort undefined = tt
sanitize_value-IsShort null = tt
sanitize_value-IsShort (object fields) = tt
