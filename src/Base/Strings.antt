-- ===== src/Base/Strings.antt =====
-- The string methods that the program calls, on texts of Unicode scalar values.
use Prim.Native.Nat.{ℕ, ◌+◌}
use Prim.Native.Char.{Char, code}
use Prim.Native.String
use Prim.Native.String.{String, [], ◌∷◌}
use mathlib.Core.Bool.{Bool, true, false, ◌&&◌, ◌||◌}
use mathlib.Core.List
use mathlib.Core.Path.{◌≡◌, refl, sym, ◌∙◌}
use mathlib.Core.Logic.{◌↔◌, inl, inr}
use text.Mathlib.TextEquality.{Char-path}
use native.Mathlib.Omega.{arith}
use text.Mathlib.TextLemmas.{
  cons≢nil, nil≢cons, nil-append, cons-append, head-eq_of_cons-eq, tail-eq_of_cons-eq,
}
use mathlib.Core.List.{List}
use mathlib.Core.Option.{some-injective, Option, none, some}
use aws_mcp_gateway.Base.Tests.{ltb, leb, eqb, Bool-cases, if◌then◌else◌}

-- `s + t`
infixr 66 ◌<>◌
abbrev pub ◌<>◌ : String → String → String
s <> t = String.◌++◌ s t

-- what `trim` strips and `\s` matches
unfoldable pub is_space : ℕ → Bool
is_space c =
    leb 9 c && leb c 13
    || eqb c 32
    || eqb c 160
    || eqb c 0x1680
    || leb 0x2000 c && leb c 0x200a
    || eqb c 0x2028
    || eqb c 0x2029
    || eqb c 0x202f
    || eqb c 0x205f
    || eqb c 0x3000
    || eqb c 0xfeff

abbrev pub is_empty : String → Bool
is_empty [] = true
is_empty (c ∷ s) = false

pub is_empty_iff : (s : String) → (is_empty s ≡ true) ↔ (s ≡ "")
is_empty_iff [] = (λ h. refl, λ h. refl)
is_empty_iff (c ∷ s) = (λ h. cc, λ h. absurd (cons≢nil h))

-- `s.length` counts UTF-16 units
unfoldable pub units : String → ℕ
units [] = 0
units (c ∷ s) = (if ltb (code c) 0x10000 then 1 else 2) + units s

unfoldable pub trim_start : String → String
trim_start [] = []
trim_start (c ∷ s) = let rest = trim_start s in if is_space (code c) then rest else c ∷ s

-- the code points of a text
abbrev pub codes : String → List ℕ
codes [] = List.[]
codes (c ∷ s) = List.◌∷◌ (code c) (codes s)

trim_cons : Char → String → String
trim_cons c [] = if is_space (code c) then [] else c ∷ []
trim_cons c (d ∷ s) = c ∷ d ∷ s

unfoldable pub trim_end : String → String
unfolding trim_cons
trim_end [] = []
trim_end (c ∷ s) = trim_cons c (trim_end s)

-- `s.trim()`
unfoldable pub trim : String → String
unfolding trim_start trim_end is_space
trim s = trim_end (trim_start s)

grow : Char → List String → List String
grow c List.[] = List.◌∷◌ (c ∷ []) List.[]
grow c (List.◌∷◌ part parts) = List.◌∷◌ (c ∷ part) parts

-- `s.split(sep)` at a separator of one character, or of one class of characters
unfoldable pub split : (ℕ → Bool) → String → List String
unfolding grow
split sep [] = List.◌∷◌ [] List.[]
split sep (c ∷ s) =
    let parts = split sep s in if sep (code c) then List.◌∷◌ [] parts else grow c parts

-- `.filter(Boolean)` on strings
unfoldable pub non_empty : List String → List String
non_empty List.[] = List.[]
non_empty (List.◌∷◌ [] l) = non_empty l
non_empty (List.◌∷◌ (c ∷ s) l) = List.◌∷◌ (c ∷ s) (non_empty l)

abbrev pub is_comma : ℕ → Bool
is_comma c = eqb c b','

-- `s.split(",").map((e) => e.trim()).filter(Boolean)`
unfoldable pub comma_list : String → List String
unfolding split non_empty trim
comma_list s = non_empty (List.map trim (split is_comma s))

-- `s.startsWith(p)` with `s.slice(p.length)` where it does
unfoldable pub strip_prefix : String → String → Option String
strip_prefix [] s = some s
strip_prefix (c ∷ p) [] = none
strip_prefix (c ∷ p) (d ∷ s) =
    let rest = strip_prefix p s in if eqb (code c) (code d) then rest else none

characters_iff : (c d : Char) → (eqb (code c) (code d) ≡ true) ↔ (c ≡ d)
characters_iff c d = (λ h. Char-path c d (ground arith), λ e. rw e (ground arith))

-- A prefix is stripped exactly from a text that starts with it.
pub strip_prefix_iff : (p s r : String) → (strip_prefix p s ≡ some r) ↔ (s ≡ p <> r)
unfolding strip_prefix
strip_prefix_iff [] s r =
    (λ h. rw (nil-append r) (some-injective _ _ h), λ h. rw (h, nil-append r) refl)
strip_prefix_iff (c ∷ p) [] r = (λ h. absurd (cc h), λ h. absurd (nil≢cons (h ∙ cons-append c p r)))
strip_prefix_iff (c ∷ p) (d ∷ s) r =
    let (to, from) = strip_prefix_iff p s r in
    elim (Bool-cases (eqb (code c) (code d))) [
      | inl e ↦
          let same = (characters_iff c d).0 e in
          rw e (
            λ h. rw (cons-append c p r, to h, same) refl,
            λ h. from (tail-eq_of_cons-eq (h ∙ cons-append c p r)),
          )
      | inr e ↦ rw e (
        λ h. absurd (cc h),
        λ h.
            absurd
              (cc (e, (characters_iff c d).1 (sym (head-eq_of_cons-eq (h ∙ cons-append c p r))))),
      )
    ]

-- `xs.join(sep)`
unfoldable pub join : String → List String → String
join sep List.[] = []
join sep (List.◌∷◌ s List.[]) = s
join sep (List.◌∷◌ s (List.◌∷◌ t l)) = s <> sep <> join sep (List.◌∷◌ t l)
