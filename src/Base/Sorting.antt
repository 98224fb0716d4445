-- ===== src/Base/Sorting.antt =====
-- `.sort()` on texts, in the order of their code points, as insertions.
use Prim.Native.Char.{code}
use Prim.Native.String.{String}
use mathlib.Core.Path.{◌≡◌, refl}
use mathlib.Core.Bool.{Bool, true, false, ◌&&◌, ◌||◌}
use mathlib.Core.Logic.{inl, inr}
use mathlib.Core.List.{List, [], ◌∷◌}
use native.Mathlib.Omega.{arith}
use aws_mcp_gateway.Base.Tests.{ltb, eqb, Bool-cases, if◌then◌else◌}
use aws_mcp_gateway.Base.Eq.{◌==◌, string_eq, includes}

-- the order of `sort()` on texts, by code points
unfoldable pub is_before : String → String → Bool
is_before String.[] String.[] = false
is_before String.[] (String.◌∷◌ d t) = true
is_before (String.◌∷◌ c s) String.[] = false
is_before (String.◌∷◌ c s) (String.◌∷◌ d t) =
    ltb (code c) (code d) || eqb (code c) (code d) && is_before s t

-- a text put at its place among texts in order
unfoldable pub put_text : String → List String → List String
put_text s [] = s ∷ []
put_text s (t ∷ ts) = let rest = put_text s ts in if is_before s t then s ∷ t ∷ ts else t ∷ rest

unfoldable pub sort_texts : List String → List String
unfolding put_text
sort_texts [] = []
sort_texts (t ∷ ts) = put_text t (sort_texts ts)

-- no text comes before the one in front of it
abbrev pub IsSorted : List String → Type 0
IsSorted [] = Unit
IsSorted (s ∷ []) = Unit
IsSorted (s ∷ t ∷ ts) = (is_before t s ≡ false) × IsSorted (t ∷ ts)

is_before-asym : (s t : String) → is_before s t ≡ true → is_before t s ≡ false
unfolding is_before
is_before-asym String.[] String.[] h = refl
is_before-asym String.[] (String.◌∷◌ d t) h = refl
is_before-asym (String.◌∷◌ c s) String.[] h = cc
is_before-asym (String.◌∷◌ c s) (String.◌∷◌ d t) h = ground (arith, is_before-asym s t)

module _ (s : String) where
  -- a text in front of a list that comes after it
  put_text-after :
      (t : String) (ts : List String)
      → is_before s t ≡ false
      → IsSorted (t ∷ ts)
      → IsSorted (t ∷ put_text s ts)
  unfolding put_text
  put_text-after t [] later h = (later, tt)
  put_text-after t (u ∷ ts) later (e, h) = elim (Bool-cases (is_before s u)) [
    | inl before ↦ rw before (later, (is_before-asym s u before, h))
    | inr after ↦ rw after (e, put_text-after u ts after h)
  ]

  put_text-IsSorted : (ts : List String) → IsSorted ts → IsSorted (put_text s ts)
  unfolding put_text
  put_text-IsSorted [] h = tt
  put_text-IsSorted (t ∷ ts) h = elim (Bool-cases (is_before s t)) [
    | inl before ↦ rw before (is_before-asym s t before, h)
    | inr after ↦ rw after (put_text-after t ts after h)
  ]

  includes-put_text :
      (ts : List String) (a : String) → includes (put_text s ts) a ≡ (a == s || includes ts a)
  unfolding put_text includes
  includes-put_text [] a = refl
  includes-put_text (t ∷ ts) a = ground (arith, includes-put_text ts a)

pub sort_texts-IsSorted : (ts : List String) → IsSorted (sort_texts ts)
unfolding sort_texts
sort_texts-IsSorted [] = tt
sort_texts-IsSorted (t ∷ ts) = put_text-IsSorted t (sort_texts ts) (sort_texts-IsSorted ts)

pub includes-sort_texts :
    (ts : List String) (a : String) → includes (sort_texts ts) a ≡ includes ts a
unfolding sort_texts includes
includes-sort_texts [] a = refl
includes-sort_texts (t ∷ ts) a = rw (includes-put_text, includes-sort_texts ts a)
