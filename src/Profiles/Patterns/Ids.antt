-- ===== src/Profiles/Patterns/Ids.antt =====
-- Which texts the pattern of profile ids matches.
use Prim.Native.Char.{code}
use aws_mcp_gateway.Base.{
  and_iff, ℕ, ◌-◌, ◌≤◌, ◌≡◌, ◌↔◌, Bool, true, Option, some, String, codes, length, All, is_empty,
  arith,
}
use aws_mcp_gateway.Profiles.Patterns.{
  allows_more, fewer, repeat, one_of, match_items, matches, is_id_start, is_id_part,
  profile_id_pattern,
}

-- Each character is of a class.
abbrev pub AllIn : (ℕ → Bool) → String → Type 0
AllIn is_in s = All (λ c. is_in c ≡ true) (codes s)

repeat-at_end_iff :
    (is_in : ℕ → Bool) (least most : ℕ) (prev : Option ℕ) (s : String)
    → (repeat is_in least (some most) (λ prev' rest. is_empty rest) prev s ≡ true)
      ↔ (((least ≤ length (codes s)) × (length (codes s) ≤ most)) × AllIn is_in s)
unfolding repeat allows_more fewer
repeat-at_end_iff is_in least most prev String.[] = ground arith
repeat-at_end_iff is_in least most prev (String.◌∷◌ c s) =
    ground (arith, repeat-at_end_iff is_in (least - 1) (most - 1) (some (code c)) s)

-- Two to 63 small letters, digits, dashes and underscores, of which the first is a letter or a digit.
abbrev pub IsProfileId : String → Type 0
IsProfileId String.[] = ⊥
IsProfileId (String.◌∷◌ c s) =
    (is_id_start (code c) ≡ true)
    × (((1 ≤ length (codes s)) × (length (codes s) ≤ 62)) × AllIn is_id_part s)

pub profile_id_pattern_iff : (s : String) → (matches profile_id_pattern s ≡ true) ↔ IsProfileId s
unfolding matches profile_id_pattern match_items one_of
profile_id_pattern_iff String.[] = (λ h. cc, λ h. absurd h)
profile_id_pattern_iff (String.◌∷◌ c s) =
    let (to, from) = repeat-at_end_iff is_id_part 1 62 (some (code c)) s in
    and_iff (is_id_start (code c)) _ (λ h. h, λ h. h) (to, from)
