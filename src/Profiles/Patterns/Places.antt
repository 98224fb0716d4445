-- ===== src/Profiles/Patterns/Places.antt =====
-- A pattern that is found nowhere in a text is found at no place of it.
use Prim.Native.Char.{code}
use package.text.Mathlib.TextLemmas.{cons-append, nil-append}
use aws_mcp_gateway.Base.{ℕ, ◌≡◌, refl, subst, Bool, true, false, ◌||◌, Option, some, String, ◌<>◌}
use aws_mcp_gateway.Profiles.Patterns.{Pattern, found_at, found_after}

-- the character that stands before what follows a text
abbrev pub last_code : Option ℕ → String → Option ℕ
last_code prev String.[] = prev
last_code prev (String.◌∷◌ c s) = last_code (some (code c)) s

or-false-right : (a b : Bool) → (a || b) ≡ false → b ≡ false
or-false-right true b h = absurd (cc h)
or-false-right false b h = h

or-false-left : (a b : Bool) → (a || b) ≡ false → a ≡ false
or-false-left true b h = absurd (cc h)
or-false-left false b h = refl

found_after-here :
    (p : Pattern) (prev : Option ℕ) (w : String)
    → found_after p prev w ≡ false
    → found_at p prev w ≡ false
unfolding found_after
found_after-here p prev String.[] h = h
found_after-here p prev (String.◌∷◌ c w) h = or-false-left _ _ h

-- where nothing is found in a text, nothing is found at any place of it
pub found_after-nowhere :
    (p : Pattern) (prev : Option ℕ) (u w : String)
    → found_after p prev (u <> w) ≡ false
    → found_at p (last_code prev u) w ≡ false
unfolding found_after
found_after-nowhere p prev String.[] w h =
    found_after-here p prev w (subst (λ t. found_after p prev t ≡ false) (nil-append w) h)
found_after-nowhere p prev (String.◌∷◌ c u) w h =
    found_after-nowhere p (some (code c)) u w
      (or-false-right _ _ (subst (λ t. found_after p prev t ≡ false) (cons-append c u w) h))
