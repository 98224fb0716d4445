-- ===== src/Logging/Words.antt =====
-- A key that has a forbidden word in it is forbidden.
use Prim.Native.Char.{code}
use mathlib.Core.Bool.{or-true}
use mathlib.Core.List.Memᴰ
use package.text.Mathlib.TextLemmas.{cons-append, nil-append}
use aws_mcp_gateway.Base.{
  ℕ, ◌≡◌, refl, sym, ap, subst, inl, inr, true, Option, some, none, String, List, [], ◌∷◌, map,
  Memᴰ, eqb_iff, ◌<>◌, string_eq, Bool-cases,
}
use aws_mcp_gateway.Js.{text}
use aws_mcp_gateway.Profiles.Patterns.{Rest, lower, any_case, match_items, some_row, found_at, test}
use aws_mcp_gateway.Profiles.Patterns.Places.{last_code, found_after-nowhere}
use aws_mcp_gateway.Logging.{forbidden_words, forbidden_key, is_forbidden_key}

-- The text is the word, in either case of its letters.
abbrev pub ReadsAs : String → String → Type 0
ReadsAs String.[] String.[] = Unit
ReadsAs (String.◌∷◌ c s) (String.◌∷◌ d t) = (lower (code c) ≡ lower (code d)) × ReadsAs s t
ReadsAs s t = ⊥

any_case-ReadsAs :
    (x w v : String) (next : Rest) (prev : Option ℕ)
    → ReadsAs x w
    → match_items (any_case w) next prev (x <> v) ≡ next (last_code prev x) v
unfolding match_items any_case
any_case-ReadsAs String.[] String.[] v next prev h = ap (next prev) (nil-append v)
any_case-ReadsAs (String.◌∷◌ c x) (String.◌∷◌ d w) v next prev (e, h) =
    subst
      (λ t.
        match_items (any_case (String.◌∷◌ d w)) next prev t ≡ next (last_code (some (code c)) x) v)
      (sym (cons-append c x v))
      (rw ((eqb_iff _ _).1 e) (any_case-ReadsAs x w v next (some (code c)) h))
any_case-ReadsAs String.[] (String.◌∷◌ d w) v next prev h = absurd h
any_case-ReadsAs (String.◌∷◌ c x) String.[] v next prev h = absurd h

some_row-ReadsAs :
    (words : List String) (x w v : String) (next : Rest) (prev : Option ℕ)
    → Memᴰ w words
    → ReadsAs x w
    → next (last_code prev x) v ≡ true
    → some_row (map any_case words) next prev (x <> v) ≡ true
unfolding some_row
some_row-ReadsAs [] x w v next prev m r h = absurd (Memᴰ.not-nil m)
some_row-ReadsAs (word ∷ words) x w v next prev m r h = elim (Memᴰ.cases_cons m) [
  | inl same ↦ rw (← same, any_case-ReadsAs x w v next prev r, h)
  | inr m ↦ rw (some_row-ReadsAs words x w v next prev m r h) (or-true _)
]

-- a key with a forbidden word in it is forbidden
pub is_forbidden_key-ReadsAs :
    (u x v word : String)
    → Memᴰ word forbidden_words
    → ReadsAs x word
    → is_forbidden_key (u <> x <> v) ≡ true
unfolding is_forbidden_key test forbidden_key found_at
is_forbidden_key-ReadsAs u x v word m r = elim (Bool-cases (is_forbidden_key (u <> x <> v))) [
  | inl forbidden ↦ forbidden
  | inr allowed ↦
      let nowhere = found_after-nowhere forbidden_key none u (x <> v) allowed in
      let somewhere =
        some_row-ReadsAs forbidden_words x word v (λ prev rest. true) (last_code none u) m r refl in
      absurd (cc (nowhere, somewhere))
]
