-- ===== src/Telemetry/Keys.antt =====
-- The keys of the collector's map give back what they are made of.
use Prim.Native.Char.{Char, code}
use text.Mathlib.TextLemmas.{nil-append, cons-append}
use aws_mcp_gateway.Base.{
  false, and-eq-true_iff, ap, ◌∙◌, ◌≡◌, refl, Bool, true, ◌&&◌, not, Option, none, some, String,
  ◌<>◌, is_empty, if◌then◌else◌, eqb, arith, inl, inr, Bool-cases,
}
use aws_mcp_gateway.Telemetry.{aws_request_key, parse_aws_request_key, before}

-- No character of a text is a bar.
abbrev pub has_no_bar : String → Bool
has_no_bar String.[] = true
has_no_bar (String.◌∷◌ c s) = not (eqb (code c) b'|') && has_no_bar s

parse-plain : (s : String) → has_no_bar s ≡ true → parse_aws_request_key s ≡ (s, none)
unfolding parse_aws_request_key before
parse-plain String.[] h = refl
parse-plain (String.◌∷◌ c s) h = ground (arith, parse-plain s)

not-true : (b : Bool) → not b ≡ true → b ≡ false
not-true true h = cc
not-true false h = refl

parse-step :
    {p : String × Option String} (c : Char) (s : String)
    → eqb (code c) b'|' ≡ false
    → parse_aws_request_key s ≡ p
    → parse_aws_request_key (String.◌∷◌ c s) ≡ before c p
unfolding parse_aws_request_key
parse-step c s other e = rw (other, e) refl

abbrev bar : Char
bar = "|"

bar-append : (t : String) → ("|" <> t) ≡ String.◌∷◌ bar t
bar-append t = cons-append bar "" t ∙ ap (λ r. String.◌∷◌ bar r) (nil-append t)

parse-barred :
    (s t : String) → has_no_bar s ≡ true → parse_aws_request_key (s <> "|" <> t) ≡ (s, some t)
unfolding parse_aws_request_key before
parse-barred String.[] t h = ap parse_aws_request_key (nil-append _ ∙ bar-append t)
parse-barred (String.◌∷◌ c s) t h =
    let (plain, rest) = (and-eq-true_iff _ _).0 h in
    ap parse_aws_request_key (cons-append c s _)
    ∙ parse-step c _ (not-true _ plain) (parse-barred s t rest)

-- a region, where it is not the empty text
abbrev pub given : Option String → Option String
given none = none
given (some region) = if is_empty region then none else some region

-- The key of a capability whose identifier has no bar gives back the capability, and the region where
-- that is not empty, whatever characters the region has.
pub parse_aws_request_key-aws_request_key :
    (id : String) (region : Option String)
    → has_no_bar id ≡ true
    → parse_aws_request_key (aws_request_key id region) ≡ (id, given region)
unfolding aws_request_key
parse_aws_request_key-aws_request_key id none h = parse-plain id h
parse_aws_request_key-aws_request_key id (some region) h = elim (Bool-cases (is_empty region)) [
  | inl empty ↦ rw empty (parse-plain id h)
  | inr full ↦ rw full (parse-barred id region h)
]
