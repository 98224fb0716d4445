-- ===== src/Profiles/Fields/Checked.antt =====
-- What holds of the text of a field that is accepted.
use aws_mcp_gateway.Base.{
  ℕ, ◌≤◌, ◌≡◌, ◌≢◌, refl, sym, ◌∙◌, subst, Bool, true, false, ◌&&◌, none, String, List, [], ◌∷◌,
  All, units, ltb, trim, is_empty, arith, ◌<>◌,
}
use aws_mcp_gateway.Errors.{Result, ok, ◌>>◌, >>-ok, ok-injective, thrown_ne_ok}
use aws_mcp_gateway.Js.{Value, undefined, null, boolean, number, text, array, object}
use aws_mcp_gateway.Profiles.Patterns.{
  Pattern, found_at, test, matches, connection_string_pattern, key_value_secret_pattern,
  pem_block_pattern, long_base64_pattern, aws_access_key_pattern, word_pattern,
  bearer_token_pattern,
}
use aws_mcp_gateway.Profiles.Patterns.Places.{last_code, found_after-nowhere}
use aws_mcp_gateway.Profiles.Fields.{
  throw_if, assert_no_secret_like_content, not_secret, check_text, validate_string_field,
}
use aws_mcp_gateway.Profiles.Fields.Ids.{throw_if-ok}

-- What must be nowhere in a field.
abbrev pub secret_patterns : List Pattern
secret_patterns =
    connection_string_pattern
    ∷ key_value_secret_pattern
    ∷ pem_block_pattern
    ∷ aws_access_key_pattern
    ∷ word_pattern "AWS_SECRET_ACCESS_KEY"
    ∷ word_pattern "AWS_SESSION_TOKEN"
    ∷ word_pattern "DATABASE_URL"
    ∷ word_pattern "JWT_SECRET"
    ∷ bearer_token_pattern
    ∷ []

-- Nothing of that is found at the place between the two parts.
abbrev pub IsClean : String → String → Type 0
IsClean u w = All (λ p. found_at p (last_code none u) w ≡ false) secret_patterns

-- a check that did not throw, and what came after it
checked :
    (b : Bool) (message : String) (next : Result (Unit {0}))
    → (throw_if b message >> next) ≡ ok tt
    → (b ≡ false) × (next ≡ ok tt)
checked true message next h = absurd (thrown_ne_ok h)
checked false message next h = (refl, h)

assert-IsClean :
    (u w path : String) → assert_no_secret_like_content (u <> w) path ≡ ok tt → IsClean u w
unfolding assert_no_secret_like_content test
assert-IsClean u w path h =
    let s = u <> w in
    let (h1, r1) = checked (test connection_string_pattern s) _ _ h in
    let (h2, r2) = checked (test key_value_secret_pattern s) _ _ r1 in
    let (h3, r3) = checked (test pem_block_pattern s) _ _ r2 in
    let (_, r4) = checked (matches long_base64_pattern (trim s)) _ _ r3 in
    let (h5, r5) = checked (test aws_access_key_pattern s) _ _ r4 in
    let (h6, r6) = checked (test (word_pattern "AWS_SECRET_ACCESS_KEY") s) _ _ r5 in
    let (h7, r7) = checked (test (word_pattern "AWS_SESSION_TOKEN") s) _ _ r6 in
    let (h8, r8) = checked (test (word_pattern "DATABASE_URL") s) _ _ r7 in
    let (h9, r9) = checked (test (word_pattern "JWT_SECRET") s) _ _ r8 in
    let h10 = throw_if-ok (test bearer_token_pattern s) _ r9 in
    (
      found_after-nowhere _ none u w h1,
      (
        found_after-nowhere _ none u w h2,
        (
          found_after-nowhere _ none u w h3,
          (
            found_after-nowhere _ none u w h5,
            (
              found_after-nowhere _ none u w h6,
              (
                found_after-nowhere _ none u w h7,
                (
                  found_after-nowhere _ none u w h8,
                  (found_after-nowhere _ none u w h9, (found_after-nowhere _ none u w h10, tt)),
                ),
              ),
            ),
          ),
        ),
      ),
    )

is_empty-false : (s : String) → s ≢ "" → is_empty s ≡ false
is_empty-false String.[] filled = absurd (filled refl)
is_empty-false (String.◌∷◌ c s) filled = refl

ltb-false : (a b : ℕ) → ltb a b ≡ false → b ≤ a
ltb-false a b h = ground arith

filled-checked :
    (s path : String)
    → is_empty s ≡ false
    → not_secret s path ≡ ok tt
    → assert_no_secret_like_content s path ≡ ok tt
unfolding not_secret
filled-checked s path there h = rw there at h

check_text-IsClean :
    (trimmed path : String) (max_length : ℕ) (required : Bool) (s u w : String)
    → check_text trimmed path max_length required ≡ ok s
    → s ≢ ""
    → s ≡ u <> w
    → (units s ≤ max_length) × IsClean u w
unfolding check_text not_secret
check_text-IsClean trimmed path max_length required s u w h filled split =
    let (_, h1) = >>-ok (throw_if (required && is_empty trimmed) _) _ s h in
    let (short, h2) = >>-ok (throw_if (ltb max_length (units trimmed)) _) _ s h1 in
    let (clean, h3) = >>-ok (not_secret trimmed path) _ s h2 in
    let e : trimmed ≡ s = ok-injective h3 in
    let there : is_empty trimmed ≡ false = rw e (is_empty-false s filled) in
    (
      subst (λ t. units t ≤ max_length) e (ltb-false _ _ (throw_if-ok _ _ short)),
      assert-IsClean u w path (
          subst (λ t. assert_no_secret_like_content t path ≡ ok tt) (e ∙ split)
            (filled-checked trimmed path there clean)),
    )

-- A field's text that is accepted and not empty has at most the allowed number of UTF-16 units, and at no
-- place of it is there a connection string, an assigned secret, the head of a private key, an access key, one of
-- the four words that name secrets, or a bearer token.
pub validate_string_field-IsClean :
    (value : Value) (path : String) (max_length : ℕ) (required : Bool) (s u w : String)
    → validate_string_field value path max_length required ≡ ok s
    → s ≢ ""
    → s ≡ u <> w
    → (units s ≤ max_length) × IsClean u w
unfolding validate_string_field
validate_string_field-IsClean (text raw) path m required s u w h filled split =
    check_text-IsClean (trim raw) path m required s u w h filled split
validate_string_field-IsClean undefined path m false s u w h filled split =
    absurd (filled (sym (ok-injective h)))
validate_string_field-IsClean undefined path m true s u w h filled split = absurd (thrown_ne_ok h)
validate_string_field-IsClean null path m false s u w h filled split =
    absurd (filled (sym (ok-injective h)))
validate_string_field-IsClean null path m true s u w h filled split = absurd (thrown_ne_ok h)
validate_string_field-IsClean (boolean b) path m required s u w h filled split =
    absurd (thrown_ne_ok h)
validate_string_field-IsClean (number b) path m required s u w h filled split =
    absurd (thrown_ne_ok h)
validate_string_field-IsClean (array b) path m required s u w h filled split =
    absurd (thrown_ne_ok h)
validate_string_field-IsClean (object b) path m required s u w h filled split =
    absurd (thrown_ne_ok h)
