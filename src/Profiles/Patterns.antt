-- ===== src/Profiles/Patterns.antt =====
-- The regular expressions of profiles/validation.ts and aws/credentials/helpers.ts. Each is a choice
-- between rows of items, and an item is one character of a class, or a run of them.
pub mod Ids
pub mod Places
use Prim.Native.Char.{code}
use Prim.Native.String
use aws_mcp_gateway.Base.{
  ℕ, ◌+◌, ◌-◌, Bool, true, false, ◌&&◌, ◌||◌, not, Option, none, some, String, List, [], ◌∷◌, ◌++◌,
  eqb, leb, is_space, is_empty, if◌then◌else◌,
}

pub data Item : Type 0 where
  one : (ℕ → Bool) → Item
  run : (ℕ → Bool) → ℕ → Option ℕ → Item

-- what follows, with the character before it
abbrev pub Rest : Type 0
Rest = Option ℕ → String → Bool

allows_more : Option ℕ → Bool
allows_more none = true
allows_more (some n) = not (eqb n 0)

fewer : Option ℕ → Option ℕ
fewer none = none
fewer (some n) = some (n - 1)

-- at least `least` and at most `most` characters of a class
unfoldable pub repeat : (ℕ → Bool) → ℕ → Option ℕ → Rest → Rest
unfolding allows_more fewer
repeat is_in least most next prev String.[] = eqb least 0 && next prev String.[]
repeat is_in least most next prev (String.◌∷◌ c s) =
    let more = repeat is_in (least - 1) (fewer most) next (some (code c)) s in
    eqb least 0 && next prev (String.◌∷◌ c s) || allows_more most && is_in (code c) && more

one_of : (ℕ → Bool) → Rest → Rest
one_of is_in next prev String.[] = false
one_of is_in next prev (String.◌∷◌ c s) = is_in (code c) && next (some (code c)) s

unfoldable pub match_items : List Item → Rest → Rest
unfolding repeat one_of
match_items [] next = next
match_items (one is_in ∷ items) next = one_of is_in (match_items items next)
match_items (run is_in least most ∷ items) next = repeat is_in least most (match_items items next)

-- `^…$`
unfoldable pub matches : List Item → String → Bool
unfolding match_items
matches items s = match_items items (λ prev rest. is_empty rest) none s

abbrev pub is_lower : ℕ → Bool
is_lower c = leb b'a' c && leb c b'z'

abbrev pub is_upper : ℕ → Bool
is_upper c = leb b'A' c && leb c b'Z'

abbrev pub is_decimal : ℕ → Bool
is_decimal c = leb b'0' c && leb c b'9'

-- `\w`
unfoldable pub is_word : ℕ → Bool
is_word c = is_lower c || is_upper c || is_decimal c || eqb c b'_'

is_word_if : Option ℕ → Bool
unfolding is_word
is_word_if none = false
is_word_if (some c) = is_word c

next_code : String → Option ℕ
next_code String.[] = none
next_code (String.◌∷◌ c s) = some (code c)

differs : Bool → Bool → Bool
differs true b = not b
differs false b = b

-- `\b`
unfoldable pub is_boundary : Rest
unfolding is_word_if next_code differs
is_boundary prev s = differs (is_word_if prev) (is_word_if (next_code s))

-- A pattern that may be found anywhere, with `\b` in front and behind if it says so.
pub record Pattern : Type 0 where
  pub begins_word : Bool
  pub ends_word : Bool
  pub rows : List (List Item)

unfoldable pub some_row : List (List Item) → Rest → Rest
unfolding match_items
some_row [] next prev s = false
some_row (row ∷ rows) next prev s = match_items row next prev s || some_row rows next prev s

unfoldable pub found_at : Pattern → Rest
unfolding some_row is_boundary
found_at p prev s =
    (not p.begins_word || is_boundary prev s)
    && some_row p.rows (λ prev' rest. not p.ends_word || is_boundary prev' rest) prev s

unfoldable pub found_after : Pattern → Rest
unfolding found_at
found_after p prev String.[] = found_at p prev String.[]
found_after p prev (String.◌∷◌ c s) =
    found_at p prev (String.◌∷◌ c s) || found_after p (some (code c)) s

-- `pattern.test(s)`
unfoldable pub test : Pattern → String → Bool
unfolding found_after
test p s = found_after p none s

-- a text as it is, and in either case of its letters
unfoldable pub literal : String → List Item
literal String.[] = []
literal (String.◌∷◌ c s) = one (λ d. eqb d (code c)) ∷ literal s

abbrev pub lower : ℕ → ℕ
lower c = if is_upper c then c + 32 else c

unfoldable pub any_case : String → List Item
any_case String.[] = []
any_case (String.◌∷◌ c s) = one (λ d. eqb (lower d) (lower (code c))) ∷ any_case s

unfoldable pub is_id_start : ℕ → Bool
is_id_start c = is_lower c || is_decimal c

unfoldable pub is_id_part : ℕ → Bool
is_id_part c = is_lower c || is_decimal c || eqb c b'-' || eqb c b'_'

-- `PROFILE_ID_PATTERN`
unfoldable pub profile_id_pattern : List Item
unfolding is_id_start is_id_part
profile_id_pattern = one is_id_start ∷ run is_id_part 1 (some 62) ∷ []

-- `CONNECTION_STRING_PATTERN`
unfoldable pub connection_string_pattern : Pattern
unfolding any_case
connection_string_pattern = record {
  begins_word = true;
  ends_word = false;
  rows =
      any_case "postgres://"
      ∷ any_case "postgresql://"
      ∷ any_case "mysql://"
      ∷ any_case "mongodb://"
      ∷ any_case "redis://"
      ∷ [];
}

is_dash : ℕ → Bool
is_dash c = eqb c b'_' || eqb c b'-'

-- `\s*=`
assigned : List Item
assigned = run is_space 0 none ∷ one (λ c. eqb c b'=') ∷ []

-- `KEY_VALUE_SECRET_PATTERN`
unfoldable pub key_value_secret_pattern : Pattern
unfolding any_case assigned is_dash
key_value_secret_pattern = record {
  begins_word = true;
  ends_word = false;
  rows =
      (any_case "password" ++ assigned)
      ∷ (any_case "secret" ++ assigned)
      ∷ (any_case "token" ++ assigned)
      ∷ (any_case "api" ++ (run is_dash 0 (some 1) ∷ (any_case "key" ++ assigned)))
      ∷ [];
}

-- `PEM_BLOCK_PATTERN`
unfoldable pub pem_block_pattern : Pattern
unfolding literal
pem_block_pattern = record {
  begins_word = false;
  ends_word = false;
  rows =
      (literal "-----BEGIN "
        ++ (run (λ c. is_upper c || eqb c b' ') 0 none ∷ literal "PRIVATE KEY-----"))
      ∷ [];
}

is_base64 : ℕ → Bool
is_base64 c = is_upper c || is_lower c || is_decimal c || eqb c b'+' || eqb c b'/'

-- `LONG_BASE64_PATTERN`
unfoldable pub long_base64_pattern : List Item
unfolding is_base64
long_base64_pattern = run is_base64 40 none ∷ run (λ c. eqb c b'=') 0 (some 2) ∷ []

-- `AWS_ACCESS_KEY_PATTERN`
unfoldable pub aws_access_key_pattern : Pattern
unfolding literal
aws_access_key_pattern = record {
  begins_word = true;
  ends_word = true;
  rows = (literal "AKIA" ++ (run (λ c. is_decimal c || is_upper c) 16 (some 16) ∷ [])) ∷ [];
}

-- `\b…\b` about a word: `AWS_SECRET_KEY_PATTERN`, `AWS_SESSION_TOKEN_PATTERN`, `DATABASE_URL_PATTERN` and
-- `JWT_SECRET_PATTERN`
unfoldable pub word_pattern : String → Pattern
unfolding any_case
word_pattern word = record { begins_word = true; ends_word = true; rows = any_case word ∷ [] }

is_bearer_part : ℕ → Bool
is_bearer_part c = is_lower (lower c) || is_decimal c || eqb c b'.' || eqb c b'_' || eqb c b'-'

-- `BEARER_TOKEN_PATTERN`
unfoldable pub bearer_token_pattern : Pattern
unfolding any_case is_bearer_part
bearer_token_pattern = record {
  begins_word = true;
  ends_word = false;
  rows = (any_case "bearer" ++ (run is_space 1 none ∷ run is_bearer_part 1 none ∷ [])) ∷ [];
}

is_role_part : ℕ → Bool
unfolding is_word
is_role_part c =
    is_word c
    || eqb c b'+'
    || eqb c b'='
    || eqb c b','
    || eqb c b'.'
    || eqb c b'@'
    || eqb c b'-'
    || eqb c b'/'

-- `ROLE_ARN_PATTERN`
unfoldable pub role_arn_pattern : List Item
unfolding literal is_role_part
role_arn_pattern =
    literal "arn:aws:iam::"
    ++ (run is_decimal 12 (some 12) ∷ (literal ":role/" ++ (run is_role_part 1 none ∷ [])))

-- `isValidRoleArn`
unfoldable pub is_valid_role_arn : String → Bool
unfolding matches role_arn_pattern
is_valid_role_arn role_arn = matches role_arn_pattern role_arn
