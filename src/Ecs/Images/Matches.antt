-- ===== src/Ecs/Images/Matches.antt =====
-- When a comparison says that the tasks run an image.
use aws_mcp_gateway.Base.{
  ◌≡◌, Bool, true, false, ◌||◌, Option, none, some, is_some, String, List, [], ◌∷◌, every, ◌==◌,
  string_eq,
}

-- some container tells its digest
abbrev pub any_given : List (Option String) → Bool
any_given [] = false
any_given (d ∷ ds) = is_some d || any_given ds

-- the container tells no digest, or this one
abbrev pub IsDigest : String → Option String → Type 0
IsDigest digest none = Unit
IsDigest digest (some d) = d ≡ digest

abbrev any_text : List String → Bool
any_text [] = false
any_text (d ∷ ds) = true

module _ (digest : String) where
  -- every text is the digest
  abbrev are : List String → Bool
  are ds = every (λ e. e == digest) ds

  fits : Option String → Bool
  fits none = true
  fits (some d) = d == digest
