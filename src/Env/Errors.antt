-- ===== src/Env/Errors.antt =====
-- What an empty list of errors says of the steps that may have pushed onto it.
use mathlib.Core.Option.{some-injective}
use aws_mcp_gateway.Base.{
  arith, ◌≡◌, ◌⊎◌, inl, inr, ◌≢◌, refl, Bool, true, false, not, Option, none, some, is_some, String,
  List, [], ◌∷◌, ◌++◌,
}
use aws_mcp_gateway.Js.{Fields}
use aws_mcp_gateway.Env.{
  Checked, unless_rejected, push_if, read_required_string, resolve_token_validation_mode,
}
use aws_mcp_gateway.Env.Urls.{accept_or}

pub pushed-ne-nil : (es : List String) (e : String) → es ++ e ∷ [] ≢ []
pushed-ne-nil [] e h = cc
pushed-ne-nil (x ∷ es) e h = cc

pub push_if-nil :
    (b : Bool) (e : String) (es : List String) → push_if b e es ≡ [] → (es ≡ []) × (b ≡ false)
push_if-nil true e es h = absurd (pushed-ne-nil es e h)
push_if-nil false e es h = (h, refl)

-- a value that is there
abbrev pub IsThere : Option String → Type 0
IsThere o = (v : String) × (o ≡ some v)

pub IsThere-of_some : (o : Option String) → not (is_some o) ≡ false → IsThere o
IsThere-of_some none h = cc
IsThere-of_some (some v) h = (v, refl)

pub required-nil :
    (b : Fields) (key : String) (es : List String)
    → (read_required_string b key es).1 ≡ []
    → (es ≡ []) × IsThere (read_required_string b key es).0
unfolding read_required_string
required-nil b key es h = let (e, there) = push_if-nil _ key es h in (e, IsThere-of_some _ there)

pub accept_or-nil :
    (key : String) (p : Option String) (value : String) (es : List String)
    → (accept_or key p value es).1 ≡ []
    → (es ≡ []) × ((p ≡ none) × ((accept_or key p value es).0 ≡ some value))
accept_or-nil key none value es h = (h, (refl, refl))
accept_or-nil key (some problem) value es h = absurd (pushed-ne-nil es _ h)

pub mode-nil :
    (o : Option String) (es : List String) → (resolve_token_validation_mode o es).1 ≡ [] → es ≡ []
unfolding resolve_token_validation_mode
mode-nil none es h = h
mode-nil (some value) es h =
    ground (
      arith,
      pushed-ne-nil es "OAUTH_TOKEN_VALIDATION_MODE (must be jwks, introspection, or hybrid)",
    )

pub unless_rejected-some :
    {A : Type 0} (es : List String) (config c : A)
    → (unless_rejected es config).config ≡ some c
    → (es ≡ []) × (config ≡ c)
unfolding unless_rejected
unless_rejected-some [] config c h = (refl, some-injective _ _ h)
unless_rejected-some (e ∷ es) config c h = cc

-- a result is a value, or there are errors
abbrev pub IsSettled : {A : Type 0} → Checked A → Type 0
IsSettled {A} c =
    ((c.valid ≡ true) × ((config : A) × (c.config ≡ some config)))
    ⊎ ((c.valid ≡ false) × (c.errors ≢ []))

pub unless_rejected-IsSettled :
    {A : Type 0} (es : List String) (config : A) → IsSettled (unless_rejected es config)
unfolding unless_rejected
unless_rejected-IsSettled [] config = inl (refl, (_, refl))
unless_rejected-IsSettled (e ∷ es) config = inr (refl, λ e'. cc e')
