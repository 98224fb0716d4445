-- ===== src/Policy/Scopes.antt =====
-- auth/oauth/scopes.ts, `hasRequiredScopes`.
use aws_mcp_gateway.Base.{
  ◌≡◌, ◌↔◌, Bool, true, String, List, All, Memᴰ, every, every_iff, includes, includes_iff,
  string_eq,
}

-- `required.every((scope) => tokenScopes.includes(scope))`
unfoldable pub has_required_scopes : List String → List String → Bool
has_required_scopes token_scopes required = every (includes token_scopes) required

pub has_required_scopes_iff :
    (granted required : List String)
    → (has_required_scopes granted required ≡ true) ↔ All (λ s. Memᴰ s granted) required
unfolding has_required_scopes
has_required_scopes_iff granted required = every_iff (includes_iff granted) required
