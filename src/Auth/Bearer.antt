-- ===== src/Auth/Bearer.antt =====
-- auth/bearer.ts: whom a local deployment lets in.
use aws_mcp_gateway.Base.{
  ◌≡◌, ◌↔◌, refl, inl, inr, Bool-cases, Option, none, some, String, List, ◌==◌, string_eq,
  string_eq_iff, arith, ap, sym, ◌∙◌,
}
use mathlib.Core.Option.{some-injective}
use aws_mcp_gateway.Http.{Request}
use aws_mcp_gateway.Auth.{
  bearer_token, authenticate_local_bearer_request, local_bearer_granted_scopes, authenticated,
  with_token, same_token, unauthorized_result,
}

with_token_iff :
    (found expected : Option String) (scopes : List String)
    → (with_token found expected ≡ authenticated scopes) ↔ (
        (token : String) × ((found ≡ some token)
          × ((expected ≡ some token) × (scopes ≡ local_bearer_granted_scopes))))
unfolding with_token same_token unauthorized_result
with_token_iff none expected scopes = (λ h. cc, λ (t, (e, _)). absurd (cc e))
with_token_iff (some token) none scopes = (λ h. cc, λ (t, (_, (e, _))). absurd (cc e))
with_token_iff (some token) (some expected) scopes = elim (Bool-cases (token == expected)) [
  | inl same ↦ rw same (
    λ h. (token, (refl, (ap some (sym ((string_eq_iff _ _).0 same)), ground arith))),
    λ (_, (_, (_, e))). rw e refl,
  )
  | inr other ↦ rw other (
    λ h. cc,
    λ (t, (e, (f, _))).
        absurd (cc (other, (string_eq_iff token expected).1 (some-injective _ _ (e ∙ sym f)))),
  )
]

-- A local deployment lets a request in exactly when its header is `Bearer ` followed by the configured
-- token, and then grants the one scope of such deployments.
pub authenticate_local_bearer_request_iff :
    (request : Request) (expected : Option String) (scopes : List String)
    → (authenticate_local_bearer_request request expected ≡ authenticated scopes) ↔ (
        (token : String) × ((bearer_token (request.header "Authorization") ≡ some token)
          × ((expected ≡ some token) × (scopes ≡ local_bearer_granted_scopes))))
unfolding authenticate_local_bearer_request
authenticate_local_bearer_request_iff request expected scopes = with_token_iff _ expected scopes
