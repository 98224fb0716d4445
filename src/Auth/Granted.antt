-- ===== src/Auth/Granted.antt =====
-- When authentication grants scopes, and what every answer of it is backed by.
use aws_mcp_gateway.Base.{
  not, if◌then◌else◌, Bool, ℕ, ◌≡◌, ◌↔◌, refl, ◌⊎◌, inl, inr, true, false, Bool-cases, String, List,
  [], ◌∷◌, All, Memᴰ, includes, includes_iff, string_eq, arith,
}
use mathlib.Core.List.Memᴰ
use aws_mcp_gateway.Js.{Fields, get}
use aws_mcp_gateway.Policy.Scopes.{has_required_scopes, has_required_scopes_iff}
use aws_mcp_gateway.Auth.{Response, AuthResult, authenticated, refused, ValidatedOAuthConfig}
use aws_mcp_gateway.Auth.Claims.{
  extract_scopes, audience_candidates, some_included, token_audiences, has_expected_audience,
  is_expired, is_early, has_valid_token_times,
}
use aws_mcp_gateway.Auth.OAuth.{
  authenticate_claims, oauth_unauthorized_response, oauth_forbidden_response,
}

-- The claims name an audience that the gateway answers to.
abbrev pub HasAudience : Fields → String → Type 0
HasAudience claims expected =
    (a : String) × (Memᴰ a (audience_candidates expected) × Memᴰ a (token_audiences claims))

some_included_iff :
    (cs vs : List String) → (some_included cs vs ≡ true) ↔ ((a : String) × (Memᴰ a cs × Memᴰ a vs))
unfolding some_included
some_included_iff [] vs = (λ h. cc, λ (a, (m, _)). absurd (Memᴰ.not-nil m))
some_included_iff (c ∷ cs) vs = elim (Bool-cases (includes vs c)) [
  | inl here ↦ rw here (λ _. (c, (Memᴰ.head refl, (includes_iff vs c).0 here)), λ _. refl)
  | inr away ↦ rw away (
    λ h. let (a, (m, n)) = (some_included_iff cs vs).0 h in (a, (Memᴰ.tail m, n)),
    λ (a, (m, n)). elim m [
      | Memᴰ.head e ↦ absurd (cc (away, (includes_iff vs c).1 (rw e at n)))
      | Memᴰ.tail m' ↦ (some_included_iff cs vs).1 (a, (m', n))
    ],
  )
]

-- Neither expired nor early.
abbrev pub IsTimely : Fields → ℕ → Type 0
IsTimely claims now =
    (is_expired (get "exp" claims) now ≡ false) × (is_early (get "nbf" claims) now ≡ false)

times_iff :
    (claims : Fields) (now : ℕ) → (has_valid_token_times claims now ≡ true) ↔ IsTimely claims now
unfolding has_valid_token_times
times_iff claims now = ground arith

-- The claims give these scopes, every required one among them, and hold here and now.
abbrev pub Grants : ValidatedOAuthConfig → ℕ → Fields → List String → Type 0
Grants config now claims scopes =
    HasAudience claims config.oauth_audience
    × (IsTimely claims now
        × (All (λ s. Memᴰ s (extract_scopes claims)) config.oauth_required_scopes
            × (scopes ≡ extract_scopes claims)))

-- The claims hold, but lack a scope that is required.
abbrev pub LacksScope : ValidatedOAuthConfig → ℕ → Fields → Type 0
LacksScope config now claims =
    HasAudience claims config.oauth_audience
    × (IsTimely claims now
        × (has_required_scopes (extract_scopes claims) config.oauth_required_scopes ≡ false))

-- An answer that claims of a kind back: scopes that such claims grant, a refusal of a caller who is not
-- known, or one of a caller whose claims lack a scope.
abbrev pub IsBacked : ValidatedOAuthConfig → ℕ → (Fields → Type 0) → AuthResult → Type 0
IsBacked config now V (authenticated scopes) =
    (claims : Fields) × (V claims × Grants config now claims scopes)
IsBacked config now V (refused r) =
    (r ≡ oauth_unauthorized_response config)
    ⊎ ((claims : Fields) × (V claims
          × (LacksScope config now claims × (r ≡ oauth_forbidden_response config))))

pub claims-IsBacked :
    (config : ValidatedOAuthConfig) (now : ℕ) (V : Fields → Type 0) (claims : Fields)
    → V claims
    → IsBacked config now V (authenticate_claims config now claims)
unfolding authenticate_claims has_expected_audience
claims-IsBacked config now V claims v =
    elim (Bool-cases (has_expected_audience claims config.oauth_audience)) [
      | inr away ↦ rw away (inl refl)
      | inl here ↦
          let audience = (some_included_iff _ _).0 here in
          elim (Bool-cases (has_valid_token_times claims now)) [
            | inr late ↦ rw (here, late) (inl refl)
            | inl timely ↦
                elim (Bool-cases
                  (has_required_scopes (extract_scopes claims) config.oauth_required_scopes)) [
                    | inr lacks ↦
                        rw (here, timely, lacks)
                          (inr (
                            claims,
                            (v, ((audience, ((times_iff claims now).0 timely, lacks)), refl)),
                          ))
                    | inl has ↦
                        rw (here, timely, has)
                          (
                            claims,
                            (
                              v,
                              (
                                audience,
                                (
                                  (times_iff claims now).0 timely,
                                  ((has_required_scopes_iff _ _).0 has, refl),
                                ),
                              ),
                            ),
                          )
                  ]
          ]
    ]

-- three checks before a grant, and what each one lets pass
checks_iff :
    {P Q R : Type 0} (a b c : Bool) (r s t : Response) (granted scopes : List String)
    → (a ≡ true) ↔ P
    → (b ≡ true) ↔ Q
    → (c ≡ true) ↔ R
    → ((if not a
          then refused r
          else if not b
          then refused s
          else if not c
          then refused t
          else authenticated granted)
        ≡ authenticated scopes)
      ↔ (P × (Q × (R × (scopes ≡ granted))))
checks_iff true true true r s t granted scopes p q u =
    (λ h. (p.0 refl, (q.0 refl, (u.0 refl, ground arith))), λ (_, (_, (_, e))). rw e refl)
checks_iff false b c r s t granted scopes p q u = (λ h. cc, λ (x, _). absurd (cc (p.1 x)))
checks_iff true false c r s t granted scopes p q u = (λ h. cc, λ (_, (x, _)). absurd (cc (q.1 x)))
checks_iff true true false r s t granted scopes p q u =
    (λ h. cc, λ (_, (_, (x, _))). absurd (cc (u.1 x)))

-- Claims authenticate with some scopes exactly when they name an audience of the gateway, hold at the
-- time, give every required scope, and these are all the scopes that they give.
pub authenticate_claims_iff :
    (config : ValidatedOAuthConfig) (now : ℕ) (claims : Fields) (scopes : List String)
    → (authenticate_claims config now claims ≡ authenticated scopes)
      ↔ Grants config now claims scopes
unfolding authenticate_claims has_expected_audience
authenticate_claims_iff config now claims scopes =
    checks_iff _ _ _ _ _ _ _ scopes (some_included_iff _ _) (times_iff claims now)
      (has_required_scopes_iff _ _)
