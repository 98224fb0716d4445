-- ===== src/Policy/Checks.antt =====
-- What the checks of the gate let pass.
use aws_mcp_gateway.Base.{◌≡◌, ◌↔◌, refl, Bool, true, false, not, none, String}
use aws_mcp_gateway.Policy.CostControl.{reject_if}

-- a check that rejects where a test fails
pub reject-not_iff {ℓ} :
    {P : Type ℓ} (b : Bool) (message : String)
    → (b ≡ true) ↔ P
    → (reject_if (not b) message ≡ none) ↔ P
reject-not_iff true message p = (λ h. p.0 refl, λ x. refl)
reject-not_iff false message p = (λ h. cc, λ x. absurd (cc (p.1 x)))

-- a check that rejects where a test holds
pub reject_iff {ℓ} :
    {P : Type ℓ} (b : Bool) (message : String)
    → (b ≡ true) ↔ P
    → (reject_if b message ≡ none) ↔ (P → ⊥)
reject_iff true message p = (λ h. cc, λ f. absurd (f (p.0 refl)))
reject_iff false message p = (λ h x. cc (p.1 x), λ f. refl)

pub reject-false_iff : (b : Bool) (message : String) → (reject_if b message ≡ none) ↔ (b ≡ false)
reject-false_iff true message = (λ h. cc, λ h. cc)
reject-false_iff false message = (λ _. refl, λ _. refl)
