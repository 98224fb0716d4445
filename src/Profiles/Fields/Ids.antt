-- ===== src/Profiles/Fields/Ids.antt =====
-- Which profile ids are accepted, and what a check that did not throw says.
use aws_mcp_gateway.Base.{
  subst, ◌≡◌, ◌↔◌, refl, sym, Bool, true, false, String, string_eq, trim, inl, inr, Bool-cases,
}
use aws_mcp_gateway.Errors.{ok, ok-injective, thrown_ne_ok}
use aws_mcp_gateway.Profiles.Patterns.{matches, profile_id_pattern}
use aws_mcp_gateway.Profiles.Patterns.Ids.{IsProfileId, profile_id_pattern_iff}
use aws_mcp_gateway.Profiles.Fields.{throw_if, validate_profile_id}

-- A profile id is accepted exactly when, trimmed, it is two to 63 small letters, digits, dashes and
-- underscores, of which the first is a letter or a digit; the result is the trimmed id.
pub validate_profile_id_iff :
    (profile_id id : String)
    → (validate_profile_id profile_id ≡ ok id) ↔ ((id ≡ trim profile_id) × IsProfileId id)
unfolding validate_profile_id
validate_profile_id_iff profile_id id =
    let (to, from) = profile_id_pattern_iff (trim profile_id) in
    elim (Bool-cases (matches profile_id_pattern (trim profile_id))) [
      | inl good ↦ rw good (
        λ h. let e = ok-injective h in (sym e, subst IsProfileId e (to good)),
        λ (e, _). rw e refl,
      )
      | inr bad ↦ rw bad (
        λ h. absurd (thrown_ne_ok h),
        λ (e, is_id). absurd (cc (bad, from (subst IsProfileId e is_id))),
      )
    ]

pub throw_if-ok : (b : Bool) (message : String) → throw_if b message ≡ ok tt → b ≡ false
throw_if-ok true message h = absurd (thrown_ne_ok h)
throw_if-ok false message h = refl
