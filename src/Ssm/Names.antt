-- ===== src/Ssm/Names.antt =====
-- Which names of parameters a request may ask for.
use aws_mcp_gateway.Base.{
  eqb, ◌∙◌, ℕ, suc, ◌≤◌, ◌<◌, ◌≡◌, ◌↔◌, refl, ap, Bool, true, false, not, String, List, [], ◌∷◌,
  map, length, All, ltb, trim, units, is_empty, is_some, strip_prefix, arith,
}
use aws_mcp_gateway.Errors.{Result, ok, ok-injective, thrown_ne_ok, >>=-ok, ◌>>◌}
use aws_mcp_gateway.Profiles.Patterns.{
  test, matches, connection_string_pattern, key_value_secret_pattern, long_base64_pattern,
}
use aws_mcp_gateway.Profiles.Fields.{throw_if}
use aws_mcp_gateway.Ssm.{
  is_relative_name, validate_required_parameter_name, validate_names_from,
  validate_required_parameter_names,
}

-- A relative name of at most 256 units that does not look like a secret.
abbrev pub IsName : String → Type 0
IsName name =
    (is_empty name ≡ false)
    × (is_some (strip_prefix "/" name) ≡ false)
    × (ltb 256 (units name) ≡ false)
    × (not (is_relative_name name) ≡ false)
    × (test connection_string_pattern name ≡ false)
    × (test key_value_secret_pattern name ≡ false)
    × (matches long_base64_pattern name ≡ false)

-- a check in front passes, and what follows is what it is
check_iff :
    {A : Type 0} (bad : Bool) (message : String) (next : Result A) (a : A)
    → (throw_if bad message >> next ≡ ok a) ↔ ((bad ≡ false) × (next ≡ ok a))
check_iff true message next a = (λ h. absurd (thrown_ne_ok h), λ h. absurd (ground arith))
check_iff false message next a = (λ h. (refl, h), λ h. h.1)

each_iff :
    (name : String) (index : ℕ) (found : String)
    → (validate_required_parameter_name name index ≡ ok found)
      ↔ (IsName (trim name) × (trim name ≡ found))
unfolding validate_required_parameter_name
each_iff name index found = (
  λ h.
      let (a, h1) = (check_iff _ _ _ found).0 h in
      let (b, h2) = (check_iff _ _ _ found).0 h1 in
      let (c, h3) = (check_iff _ _ _ found).0 h2 in
      let (d, h4) = (check_iff _ _ _ found).0 h3 in
      let (e, h5) = (check_iff _ _ _ found).0 h4 in
      let (f, h6) = (check_iff _ _ _ found).0 h5 in
      let (g, h7) = (check_iff _ _ _ found).0 h6 in ((a, b, c, d, e, f, g), ok-injective h7),
  λ ((a, b, c, d, e, f, g), same). (check_iff _ _ _ found).1 (
    a,
    (check_iff _ _ _ found).1 (
      b,
      (check_iff _ _ _ found).1 (
        c,
        (check_iff _ _ _ found).1 (
          d,
          (check_iff _ _ _ found).1
              (e, (check_iff _ _ _ found).1 (f, (check_iff _ _ _ found).1 (g, ap ok same))),
        ),
      ),
    ),
  ),
)

names_from_iff :
    (index : ℕ) (names found : List String)
    → (validate_names_from index names ≡ ok found)
      ↔ (All IsName (map trim names) × (map trim names ≡ found))
unfolding validate_names_from
names_from_iff index [] found = (λ h. (tt, ok-injective h), λ h. ap ok h.1)
names_from_iff index (name ∷ names) found = (
  λ h.
      let (first, (h1, h2)) = >>=-ok (validate_required_parameter_name name index) _ found h in
      let (rest, (h3, h4)) = >>=-ok (validate_names_from (suc index) names) _ found h2 in
      let (is_name, same) = (each_iff name index first).0 h1 in
      let (are_names, same') = (names_from_iff (suc index) names rest).0 h3 in
      (
        (is_name, are_names),
        ap (λ y. y ∷ map trim names) same ∙ ap (λ ys. first ∷ ys) same' ∙ ok-injective h4,
      ),
  λ ((is_name, are_names), same).
      let first = (each_iff name index (trim name)).1 (is_name, refl) in
      let rest = (names_from_iff (suc index) names (map trim names)).1 (are_names, refl) in
      rw first (rw rest (ap ok same)),
)

-- The names that a request asks for are accepted exactly when there are at least one and at most 50 of them and each,
-- trimmed, is a relative name of at most 256 units that looks like no connection string, no assignment of a secret and
-- no encoded value; what is handed on is then the trimmed names in their order.
pub validate_required_parameter_names_iff :
    (names found : List String)
    → (validate_required_parameter_names names ≡ ok found) ↔ (
        (0 < length names)
        × (length names ≤ 50)
        × All IsName (map trim names)
        × (map trim names ≡ found))
unfolding validate_required_parameter_names
validate_required_parameter_names_iff names found = (
  λ h.
      let (some_name, h1) = (check_iff (eqb (length names) 0) _ _ found).0 h in
      let (few, h2) = (check_iff (ltb 50 (length names)) _ _ found).0 h1 in
      let (are_names, same) = (names_from_iff 0 names found).0 h2 in
      (ground arith, ground arith, are_names, same),
  λ (some_name, few, are_names, same). (check_iff (eqb (length names) 0) _ _ found).1 (
    ground arith,
    (check_iff (ltb 50 (length names)) _ _ found).1
        (ground arith, (names_from_iff 0 names found).1 (are_names, same)),
  ),
)
