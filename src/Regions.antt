-- ===== src/Regions.antt =====
-- security/regions.ts: the regions that are allowed, and those that a request asks for.
use aws_mcp_gateway.Base.{
  ◌≡◌, ◌↔◌, ◌≢◌, refl, Option, none, some, String, List, [], ◌∷◌, Memᴰ, All, All-of_mem, arith,
  includes, includes→mem, mem→includes, string_eq, comma_list, is_empty, ◌<>◌, if◌then◌else◌,
  Bool-cases, inl, inr,
}
use aws_mcp_gateway.Errors.{Result, ok, thrown, ◌>>◌, invalid, thrown_ne_ok, >>-eq-ok_iff}

-- `parseRegions`
unfoldable pub parse_regions : Option String → List String
parse_regions none = []
parse_regions (some raw) = if is_empty raw then [] else comma_list raw

not_allowed : String → Result (Unit {0})
not_allowed region =
    thrown (invalid ("Region \"" <> region <> "\" is not in the allowed regions list."))

-- `validateAllowedRegions`
unfoldable pub validate_allowed_regions : List String → Result (Unit {0})
validate_allowed_regions [] = thrown (invalid "The allowed regions list is empty.")
validate_allowed_regions (r ∷ rs) = ok tt

-- `validateRegion`
unfoldable pub validate_region : String → List String → Result (Unit {0})
unfolding not_allowed validate_allowed_regions
validate_region region allowed = do
  validate_allowed_regions allowed
  if includes allowed region then ok tt else not_allowed region

check_each : List String → List String → Result (Unit {0})
unfolding not_allowed
check_each allowed [] = ok tt
check_each allowed (region ∷ rest) =
    let later = check_each allowed rest in
    if includes allowed region then later else not_allowed region

-- `resolveRegions`
unfoldable pub resolve_regions : Option (List String) → List String → Result (List String)
unfolding check_each validate_allowed_regions
resolve_regions none allowed = do validate_allowed_regions allowed; ok allowed
resolve_regions (some []) allowed = do validate_allowed_regions allowed; ok allowed
resolve_regions (some (r ∷ rs)) allowed = do
  validate_allowed_regions allowed
  check_each allowed (r ∷ rs)
  ok (r ∷ rs)

-- What a request for regions stands for: all that are allowed, if it names none.
abbrev pub requested_or_all : Option (List String) → List String → List String
requested_or_all none allowed = allowed
requested_or_all (some []) allowed = allowed
requested_or_all (some (r ∷ rs)) allowed = r ∷ rs

check_each_iff :
    (allowed regions : List String)
    → (check_each allowed regions ≡ ok tt) ↔ All (λ r. Memᴰ r allowed) regions
unfolding check_each
check_each_iff allowed [] = (λ _. tt, λ _. refl)
check_each_iff allowed (r ∷ rs) = elim (Bool-cases (includes allowed r)) [
  | inl listed ↦
      let (to, from) = check_each_iff allowed rs in
      rw (listed, check_each) (λ h. (includes→mem allowed r listed, to h), λ (m, ms). from ms)
  | inr other ↦
      rw (other, check_each)
        (λ h. absurd (thrown_ne_ok h), λ (m, ms). absurd (cc (other, mem→includes m)))
]

-- A region is accepted exactly when it is one of the allowed ones.
pub validate_region_iff :
    (region : String) (allowed : List String)
    → (validate_region region allowed ≡ ok tt) ↔ Memᴰ region allowed
unfolding validate_region
validate_region_iff region [] = (λ h. absurd (thrown_ne_ok h), λ m. elim m [ ])
validate_region_iff region (a ∷ as') = elim (Bool-cases (includes (a ∷ as') region)) [
  | inl listed ↦ rw listed (λ h. includes→mem _ region listed, λ m. refl)
  | inr other ↦ rw other (λ h. absurd (thrown_ne_ok h), λ m. absurd (cc (other, mem→includes m)))
]

no_regions :
    {A : Type 0} {P Q : Type 0} (m : String) (x : A)
    → (thrown (invalid m) ≡ ok x) ↔ ((◌≢◌ {A = List String} [] []) × P × Q)
no_regions m x = (λ h. absurd (thrown_ne_ok h), λ (ne, _, _). absurd (ne refl))

unnamed_iff :
    (a : String) (rs resolved : List String)
    → (ok (a ∷ rs) ≡ ok resolved)
      ↔ ((a ∷ rs ≢ []) × All (λ r. Memᴰ r (a ∷ rs)) (a ∷ rs) × (resolved ≡ a ∷ rs))
unnamed_iff a rs resolved =
    (λ h. (λ e. cc, All-of_mem (a ∷ rs) (λ _ m. m), ground arith), λ (_, _, e). rw e refl)

-- The regions of a request are resolved to those that it names, or to all that are allowed if it
-- names none, and only if some are allowed and each one named is.
pub resolve_regions_iff :
    (requested : Option (List String)) (allowed resolved : List String)
    → (resolve_regions requested allowed ≡ ok resolved) ↔ (
        (allowed ≢ [])
        × All (λ r. Memᴰ r allowed) (requested_or_all requested allowed)
        × (resolved ≡ requested_or_all requested allowed))
unfolding resolve_regions
resolve_regions_iff none [] resolved = no_regions _ resolved
resolve_regions_iff none (a ∷ as') resolved = unnamed_iff a as' resolved
resolve_regions_iff (some []) [] resolved = no_regions _ resolved
resolve_regions_iff (some []) (a ∷ as') resolved = unnamed_iff a as' resolved
resolve_regions_iff (some (r ∷ rs)) [] resolved = no_regions _ resolved
resolve_regions_iff (some (r ∷ rs)) (a ∷ as') resolved =
    let (to, from) = check_each_iff (a ∷ as') (r ∷ rs) in
    let (split, join) = >>-eq-ok_iff (check_each (a ∷ as') (r ∷ rs)) (r ∷ rs) resolved in
    (λ h. let (c, e) = split h in (λ n. cc, to c, e), λ (_, m, e). join (from m, e))
