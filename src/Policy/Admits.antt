-- ===== src/Policy/Admits.antt =====
-- What the gate lets through, said without its checks, and that it is exactly that.
use aws_mcp_gateway.Base.{
  ◌≡◌, ◌≢◌, ◌↔◌, refl, ◌⊎◌, inl, inr, true, false, ◌||◌, Option, none, some, String, List, [], ◌∷◌,
  Memᴰ, All, All-of_mem, includes_iff, is_empty, is_empty_iff, string_eq, Bool-cases, ◌<|>◌,
  <|>_iff,
}
use aws_mcp_gateway.Errors.{Result, ok, thrown, thrown_ne_ok}
use aws_mcp_gateway.Js.{Fields, get, as_texts}
use aws_mcp_gateway.Regions.{
  validate_allowed_regions, resolve_regions, requested_or_all, validate_region_iff,
  resolve_regions_iff,
}
use aws_mcp_gateway.Manifest.{
  ToolManifest, AwsRegionMode, no_region, global, single_region, bounded_multi_region,
  is_aws_backed_manifest,
}
use aws_mcp_gateway.Policy.{
  ToolPolicyContext, known_tool_packs, validate_manifest_structure, has_none, all_allowed,
  validate_aws_metadata, requested_region, region_denial, regions_denial, mode_denial,
  scopes_denial,
}
use aws_mcp_gateway.Policy.CostControl.{reject_if, as_denial}
use aws_mcp_gateway.Policy.Checks.{reject_iff, reject-not_iff}
use aws_mcp_gateway.Policy.Scopes.{has_required_scopes_iff}

-- The manifest is whole.
abbrev pub IsWellFormed : ToolManifest → Type 0
IsWellFormed m =
    (m.name ≢ "") × (Memᴰ m.pack known_tool_packs × ((m.risk_level ≢ "") × (m.readonly ≡ true)))

pub structure_iff : (m : ToolManifest) → (validate_manifest_structure m ≡ none) ↔ IsWellFormed m
unfolding validate_manifest_structure
structure_iff m = <|>_iff _ _ (reject_iff _ _ (is_empty_iff m.name)) (
    <|>_iff _ _ (reject-not_iff _ _ (includes_iff known_tool_packs m.pack)) (
      <|>_iff _ _ (reject_iff _ _ (is_empty_iff m.risk_level))
        (reject-not_iff _ _ ((λ h. h), (λ h. h)))))

-- Every scope that the tool requires is granted, and it requires one.
abbrev pub HasScopes : List String → Option (List String) → Type 0
HasScopes granted none = ⊥
HasScopes granted (some []) = ⊥
HasScopes granted (some (s ∷ ss)) = All (λ x. Memᴰ x granted) (s ∷ ss)

pub scopes_iff :
    (granted : List String) (required : Option (List String))
    → (scopes_denial granted required ≡ none) ↔ HasScopes granted required
unfolding scopes_denial
scopes_iff granted none = (λ h. cc, λ h. absurd h)
scopes_iff granted (some []) = (λ h. cc, λ h. absurd h)
scopes_iff granted (some (s ∷ ss)) = reject-not_iff _ _ (has_required_scopes_iff granted (s ∷ ss))

all_allowed_iff :
    (allowed xs : List String) (message : String)
    → (all_allowed allowed xs message ≡ none) ↔ All (λ x. Memᴰ x allowed) xs
unfolding all_allowed
all_allowed_iff allowed [] message = (λ _. tt, λ _. refl)
all_allowed_iff allowed (x ∷ xs) message =
    <|>_iff _ _ (reject-not_iff _ _ (includes_iff allowed x)) (all_allowed_iff allowed xs message)

named_iff :
    (xs ys : List String) (message : String)
    → (reject_if (has_none xs || has_none ys) message ≡ none) ↔ ((xs ≢ []) × (ys ≢ []))
unfolding has_none
named_iff [] ys _ = (λ h. cc, λ (f, _). absurd (f refl))
named_iff (x ∷ xs) [] _ = (λ h. cc, λ (_, f). absurd (f refl))
named_iff (x ∷ xs) (y ∷ ys) _ = (λ _. (λ e. cc, λ e. cc), λ _. refl)

-- A tool of AWS names services and actions, and each one is allowed.
abbrev pub HasAwsMetadata : ToolManifest → ToolPolicyContext → Type 0
HasAwsMetadata m p =
    ((m.services ≢ []) × (m.actions ≢ []))
    × (All (λ s. Memᴰ s p.allowed_aws_services) m.services
        × All (λ a. Memᴰ a p.allowed_aws_actions) m.actions)

pub metadata_iff :
    (m : ToolManifest) (p : ToolPolicyContext)
    → (validate_aws_metadata m p ≡ none) ↔ ((is_aws_backed_manifest m ≡ false) ⊎ HasAwsMetadata m p)
unfolding validate_aws_metadata
metadata_iff m p = elim (Bool-cases (is_aws_backed_manifest m)) [
  | inl aws ↦ rw aws (
      let (to, from) = <|>_iff _ _ (named_iff m.services m.actions _) (
        <|>_iff _ _ (all_allowed_iff p.allowed_aws_services m.services _)
          (all_allowed_iff p.allowed_aws_actions m.actions _)) in
      (λ h. inr (to h), λ h. elim h [ inl other ↦ cc | inr has ↦ from has ]))
  | inr other ↦ rw other (λ _. inl refl, λ _. refl)
]

-- The regions that a request asks for are allowed ones, where the tool takes any.
abbrev pub RegionAllowed : List String → Option String → Type 0
RegionAllowed allowed none = Unit
RegionAllowed allowed (some region) = (region ≡ "") ⊎ Memᴰ region allowed

abbrev pub RegionsFit : AwsRegionMode → ToolManifest → ToolPolicyContext → Fields → Type 0
RegionsFit no_region m p args = Unit
RegionsFit global m p args = Unit
RegionsFit single_region m p args =
    (p.allowed_regions ≢ []) × RegionAllowed p.allowed_regions (requested_region m args)
RegionsFit bounded_multi_region m p args =
    (p.allowed_regions ≢ [])
    × All (λ r. Memᴰ r p.allowed_regions)
        (requested_or_all (as_texts (get "regions" args)) p.allowed_regions)

some_allowed_iff :
    (allowed : List String) → (as_denial (validate_allowed_regions allowed) ≡ none) ↔ (allowed ≢ [])
unfolding validate_allowed_regions
some_allowed_iff [] = (λ h. cc, λ f. absurd (f refl))
some_allowed_iff (r ∷ rs) = (λ h e. cc, λ f. refl)

-- a check turned into a denial
as_denial_iff : {P : Type 0} (m : Result (Unit {0})) → (m ≡ ok tt) ↔ P → (as_denial m ≡ none) ↔ P
as_denial_iff (ok _) p = (λ h. p.0 refl, λ x. refl)
as_denial_iff (thrown e) p = (λ h. cc, λ x. absurd (thrown_ne_ok (p.1 x)))

as_denial-eq-none : {A : Type 0} (m : Result A) → as_denial m ≡ none → (a : A) × (m ≡ ok a)
as_denial-eq-none (ok a) h = (a, refl)
as_denial-eq-none (thrown e) h = cc

region_iff :
    (allowed : List String) (asked : Option String)
    → (region_denial allowed asked ≡ none) ↔ RegionAllowed allowed asked
unfolding region_denial
region_iff allowed none = (λ _. tt, λ _. refl)
region_iff allowed (some region) = elim (Bool-cases (is_empty region)) [
  | inl empty ↦ rw empty (λ _. inl ((is_empty_iff region).0 empty), λ _. refl)
  | inr full ↦ rw full (
      let (to, from) = as_denial_iff _ (validate_region_iff region allowed) in
      (
        λ h. inr (to h),
        λ h. elim h [ inl e ↦ absurd (cc (full, (is_empty_iff region).1 e)) | inr m ↦ from m ],
      ))
]

resolved_iff :
    (allowed : List String) (r : String) (rs : List String)
    → (as_denial (resolve_regions (some (r ∷ rs)) allowed) ≡ none)
      ↔ ((allowed ≢ []) × All (λ s. Memᴰ s allowed) (r ∷ rs))
resolved_iff allowed r rs = (
  λ h.
      let (found, e) = as_denial-eq-none _ h in
      let (some_allowed, listed, _) = (resolve_regions_iff (some (r ∷ rs)) allowed found).0 e in
      (some_allowed, listed),
  λ (some_allowed, listed).
      rw ((resolve_regions_iff (some (r ∷ rs)) allowed (r ∷ rs)).1 (some_allowed, listed, refl))
        refl,
)

regions_iff :
    (allowed : List String) (asked : Option (List String))
    → ((as_denial (validate_allowed_regions allowed) <|> regions_denial allowed asked) ≡ none)
      ↔ ((allowed ≢ []) × All (λ r. Memᴰ r allowed) (requested_or_all asked allowed))
unfolding validate_allowed_regions regions_denial
regions_iff [] asked = (λ h. cc, λ (f, _). absurd (f refl))
regions_iff (a ∷ as') none = (λ _. (λ e. cc, All-of_mem (a ∷ as') (λ _ m. m)), λ _. refl)
regions_iff (a ∷ as') (some []) = (λ _. (λ e. cc, All-of_mem (a ∷ as') (λ _ m. m)), λ _. refl)
regions_iff (a ∷ as') (some (r ∷ rs)) = resolved_iff (a ∷ as') r rs

pub mode_iff :
    (mode : AwsRegionMode) (m : ToolManifest) (p : ToolPolicyContext) (args : Fields)
    → (mode_denial mode m p args ≡ none) ↔ RegionsFit mode m p args
unfolding mode_denial
mode_iff no_region m p args = (λ _. tt, λ _. refl)
mode_iff global m p args = (λ _. tt, λ _. refl)
mode_iff single_region m p args =
    <|>_iff _ _ (some_allowed_iff p.allowed_regions)
      (region_iff p.allowed_regions (requested_region m args))
mode_iff bounded_multi_region m p args =
    regions_iff p.allowed_regions (as_texts (get "regions" args))
