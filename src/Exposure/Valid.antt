-- ===== src/Exposure/Valid.antt =====
-- Which bindings give an exposure.
use aws_mcp_gateway.Base.{
  ◌≡◌, ◌≢◌, ◌↔◌, refl, inl, inr, true, Bool-cases, Option, none, some, is_some, String, List, [],
  ◌∷◌, ◌++◌, All, Memᴰ, includes, includes→mem, mem→includes, string_eq, comma_list,
}
use aws_mcp_gateway.Js.{Fields}
use aws_mcp_gateway.Manifest.{ResolvedToolExposure}
use aws_mcp_gateway.Policy.{known_tool_packs}
use aws_mcp_gateway.Exposure.{
  public_tool_names, supported_risk_levels, pack_loop, pack_entries, parse_pack_list, name_errors,
  parse_tool_name_list, parse_max_risk_level, read_optional_string, unless_errors,
  validate_tool_exposure_config,
}

-- A binding that enables packs names one, and only known ones.
abbrev pub NamesPacks : Option String → Type 0
NamesPacks none = Unit
NamesPacks (some raw) = (comma_list raw ≢ []) × All (λ p. Memᴰ p known_tool_packs) (comma_list raw)

-- A binding that lists tools lists only public ones.
abbrev pub NamesTools : Option String → Type 0
NamesTools none = Unit
NamesTools (some raw) = All (λ t. Memᴰ t public_tool_names) (comma_list raw)

-- A binding that sets a risk level sets a supported one.
abbrev pub NamesRisk : Option String → Type 0
NamesRisk none = Unit
NamesRisk (some raw) = Memᴰ raw supported_risk_levels

pushed : (es : List String) (e : String) → es ++ e ∷ [] ≢ []
pushed [] e h = cc
pushed (x ∷ es) e h = cc

pack_loop_iff :
    (key : String) (es entries : List String)
    → ((pack_loop key es entries).1 ≡ []) ↔ ((es ≡ []) × All (λ p. Memᴰ p known_tool_packs) entries)
unfolding pack_loop
pack_loop_iff key es [] = (λ h. (h, tt), λ (h, _). h)
pack_loop_iff key es (entry ∷ rest) = elim (Bool-cases (includes known_tool_packs entry)) [
  | inl known ↦
      let (to, from) = pack_loop_iff key es rest in
      rw known
        (λ h. let (a, b) = to h in (a, (includes→mem _ entry known, b)), λ (a, (_, b)). from (a, b))
  | inr unknown ↦
      let (to, from) = pack_loop_iff key (es ++ _ ∷ []) rest in
      rw unknown
        (λ h. absurd (pushed es _ (to h).0), λ (_, (m, _)). absurd (cc (unknown, mem→includes m)))
]

pack_entries_iff :
    (key : String) (es fallback entries : List String)
    → ((pack_entries key es fallback entries).1 ≡ [])
      ↔ ((es ≡ []) × ((entries ≢ []) × All (λ p. Memᴰ p known_tool_packs) entries))
unfolding pack_entries
pack_entries_iff key es fallback [] =
    (λ h. absurd (pushed es _ h), λ (_, (ne, _)). absurd (ne refl))
pack_entries_iff key es fallback (entry ∷ rest) =
    let (to, from) = pack_loop_iff key es (entry ∷ rest) in
    (λ h. let (a, b) = to h in (a, ((λ e. cc), b)), λ (a, (_, b)). from (a, b))

packs_iff :
    (raw : Option String) (key : String) (es fallback : List String)
    → ((parse_pack_list raw key es fallback).1 ≡ []) ↔ ((es ≡ []) × NamesPacks raw)
unfolding parse_pack_list
packs_iff none key es fallback = (λ h. (h, tt), λ (h, _). h)
packs_iff (some raw) key es fallback = pack_entries_iff key es fallback (comma_list raw)

name_errors_iff :
    (key : String) (es entries : List String)
    → (name_errors key es entries ≡ []) ↔ ((es ≡ []) × All (λ t. Memᴰ t public_tool_names) entries)
unfolding name_errors
name_errors_iff key es [] = (λ h. (h, tt), λ (h, _). h)
name_errors_iff key es (entry ∷ rest) = elim (Bool-cases (includes public_tool_names entry)) [
  | inl known ↦
      let (to, from) = name_errors_iff key es rest in
      rw known
        (λ h. let (a, b) = to h in (a, (includes→mem _ entry known, b)), λ (a, (_, b)). from (a, b))
  | inr unknown ↦
      let (to, from) = name_errors_iff key (es ++ _ ∷ []) rest in
      rw unknown
        (λ h. absurd (pushed es _ (to h).0), λ (_, (m, _)). absurd (cc (unknown, mem→includes m)))
]

tools_iff :
    (raw : Option String) (key : String) (es : List String)
    → ((parse_tool_name_list raw key es).1 ≡ []) ↔ ((es ≡ []) × NamesTools raw)
unfolding parse_tool_name_list
tools_iff none key es = (λ h. (h, tt), λ (h, _). h)
tools_iff (some raw) key es = name_errors_iff key es (comma_list raw)

risk_iff :
    (raw : Option String) (key : String) (es : List String) (fallback : String)
    → ((parse_max_risk_level raw key es fallback).1 ≡ []) ↔ ((es ≡ []) × NamesRisk raw)
unfolding parse_max_risk_level
risk_iff none key es fallback = (λ h. (h, tt), λ (h, _). h)
risk_iff (some raw) key es fallback = elim (Bool-cases (includes supported_risk_levels raw)) [
  | inl known ↦ rw known (λ h. (h, includes→mem _ raw known), λ (h, _). h)
  | inr unknown ↦
      rw unknown (λ h. absurd (pushed es _ h), λ (_, m). absurd (cc (unknown, mem→includes m)))
]

given_iff :
    (es : List String) (exposure : ResolvedToolExposure)
    → (is_some (unless_errors es exposure) ≡ true) ↔ (es ≡ [])
unfolding unless_errors
given_iff [] exposure = (λ _. refl, λ _. refl)
given_iff (e ∷ es) exposure = (λ h. cc, λ h. cc)

-- The bindings give an exposure exactly when nothing was wrong before, the packs that they enable are
-- one or more known ones, the tools that they enable and disable are public ones, and the risk level is
-- a supported one, where a binding that is absent or blank is in order.
pub validate_tool_exposure_config_iff :
    (bindings : Fields) (errors : List String)
    → (is_some (validate_tool_exposure_config bindings errors).0 ≡ true) ↔ (
        (((((errors ≡ []) × NamesPacks (read_optional_string bindings "AWS_MCP_ENABLED_TOOL_PACKS"))
              × NamesTools (read_optional_string bindings "AWS_MCP_ENABLED_TOOLS"))
            × NamesTools (read_optional_string bindings "AWS_MCP_DISABLED_TOOLS"))
          × NamesRisk (read_optional_string bindings "AWS_MCP_MAX_RISK_LEVEL")))
unfolding validate_tool_exposure_config
validate_tool_exposure_config_iff bindings errors =
    let (p, p') =
      packs_iff (read_optional_string bindings "AWS_MCP_ENABLED_TOOL_PACKS") _ errors _ in
    let (t, t') = tools_iff (read_optional_string bindings "AWS_MCP_ENABLED_TOOLS") _ _ in
    let (d, d') = tools_iff (read_optional_string bindings "AWS_MCP_DISABLED_TOOLS") _ _ in
    let (r, r') = risk_iff (read_optional_string bindings "AWS_MCP_MAX_RISK_LEVEL") _ _ _ in
    let (g, g') = given_iff _ _ in
    (
      λ h.
          let (a, risk) = r (g h) in
          let (b, disabled) = d a in let (c, tools) = t b in (((p c, tools), disabled), risk),
      λ (((packs, tools), disabled), risk). g' (r' (d' (t' (p' packs, tools), disabled), risk)),
    )
