-- ===== src/Policy/Context.antt =====
-- The context that the gate is built with allows what the exposed tools need.
use mathlib.Core.List.{flat_map}
use mathlib.Core.List.Memᴰ
use aws_mcp_gateway.Base.{
  ℕ, ◌≡◌, ◌∙◌, refl, sym, ap, subst, inl, inr, Bool, true, Bool-cases, String, List, [], ◌∷◌, All,
  All-of_mem, Memᴰ, keep, includes, includes_iff, set_add_all, set_add_all-mem_iff, string_eq,
}
use aws_mcp_gateway.Manifest.{ToolManifest}
use aws_mcp_gateway.Manifest.Exposed.{IsExposed, resolve_exposed_tool_names_iff}
use aws_mcp_gateway.Policy.{PolicySettings, exposed_manifests, build_tool_policy_context}

keep-mem {ℓ} :
    {A : Type ℓ} (p : A → Bool) (xs : List A) {a : A} → p a ≡ true → Memᴰ a xs → Memᴰ a (keep p xs)
keep-mem p [] h m = absurd (Memᴰ.not-nil m)
keep-mem p (x ∷ xs) h (Memᴰ.head e) = rw (ap p (sym e) ∙ h, keep) (Memᴰ.head e)
keep-mem p (x ∷ xs) h (Memᴰ.tail m) = elim (Bool-cases (p x)) [
  | inl kept ↦ rw (kept, keep) (Memᴰ.tail (keep-mem p xs h m))
  | inr dropped ↦ rw (dropped, keep) (keep-mem p xs h m)
]

flat_map-mem :
    {A : Type 0} (f : A → List String) (xs : List A) {a : A} {s : String}
    → Memᴰ a xs
    → Memᴰ s (f a)
    → Memᴰ s (flat_map f xs)
unfolding flat_map
flat_map-mem f [] m n = absurd (Memᴰ.not-nil m)
flat_map-mem f (x ∷ xs) {s = s} (Memᴰ.head e) n =
    Memᴰ.append_left (flat_map f xs) (subst (λ l. Memᴰ s l) (ap f e) n)
flat_map-mem f (x ∷ xs) (Memᴰ.tail m) n = Memᴰ.append_right (f x) (flat_map-mem f xs m n)

-- what every exposed manifest names is in the set of what they name
lists_named :
    (f : ToolManifest → List String) (names : List String) (ms : List ToolManifest)
    (m : ToolManifest)
    → Memᴰ m ms
    → includes names m.name ≡ true
    → All (λ s. Memᴰ s (set_add_all [] (flat_map f (exposed_manifests names ms)))) (f m)
unfolding exposed_manifests
lists_named f names ms m listed exposed = All-of_mem (f m) (λ s n.
    (set_add_all-mem_iff [] _ s).1
      (inr (flat_map-mem f _ (keep-mem (λ x. includes names x.name) ms exposed listed) n)))

-- For a tool that the settings expose, the gate's context has its name among the enabled ones, and all
-- the services and actions that it names among the allowed ones.
pub build_tool_policy_context-allows :
    (ctx : PolicySettings) (now_ms : ℕ) (ms : List ToolManifest) (m : ToolManifest)
    → Memᴰ m ms
    → IsExposed ctx.tool_exposure m
    → let p = build_tool_policy_context ctx now_ms ms in
      Memᴰ m.name p.enabled_tool_names
      × (All (λ s. Memᴰ s p.allowed_aws_services) m.services
          × All (λ a. Memᴰ a p.allowed_aws_actions) m.actions)
unfolding build_tool_policy_context
build_tool_policy_context-allows ctx now_ms ms m listed exposed =
    let named =
      (resolve_exposed_tool_names_iff ctx.tool_exposure ms m.name).1 (m, listed, exposed, refl) in
    let found = (includes_iff _ m.name).1 named in
    (
      named,
      (
        lists_named (λ x. x.services) _ ms m listed found,
        lists_named (λ x. x.actions) _ ms m listed found,
      ),
    )
