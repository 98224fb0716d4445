-- ===== src/Manifest/Exposed.antt =====
-- Which names an exposure lets out.
use aws_mcp_gateway.Base.{
  ◌≡◌, ◌↔◌, refl, ◌⊎◌, inl, inr, true, String, List, [], ◌∷◌, Memᴰ, includes, includes→mem,
  mem→includes, includes_iff, not-includes_iff, and_iff, string_eq_iff, string_eq, Bool-cases,
  set_add-keeps, set_add_self, set_add-only, set_add, sym, subst,
}
use aws_mcp_gateway.Manifest.{
  ToolManifest, ResolvedToolExposure, is_exposed, allowlisted, expose, resolve_exposed_tool_names,
}

-- A tool that an exposure lets out: its pack is enabled, it is not disabled by name, it is on the
-- allowlist if there is one, and its risk level is the permitted one.
abbrev pub IsExposed : ResolvedToolExposure → ToolManifest → Type 0
IsExposed e m =
    Memᴰ m.pack e.enabled_tool_packs
    × ((Memᴰ m.name e.disabled_tools → ⊥)
        × (((e.enabled_tools ≡ []) ⊎ Memᴰ m.name e.enabled_tools)
            × (m.risk_level ≡ e.max_risk_level)))

allowlisted_iff :
    (tools : List String) (name : String)
    → (allowlisted tools name ≡ true) ↔ ((tools ≡ []) ⊎ Memᴰ name tools)
unfolding allowlisted
allowlisted_iff [] name = (λ h. inl refl, λ h. refl)
allowlisted_iff (t ∷ ts) name =
    let (to, from) = includes_iff (t ∷ ts) name in
    (λ h. inr (to h), λ h. elim h [ inl e ↦ cc | inr m ↦ from m ])

is_exposed_iff :
    (e : ResolvedToolExposure) (m : ToolManifest) → (is_exposed e m ≡ true) ↔ IsExposed e m
unfolding is_exposed
is_exposed_iff e m = and_iff _ _ (includes_iff e.enabled_tool_packs m.pack) (
    and_iff _ _ (not-includes_iff e.disabled_tools m.name) (
      and_iff _ _ (allowlisted_iff e.enabled_tools m.name)
        (string_eq_iff m.risk_level e.max_risk_level)))

module _ (e : ResolvedToolExposure) where
  -- A manifest of the list that goes by this name and is let out.
  abbrev pub Exposes : List ToolManifest → String → Type 0
  Exposes ms name = (m : ToolManifest) × Memᴰ m ms × IsExposed e m × (name ≡ m.name)

  expose-keeps :
      (ms : List ToolManifest) (out : List String) (name : String)
      → includes out name ≡ true
      → includes (expose e out ms) name ≡ true
  unfolding expose
  expose-keeps [] out name h = h
  expose-keeps (m ∷ ms) out name h = elim (Bool-cases (is_exposed e m)) [
    | inl yes' ↦
        rw yes' (expose-keeps ms (set_add out m.name) name (set_add-keeps out m.name name h))
    | inr no' ↦ rw no' (expose-keeps ms out name h)
  ]

  expose-head :
      (n : ToolManifest) (ms : List ToolManifest) (out : List String)
      → IsExposed e n
      → includes (expose e out (n ∷ ms)) n.name ≡ true
  unfolding expose
  expose-head n ms out x =
      rw ((is_exposed_iff e n).1 x)
        (expose-keeps ms (set_add out n.name) n.name (set_add_self out n.name))

  expose-finds :
      (ms : List ToolManifest) (out : List String) (m : ToolManifest)
      → Memᴰ m ms
      → IsExposed e m
      → includes (expose e out ms) m.name ≡ true
  unfolding expose
  expose-finds [] out m listed x = elim listed [ ]
  expose-finds (n ∷ ms) out m (Memᴰ.head same) x =
      subst (λ k. includes (expose e out (n ∷ ms)) k.name ≡ true) (sym same)
        (expose-head n ms out (subst (λ k. IsExposed e k) same x))
  expose-finds (n ∷ ms) out m (Memᴰ.tail later) x = expose-finds ms _ m later x

  later :
      {m : ToolManifest} {ms : List ToolManifest} {name : String} {P : Type 0}
      → P ⊎ Exposes ms name
      → P ⊎ Exposes (m ∷ ms) name
  later (inl old) = inl old
  later (inr (n, listed, x, same)) = inr (n, Memᴰ.tail listed, x, same)

  added :
      (m : ToolManifest) (ms : List ToolManifest) (out : List String) (name : String)
      → IsExposed e m
      → (includes (set_add out m.name) name ≡ true) ⊎ Exposes (m ∷ ms) name
      → (includes out name ≡ true) ⊎ Exposes (m ∷ ms) name
  added m ms out name x (inr found) = inr found
  added m ms out name x (inl h) = elim (set_add-only out m.name name h) [
    | inl old ↦ inl old
    | inr same ↦ inr (m, Memᴰ.head refl, x, same)
  ]

  expose-only :
      (ms : List ToolManifest) (out : List String) (name : String)
      → includes (expose e out ms) name ≡ true
      → (includes out name ≡ true) ⊎ Exposes ms name
  unfolding expose
  expose-only [] out name h = inl h
  expose-only (m ∷ ms) out name h = elim (Bool-cases (is_exposed e m)) [
    | inl yes' ↦
        added m ms out name ((is_exposed_iff e m).0 yes')
          (later (expose-only ms (set_add out m.name) name (rw yes' at h)))
    | inr no' ↦ later (expose-only ms out name (rw no' at h))
  ]

  -- A name is let out exactly when some manifest of that name is: its pack is enabled, it is not
  -- disabled by name, it is on the allowlist if there is one, and its risk level is the permitted one.
  pub resolve_exposed_tool_names_iff :
      (ms : List ToolManifest) (name : String)
      → Memᴰ name (resolve_exposed_tool_names ms e) ↔ Exposes ms name
  unfolding resolve_exposed_tool_names
  resolve_exposed_tool_names_iff ms name = (
    λ h. elim (expose-only ms [] name (mem→includes h)) [
      | inl none' ↦ absurd (unfold includes in cc none')
      | inr found ↦ found
    ],
    λ (m, listed, x, same).
        subst (λ k. Memᴰ k (expose e [] ms)) (sym same)
          (includes→mem _ m.name (expose-finds ms [] m listed x)),
  )
