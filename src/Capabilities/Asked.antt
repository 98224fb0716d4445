-- ===== src/Capabilities/Asked.antt =====
-- What the lists of permissions and of services hold that a list of capabilities asks for.
use mathlib.Core.Option
use mathlib.Core.Option.{some-injective}
use mathlib.Core.List.Memᴰ
use aws_mcp_gateway.Base.{
  All-of_mem, All, true, map, includes, some, Option, Memᴰ, List, String, ◌≡◌, ◌↔◌, refl, true,
  Option, none, some, String, List, [], ◌∷◌, map, Memᴰ, includes, string_eq, sym, ap, subst, ◌∙◌,
  inl, inr, IsSorted, includes-sort_texts, includes-set_add_all, sort_texts-IsSorted, includes→mem,
  mem→includes,
}
use aws_mcp_gateway.Capabilities.{
  AwsCapabilityDefinition, get_aws_capability, get_aws_capability-readonly, is_read_only_iam_action,
  with_capability, capabilities_of, sorted_set, aws_actions_for_capabilities,
}

-- Some capability of the list has the text under the field.
abbrev pub Asks : (AwsCapabilityDefinition → String) → List String → String → Type 0
Asks field ids a =
    (id : String) × (c : AwsCapabilityDefinition) × Memᴰ id ids
    × (get_aws_capability id ≡ some c)
    × (a ≡ field c)

-- the first of the identifiers is known, and so are the others
known :
    (found : Option AwsCapabilityDefinition) (rest : Option (List AwsCapabilityDefinition))
    (cs : List AwsCapabilityDefinition)
    → with_capability found rest ≡ some cs
    → (c : AwsCapabilityDefinition) × (ds : List AwsCapabilityDefinition) × (found ≡ some c)
      × (rest ≡ some ds)
      × (cs ≡ c ∷ ds)
unfolding with_capability
known none rest cs h = cc
known (some c) none cs h = cc
known (some c) (some ds) cs h = (c, ds, refl, refl, sym (some-injective _ _ h))

module _ (field : AwsCapabilityDefinition → String) (a : String) where
  later : (id : String) (ids : List String) → Asks field ids a → Asks field (id ∷ ids) a
  later id ids (i, c, m, e, h) = (i, c, Memᴰ.tail m, e, h)

  mem→asks :
      (ids : List String) (cs : List AwsCapabilityDefinition)
      → capabilities_of ids ≡ some cs
      → Memᴰ a (map field cs)
      → Asks field ids a
  unfolding capabilities_of
  mem→asks [] cs h m =
      absurd (Memᴰ.not-nil (subst (λ ds. Memᴰ a (map field ds)) (sym (some-injective _ _ h)) m))
  mem→asks (id ∷ ids) cs h m =
      let (c, ds, e, rest, q) = known (get_aws_capability id) (capabilities_of ids) cs h in
      elim (Memᴰ.cases_cons (subst (λ ds. Memᴰ a (map field ds)) q m)) [
        | inl same ↦ (id, c, Memᴰ.head refl, e, same)
        | inr m ↦ later id ids (mem→asks ids ds rest m)
      ]

  asks→mem :
      (ids : List String) (cs : List AwsCapabilityDefinition)
      → capabilities_of ids ≡ some cs
      → Asks field ids a
      → Memᴰ a (map field cs)
  unfolding capabilities_of
  asks→mem [] cs h (i, c, m, e, s) = absurd (Memᴰ.not-nil m)
  asks→mem (id ∷ ids) cs h (i, c, m, e, s) =
      let (d, ds, f, rest, q) = known (get_aws_capability id) (capabilities_of ids) cs h in
      subst (λ ds. Memᴰ a (map field ds)) (sym q)
        (elim (Memᴰ.cases_cons m) [
          | inl same ↦
              Memᴰ.head (s ∙ ap field (some-injective c d (sym e ∙ ap get_aws_capability same ∙ f)))
          | inr m ↦ Memᴰ.tail (asks→mem ids ds rest (i, c, m, e, s))
        ])

  includes-sorted_set :
      (ids : List String) (cs : List AwsCapabilityDefinition)
      → capabilities_of ids ≡ some cs
      → (includes (sorted_set (map field cs)) a ≡ true) ↔ Asks field ids a
  unfolding sorted_set includes
  includes-sorted_set ids cs h =
      rw (includes-sort_texts, includes-set_add_all)
        (
          λ m. mem→asks ids cs h (includes→mem _ a m),
          λ asked. mem→includes (asks→mem ids cs h asked),
        )

-- what a list of capabilities that are all known comes to
of_known :
    (field : AwsCapabilityDefinition → String) (found : Option (List AwsCapabilityDefinition))
    (acts : List String)
    → Option.map (λ cs. sorted_set (map field cs)) found ≡ some acts
    → (cs : List AwsCapabilityDefinition) × (found ≡ some cs) × (acts ≡ sorted_set (map field cs))
of_known field none acts h = cc
of_known field (some cs) acts h = (cs, refl, sym (some-injective _ _ h))

-- A permission that a capability stands under is for an action that is none that writes.
asked-reads :
    (ids : List String) (a : String)
    → Asks (λ c. c.iam_action) ids a
    → is_read_only_iam_action a ≡ true
asked-reads ids a (i, c, m, e, s) =
    subst (λ x. is_read_only_iam_action x ≡ true) (sym s) (get_aws_capability-readonly i c e).1.1

-- Where all capabilities of a list are known, the permissions that the list needs are in order, and they
-- are the permissions of its capabilities and no others; each is for an action that is none that writes.
pub aws_actions_for_capabilities_lem :
    (ids acts : List String)
    → aws_actions_for_capabilities ids ≡ some acts
    → IsSorted acts
      × ((a : String) → (includes acts a ≡ true) ↔ Asks (λ c. c.iam_action) ids a)
      × All (λ a. is_read_only_iam_action a ≡ true) acts
unfolding aws_actions_for_capabilities sorted_set
aws_actions_for_capabilities_lem ids acts h =
    let (cs, known_all, e) = of_known (λ c. c.iam_action) (capabilities_of ids) acts h in
    let is_asked = λ (a : String). includes-sorted_set (λ c. c.iam_action) a ids cs known_all in
    (
      subst IsSorted (sym e) (sort_texts-IsSorted _),
      λ a. rw e (is_asked a),
      rw e (All-of_mem _ (λ a m. asked-reads ids a ((is_asked a).0 (mem→includes m)))),
    )
