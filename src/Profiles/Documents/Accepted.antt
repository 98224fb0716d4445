-- ===== src/Profiles/Documents/Accepted.antt =====
-- What holds of the profiles, and of the index of them, that are accepted.
use aws_mcp_gateway.Base.{
  is_some, if◌then◌else◌, subst, ℕ, suc, ◌≤◌, ◌≡◌, refl, sym, ◌∙◌, true, false, not, Option, String,
  List, [], ◌∷◌, length, All, Memᴰ, includes, string_eq, string_eq_iff, trim, ltb, arith, inl, inr,
  Bool-cases, ◌!=◌,
}
use aws_mcp_gateway.Errors.{ok, >>=-ok, >>-ok, ok-injective, thrown_ne_ok}
use aws_mcp_gateway.Js.{Fields, Value, Items, nil, item, get}
use aws_mcp_gateway.Js.Numbers.{Num}
use aws_mcp_gateway.Regions.{validate_region, validate_region_iff}
use aws_mcp_gateway.Profiles.{
  ProfileResources, SafeProfileIndexEntry, ProfileIndex, ValidatedAppProfile,
}
use aws_mcp_gateway.Profiles.Patterns.Ids.{IsProfileId}
use aws_mcp_gateway.Profiles.Fields.{
  validate_string_field, throw_if, validate_profile_id, count_items,
}
use aws_mcp_gateway.Profiles.Blocks.{
  validate_blocks, unknown_keys, no_keys, as_object, has_block, validate_resources,
}
use aws_mcp_gateway.Profiles.Documents.{
  document_fields, validate_auth_block, validate_string_array, is_one, as_array, as_boolean,
  too_large, check_ids, validate_index_entry, validate_entries, validate_profile_index_document,
  validate_profile_document,
}
use aws_mcp_gateway.Profiles.Fields.Ids.{validate_profile_id_iff, throw_if-ok}

-- No id is there twice, and none is among those that were met.
abbrev pub AreNew : List String → List SafeProfileIndexEntry → Type 0
AreNew met [] = Unit
AreNew met (p ∷ ps) = (includes met p.id ≡ false) × AreNew (p.id ∷ met) ps

check_ids-AreNew :
    (met : List String) (ps : List SafeProfileIndexEntry) → check_ids met ps ≡ ok tt → AreNew met ps
unfolding check_ids
check_ids-AreNew met [] h = tt
check_ids-AreNew met (p ∷ ps) h = elim (Bool-cases (includes met p.id)) [
  | inl again ↦ absurd (thrown_ne_ok (rw again at h))
  | inr new ↦ (new, check_ids-AreNew (p.id ∷ met) ps (rw new at h))
]

resources-have :
    (value : Value) (r : ProfileResources) → validate_resources value ≡ ok r → has_block r ≡ true
unfolding validate_resources
resources-have value r h =
    let (fields, (_, h1)) = >>=-ok (as_object value _) _ r h in
    let (_, h2) = >>-ok (throw_if (not (no_keys (unknown_keys fields))) _) _ r h1 in
    let (resources, (_, h3)) = >>=-ok (validate_blocks fields) _ r h2 in
    let (some_block, h4) = >>-ok (throw_if (not (has_block resources)) _) _ r h3 in
    let (_, h5) = >>-ok (throw_if (ltb 5 (if is_some resources.s3 then 1 else 0)) _) _ r h4 in
    let has : has_block resources ≡ true = ground (arith, throw_if-ok _ _ some_block) in
    subst (λ q. has_block q ≡ true) (ok-injective h5) has

-- The id is one, and the region is allowed.
abbrev pub IsEntry : List String → SafeProfileIndexEntry → Type 0
IsEntry allowed p = IsProfileId p.id × Memᴰ p.region allowed

module _ (show_number : Num → String) where
  validate_index_entry-IsEntry :
      (value : Value) (allowed : List String) (p : SafeProfileIndexEntry)
      → validate_index_entry show_number value allowed ≡ ok p
      → IsEntry allowed p
  unfolding validate_index_entry
  validate_index_entry-IsEntry value allowed p h =
      let (fields, (_, h1)) = >>=-ok (as_object value _) _ p h in
      let (id, (is_id, h2)) = >>=-ok (validate_profile_id _) _ p h1 in
      let (display_name, (_, h3)) =
        >>=-ok (validate_string_field (get "displayName" fields) _ _ _) _ p h2 in
      let (environment, (_, h4)) =
        >>=-ok (validate_string_field (get "environment" fields) _ _ _) _ p h3 in
      let (region, (_, h5)) = >>=-ok (validate_string_field (get "region" fields) _ _ _) _ p h4 in
      let (region_ok, h6) = >>-ok (validate_region region allowed) _ p h5 in
      let (enabled, (_, h7)) = >>=-ok (as_boolean (get "enabled" fields) _) _ p h6 in
      let (aliases, (_, h8)) = >>=-ok (validate_string_array (get "aliases" fields) _ _ _) _ p h7 in
      let (capabilities, (_, h9)) =
        >>=-ok (validate_string_array (get "capabilities" fields) _ _ _) _ p h8 in
      subst (IsEntry allowed) (ok-injective h9) (
        ((validate_profile_id_iff _ id).0 is_id).1,
        (validate_region_iff region allowed).0 region_ok,
      )

  entries-AreEntries :
      (vs : Items) (allowed : List String) (ps : List SafeProfileIndexEntry)
      → validate_entries show_number vs allowed ≡ ok ps
      → All (IsEntry allowed) ps × (length ps ≡ count_items vs)
  unfolding validate_entries count_items
  entries-AreEntries nil allowed ps h =
      subst (λ ps'. All (IsEntry allowed) ps' × (length ps' ≡ 0)) (ok-injective h) (tt, refl)
  entries-AreEntries (item v vs) allowed ps h =
      let (entry, (is_entry, h1)) = >>=-ok (validate_index_entry show_number v allowed) _ ps h in
      let (entries, (are_entries, h2)) = >>=-ok (validate_entries show_number vs allowed) _ ps h1 in
      let (all, len) = entries-AreEntries vs allowed entries are_entries in
      subst (λ ps'. All (IsEntry allowed) ps' × (length ps' ≡ suc (count_items vs)))
        (ok-injective h2)
        ((validate_index_entry-IsEntry v allowed entry is_entry, all), omega (arith, len))

  -- An index that is accepted has at most 50 profiles, no id twice, and of every profile the id is one and the
  -- region is allowed.
  pub validate_profile_index_document_lem :
      (raw : Value) (allowed : List String) (json_bytes : Option ℕ) (index : ProfileIndex)
      → validate_profile_index_document show_number raw allowed json_bytes ≡ ok index
      → (length index.profiles ≤ 50)
        × (AreNew [] index.profiles × All (IsEntry allowed) index.profiles)
  unfolding validate_profile_index_document
  validate_profile_index_document_lem raw allowed bytes index h =
      let (_, h1) = >>-ok (throw_if (too_large bytes) _) _ index h in
      let (fields, (_, h2)) = >>=-ok (as_object raw _) _ index h1 in
      let (_, h3) = >>-ok (throw_if (not (is_one (get "version" fields))) _) _ index h2 in
      let (listed, (_, h4)) = >>=-ok (as_array (get "profiles" fields) _) _ index h3 in
      let (few, h5) = >>-ok (throw_if (ltb 50 (count_items listed)) _) _ index h4 in
      let (profiles, (entries, h6)) =
        >>=-ok (validate_entries show_number listed allowed) _ index h5 in
      let (new, h7) = >>-ok (check_ids [] profiles) _ index h6 in
      let (all, len) = entries-AreEntries listed allowed profiles entries in
      subst
        (λ i. (length i.profiles ≤ 50) × (AreNew [] i.profiles × All (IsEntry allowed) i.profiles))
        (ok-injective h7)
        (ground (arith, throw_if-ok _ _ few, len), (check_ids-AreNew [] profiles new, all))

  fields_lem :
      (fields : Fields) (id : String) (allowed : List String) (p : ValidatedAppProfile)
      → document_fields show_number fields id allowed ≡ ok p
      → (p.id ≡ id) × (Memᴰ p.region allowed × (has_block p.resources ≡ true))
  unfolding document_fields
  fields_lem fields id allowed p h6 =
      let (display_name, (_, h7)) =
        >>=-ok (validate_string_field (get "displayName" fields) "displayName" 128 true) _ p h6 in
      let (environment, (_, h8)) =
        >>=-ok (validate_string_field (get "environment" fields) "environment" 32 true) _ p h7 in
      let (region, (_, h9)) =
        >>=-ok (validate_string_field (get "region" fields) "region" 256 true) _ p h8 in
      let (region_ok, h10) = >>-ok (validate_region region allowed) _ p h9 in
      let (auth, (_, h11)) = >>=-ok (validate_auth_block (get "auth" fields) "auth") _ p h10 in
      let (resources, (found, h12)) =
        >>=-ok (validate_resources (get "resources" fields)) _ p h11 in
      subst (λ q. (q.id ≡ id) × (Memᴰ q.region allowed × (has_block q.resources ≡ true)))
        (ok-injective h12)
        (
          refl,
          (
            (validate_region_iff region allowed).0 region_ok,
            resources-have (get "resources" fields) resources found,
          ),
        )

  -- A profile that is accepted has the id that was asked for, trimmed, an allowed region, and some block of
  -- resources.
  pub validate_profile_document_lem :
      (raw : Value) (profile_id : String) (allowed : List String) (json_bytes : Option ℕ)
      (profile : ValidatedAppProfile)
      → validate_profile_document show_number raw profile_id allowed json_bytes ≡ ok profile
      → (profile.id ≡ trim profile_id)
        × (IsProfileId profile.id
            × (Memᴰ profile.region allowed × (has_block profile.resources ≡ true)))
  unfolding validate_profile_document
  validate_profile_document_lem raw profile_id allowed bytes p h =
      let (safe, (is_safe, h1)) = >>=-ok (validate_profile_id profile_id) _ p h in
      let (_, h2) = >>-ok (throw_if (too_large bytes) _) _ p h1 in
      let (fields, (_, h3)) = >>=-ok (as_object raw _) _ p h2 in
      let (_, h4) = >>-ok (throw_if (not (is_one (get "version" fields))) _) _ p h3 in
      let (id, (_, h5)) = >>=-ok (validate_profile_id _) _ p h4 in
      let (same, h6) = >>-ok (throw_if (id != safe) _) _ p h5 in
      let (same_id, (region, some_block)) = fields_lem fields id allowed p h6 in
      let (trimmed, is_id) = (validate_profile_id_iff profile_id safe).0 is_safe in
      let e : id ≡ safe = ground (arith, throw_if-ok _ _ same, string_eq_iff id safe) in
      let to_safe : p.id ≡ safe = same_id ∙ e in
      (to_safe ∙ trimmed, (subst IsProfileId (sym to_safe) is_id, (region, some_block)))
