-- ===== src/Profiles/Found.antt =====
-- What stands behind a profile that a tool is given.
use Prim.Native.Char.{code}
use aws_mcp_gateway.Base.{
  ℕ, suc, ◌≡◌, refl, sym, ◌∙◌, ap, subst, Bool, true, false, not, Option, none, some, String, List,
  [], ◌∷◌, Memᴰ, is_space, trim, trim_start, trim_end, string_eq, string_eq_iff, ◌==◌, arith,
  if◌then◌else◌, inl, inr, Bool-cases,
}
use text.Mathlib.TextLemmas.{append_cancel_left, append_cancel_right}
use mathlib.Core.Option.{some-injective}
use aws_mcp_gateway.Errors.{GatewayError, ok, thrown, >>=-ok, >>-ok, ok-injective, thrown_ne_ok}
use aws_mcp_gateway.Js.{Value}
use aws_mcp_gateway.Js.Numbers.{Num}
use aws_mcp_gateway.Profiles.{SafeProfileIndexEntry, ValidatedAppProfile}
use aws_mcp_gateway.Profiles.Patterns.{is_id_start, is_id_part}
use aws_mcp_gateway.Profiles.Patterns.Ids.{AllIn, IsProfileId}
use aws_mcp_gateway.Profiles.Fields.{validate_profile_id}
use aws_mcp_gateway.Profiles.Fields.Ids.{validate_profile_id_iff}
use aws_mcp_gateway.Profiles.Blocks.{has_block}
use aws_mcp_gateway.Profiles.Documents.Accepted.{validate_profile_document_lem}
use aws_mcp_gateway.Profiles.Store.{
  Store, build_profile_key, read_kv_index, read_kv_json, assert_profiles_configured, check_index,
  stored, find_entry, enabled_entry, list_application_profiles, load_application_profile,
  resolve_application_profile_for_tool,
}

id_part-no_space : (c : ℕ) → is_id_part c ≡ true → is_space c ≡ false
unfolding is_id_part is_space
id_part-no_space c h = ground arith

id_start-part : (c : ℕ) → is_id_start c ≡ true → is_id_part c ≡ true
unfolding is_id_start is_id_part
id_start-part c h = ground arith

trim_end-parts : (s : String) → AllIn is_id_part s → trim_end s ≡ s
unfolding trim_end
trim_end-parts String.[] h = refl
trim_end-parts (String.◌∷◌ c String.[]) (p, h) = rw (id_part-no_space (code c) p) refl
trim_end-parts (String.◌∷◌ c (String.◌∷◌ d s)) (p, h) = rw (trim_end-parts (String.◌∷◌ d s) h) refl

trim-id : (s : String) → IsProfileId s → trim s ≡ s
unfolding trim trim_start
trim-id String.[] h = absurd h
trim-id (String.◌∷◌ c s) (start, (_, parts)) =
    let part = id_start-part (code c) start in
    rw (id_part-no_space (code c) part) (trim_end-parts (String.◌∷◌ c s) (part, parts))

found-mem :
    (id : String) (ps : List SafeProfileIndexEntry) (p : SafeProfileIndexEntry)
    → find_entry id ps ≡ some p
    → Memᴰ p ps × (p.id ≡ id)
unfolding find_entry
found-mem id [] p h = absurd (cc h)
found-mem id (q ∷ ps) p h = elim (Bool-cases (q.id == id)) [
  | inl same ↦
      let e = some-injective _ _ (rw same at h) in
      (Memᴰ.head (sym e), subst (λ x. x.id ≡ id) e ((string_eq_iff q.id id).0 same))
  | inr other ↦ let (m, e) = found-mem id ps p (rw other at h) in (Memᴰ.tail m, e)
]

enabled-branch :
    (on : Bool) (message : GatewayError) (q p : SafeProfileIndexEntry)
    → (if not on then thrown message else ok q) ≡ ok p
    → (q ≡ p) × (on ≡ true)
enabled-branch true message q p h = (ok-injective h, refl)
enabled-branch false message q p h = absurd (thrown_ne_ok h)

enabled-found :
    (id : String) (o : Option SafeProfileIndexEntry) (p : SafeProfileIndexEntry)
    → enabled_entry id o ≡ ok p
    → (o ≡ some p) × (p.enabled ≡ true)
unfolding enabled_entry
enabled-found id none p h = absurd (thrown_ne_ok h)
enabled-found id (some q) p h =
    let (e, on) = enabled-branch q.enabled _ q p h in
    (ap some e, subst (λ x. x.enabled ≡ true) e on)

module _ (parse_json : String → Option Value) (show_number : Num → String) (kv : Option Store)
    (index_key : Option String) (allowed : List String) where
  load_lem :
      (n : ℕ) (profile_id : String) (p : ValidatedAppProfile)
      → load_application_profile parse_json show_number kv index_key allowed n profile_id ≡ ok p
      → (p.id ≡ trim profile_id) × (Memᴰ p.region allowed × (has_block p.resources ≡ true))
  unfolding load_application_profile
  load_lem n profile_id p h =
      let index = read_kv_index parse_json show_number kv index_key allowed n in
      let (safe, (is_safe, h1)) = >>=-ok (validate_profile_id profile_id) _ p h in
      let (_, h2) = >>-ok (assert_profiles_configured index.status) _ p h1 in
      let (_, h3) =
        >>-ok (check_index parse_json show_number kv index_key allowed index.value) _ p h2 in
      let (key, (_, h4)) = >>=-ok (build_profile_key safe) _ p h3 in
      let (_, h5) =
        >>-ok (assert_profiles_configured (read_kv_json kv (suc n) key).status) _ p h4 in
      let (value, (_, h6)) = >>=-ok (stored (read_kv_json kv (suc n) key).value safe) _ p h5 in
      let (is_id, (_, (region, some_block))) =
        validate_profile_document_lem show_number value safe allowed none p h6 in
      let (trimmed, good) = (validate_profile_id_iff profile_id safe).0 is_safe in
      (is_id ∙ (trim-id safe good ∙ trimmed), (region, some_block))

  -- A tool is given a profile only if the index lists an entry that is enabled and whose id is the one asked for,
  -- trimmed; and then the profile has that id, a region that is allowed, and some block of resources.
  pub resolve_application_profile_for_tool_lem :
      (n : ℕ) (profile_id : String) (p : ValidatedAppProfile)
      → resolve_application_profile_for_tool parse_json show_number kv index_key allowed n
          profile_id
        ≡ ok p
      → ((entry : SafeProfileIndexEntry) × (Memᴰ entry
              (list_application_profiles parse_json show_number kv index_key allowed n).profiles
            × ((entry.enabled ≡ true) × (entry.id ≡ p.id))))
        × ((p.id ≡ trim profile_id) × (Memᴰ p.region allowed × (has_block p.resources ≡ true)))
  unfolding resolve_application_profile_for_tool
  resolve_application_profile_for_tool_lem n profile_id p h =
      let list = list_application_profiles parse_json show_number kv index_key allowed n in
      let (_, h1) = >>-ok (assert_profiles_configured list.status) _ p h in
      let (safe, (is_safe, h2)) = >>=-ok (validate_profile_id profile_id) _ p h1 in
      let (entry, (on, h3)) = >>=-ok (enabled_entry safe (find_entry safe list.profiles)) _ p h2 in
      let (found, enabled) = enabled-found safe _ entry on in
      let (mem, entry_id) = found-mem safe list.profiles entry found in
      let (trimmed, good) = (validate_profile_id_iff profile_id safe).0 is_safe in
      let (is_id, (region, some_block)) = load_lem (suc n) safe p h3 in
      let to_safe : p.id ≡ safe = is_id ∙ trim-id safe good in
      ((entry, (mem, (enabled, entry_id ∙ sym to_safe))), (to_safe ∙ trimmed, (region, some_block)))

-- Two ids have the same key only if, trimmed, they are the same id.
pub build_profile_key-injective :
    (a b key : String)
    → build_profile_key a ≡ ok key
    → build_profile_key b ≡ ok key
    → trim a ≡ trim b
unfolding build_profile_key
build_profile_key-injective a b key ha hb =
    let (ia, (va, ka)) = >>=-ok (validate_profile_id a) _ key ha in
    let (ib, (vb, kb)) = >>=-ok (validate_profile_id b) _ key hb in
    let (ta, _) = (validate_profile_id_iff a ia).0 va in
    let (tb, _) = (validate_profile_id_iff b ib).0 vb in
    let keys =
      append_cancel_left "app-profiles/profiles/" _ _ (ok-injective ka ∙ sym (ok-injective kb)) in
    sym ta ∙ (append_cancel_right ia ib ".json" keys ∙ tb)
