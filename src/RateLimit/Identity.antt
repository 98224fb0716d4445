-- ===== src/RateLimit/Identity.antt =====
-- The identity that a request is counted under.
use Prim.Native.Nat.{ℕ}
use Prim.Native.Char.{Char, code}
use mathlib.Core.List.{◌∷◌}
use text.Mathlib.TextLemmas.{cons-append, append_cancel_left}
use mathlib.Core.Option.{some-injective}
use aws_mcp_gateway.Base.{
  is_empty_iff, is_empty, Bool-cases, ◌∙◌, Option-cases, strip_prefix_iff, first-split,
  strip_prefix, ◌↔◌, List, split, is_comma, trim, split-first, IsFirstPiece, ◌≡◌, ◌≢◌, refl, sym,
  ap, Option, none, some, String, arith, ◌<>◌, ◌⊎◌, inl, inr,
}
use aws_mcp_gateway.Http.{Request}
use aws_mcp_gateway.RateLimit.{bearer_token, forwarded_for, first_hop, identity_of, build_identity}

abbrev first_code : String → Option ℕ
first_code String.[] = none
first_code (String.◌∷◌ c s) = some (code c)

first_code-append : (c : Char) (s t : String) → first_code (String.◌∷◌ c s <> t) ≡ some (code c)
first_code-append c s t = rw cons-append

token_ne_ip : (s t : String) → "token:" <> s ≢ "ip:" <> t
token_ne_ip s t e =
    let token : first_code ("token:" <> s) ≡ some b't' = first_code-append _ _ s in
    let ip : first_code ("ip:" <> t) ≡ some b'i' = first_code-append _ _ t in
    ground (arith, ap first_code e)

-- The address that a request is counted under: the text of `CF-Connecting-IP`; or else what `X-Forwarded-For`
-- has before its first comma, trimmed; or else "unknown".
abbrev pub IsAddress : Option String → Option String → String → Type 0
IsAddress (some ip) hops address = address ≡ ip
IsAddress none (some hops) address =
    (hop : String) × (IsFirstPiece is_comma hop hops × (address ≡ trim hop))
IsAddress none none address = address ≡ "unknown"

first_hop_lem :
    (value p : String) (ps : List String) → split is_comma value ≡ p ∷ ps → first_hop value ≡ trim p
unfolding first_hop
first_hop_lem value p ps e = rw (e, first_hop) refl

forwarded_for_iff :
    (ip hops : Option String) (address : String)
    → IsAddress ip hops address ↔ (address ≡ forwarded_for ip hops)
unfolding forwarded_for
forwarded_for_iff (some ip) hops address = (λ h. h, λ h. h)
forwarded_for_iff none (some hops) address = (
  λ (hop, (first, e)).
      let (rest, split_up) = first-split is_comma hop hops first in
      e ∙ sym (first_hop_lem hops hop rest split_up),
  λ e.
      let (hop, (rest, (split_up, first))) = split-first is_comma hops in
      (hop, (first, e ∙ first_hop_lem hops hop rest split_up)),
)
forwarded_for_iff none none address = (λ h. h, λ h. h)

-- the address of a request
abbrev pub ComesFrom : Request → String → Type 0
ComesFrom q address = IsAddress (q.header "CF-Connecting-IP") (q.header "X-Forwarded-For") address

-- A header bears a token: the trimmed text behind "Bearer ", which is not empty.
abbrev pub IsBearer : Option String → String → Type 0
IsBearer header token =
    (rest : String) × ((header ≡ some ("Bearer " <> rest)) × ((token ≡ trim rest) × (token ≢ "")))

stripped_iff :
    (header rest token : String)
    → strip_prefix "Bearer " header ≡ some rest
    → (bearer_token (some header) ≡ some token) ↔ IsBearer (some header) token
unfolding bearer_token
stripped_iff header rest token e =
    let at : header ≡ "Bearer " <> rest = (strip_prefix_iff "Bearer " header rest).0 e in
    elim (Bool-cases (is_empty (trim rest))) [
      | inl h ↦
          rw (e, bearer_token, h)
            (
              λ k. absurd (cc k),
              λ (rest', (at', (same, full))).
                  let one : rest ≡ rest' =
                    append_cancel_left "Bearer " _ _ (sym at ∙ some-injective _ _ at') in
                  absurd (full (same ∙ ap trim (sym one) ∙ (is_empty_iff (trim rest)).0 h)),
            )
      | inr h ↦
          rw (e, bearer_token, h)
            (
              λ k.
                  let token_is : trim rest ≡ token = some-injective _ _ k in
                  (
                    rest,
                    (
                      ap some at,
                      (
                        sym token_is,
                        λ none_left. cc (h, (is_empty_iff (trim rest)).1 (token_is ∙ none_left)),
                      ),
                    ),
                  ),
              λ (rest', (at', (same, full))).
                  let one : rest ≡ rest' =
                    append_cancel_left "Bearer " _ _ (sym at ∙ some-injective _ _ at') in
                  ap some (ap trim one ∙ sym same),
            )
    ]

bearer_token_iff :
    (header : Option String) (token : String)
    → (bearer_token header ≡ some token) ↔ IsBearer header token
unfolding bearer_token
bearer_token_iff none token = (λ h. absurd (cc h), λ (rest, (h, _)). absurd (cc h))
bearer_token_iff (some header) token = elim (Option-cases (strip_prefix "Bearer " header)) [
  | inl e ↦
      rw (e, bearer_token)
        (
          λ h. absurd (cc h),
          λ (rest, (at, _)).
              absurd (cc (e, (strip_prefix_iff "Bearer " header rest).1 (some-injective _ _ at))),
        )
  | inr (rest, e) ↦ stripped_iff header rest token e
]

-- A header that bears no token.
abbrev pub IsTokenless : Option String → Type 0
IsTokenless header = ¬ ((token : String) × IsBearer header token)

bearer_token-none_iff : (header : Option String) → (bearer_token header ≡ none) ↔ IsTokenless header
bearer_token-none_iff header = (
  λ h (token, b). absurd (cc (h, (bearer_token_iff header token).1 b)),
  λ f. elim (Option-cases (bearer_token header)) [
    | inl e ↦ e
    | inr (token, e) ↦ absurd (f (token, (bearer_token_iff header token).0 e))
  ],
)

module _ (sha256_hex : String → String) where
  -- Who two requests with the same identity are: either both bear a token, with the same digest, or
  -- neither does and they come from the same address.
  abbrev pub IsSameCaller : Request → Request → Type 0
  IsSameCaller q r =
      ((s : String) × ((t : String) × (IsBearer (q.header "Authorization") s
            × (IsBearer (r.header "Authorization") t × (sha256_hex s ≡ sha256_hex t)))))
      ⊎ (IsTokenless (q.header "Authorization")
          × (IsTokenless (r.header "Authorization")
              × ((address : String) × (ComesFrom q address × ComesFrom r address))))

  same_caller :
      (a b : Option String) (i j : String)
      → identity_of sha256_hex a i ≡ identity_of sha256_hex b j
      → ((s : String) × ((t : String) × ((a ≡ some s)
              × ((b ≡ some t) × (sha256_hex s ≡ sha256_hex t)))))
        ⊎ ((a ≡ none) × ((b ≡ none) × (i ≡ j)))
  unfolding identity_of
  same_caller (some s) (some t) i j e =
      inl (s, (t, (refl, (refl, append_cancel_left "token:" _ _ e))))
  same_caller (some s) none i j e = absurd (token_ne_ip _ _ e)
  same_caller none (some t) i j e = absurd (token_ne_ip _ _ (sym e))
  same_caller none none i j e = inr (refl, (refl, append_cancel_left "ip:" _ _ e))

  by_token :
      (a b : Option String) (i j s t : String)
      → a ≡ some s
      → b ≡ some t
      → sha256_hex s ≡ sha256_hex t
      → identity_of sha256_hex a i ≡ identity_of sha256_hex b j
  unfolding identity_of
  by_token a b i j s t e f h = rw (e, f, h) refl

  by_address :
      (a b : Option String) (i j : String)
      → a ≡ none
      → b ≡ none
      → i ≡ j
      → identity_of sha256_hex a i ≡ identity_of sha256_hex b j
  unfolding identity_of
  by_address a b i j e f h = rw (e, f, h) refl

  -- Requests are counted together exactly when both bear a token, the trimmed text behind "Bearer ", of
  -- one digest, or neither bears one and they have the same address: the text of `CF-Connecting-IP`, or
  -- else the trimmed text before the first comma of `X-Forwarded-For`, or else "unknown".
  pub build_identity_iff :
      (q r : Request)
      → (build_identity sha256_hex q ≡ build_identity sha256_hex r) ↔ IsSameCaller q r
  unfolding build_identity
  build_identity_iff q r = (
    λ e. elim (same_caller _ _ _ _ e) [
      | inl (s, (t, (h, (k, same)))) ↦
          inl (s, (t, ((bearer_token_iff _ s).0 h, ((bearer_token_iff _ t).0 k, same))))
      | inr (h, (k, same)) ↦ inr (
        (bearer_token-none_iff _).0 h,
        (
          (bearer_token-none_iff _).0 k,
          (_, ((forwarded_for_iff _ _ _).1 refl, (forwarded_for_iff _ _ _).1 same)),
        ),
      )
    ],
    λ h. elim h [
      | inl (s, (t, (b, (c, same)))) ↦
          by_token _ _ _ _ s t ((bearer_token_iff _ s).1 b) ((bearer_token_iff _ t).1 c) same
      | inr (f, (g, (address, (from, from')))) ↦
          by_address _ _ _ _ ((bearer_token-none_iff _).1 f) ((bearer_token-none_iff _).1 g)
            (sym ((forwarded_for_iff _ _ _).0 from) ∙ (forwarded_for_iff _ _ _).0 from')
    ],
  )
