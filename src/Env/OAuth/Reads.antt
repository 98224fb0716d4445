-- ===== src/Env/OAuth/Reads.antt =====
-- What the reads and checks of the OAuth settings find, where they push no error.
use aws_mcp_gateway.Base.{
  Bool, false, ◌≡◌, refl, sym, ◌∙◌, inl, inr, true, Bool-cases, Option, none, some, String, List,
  [], string_eq, string_eq_iff, arith, ◌<>◌, subst,
}
use text.Mathlib.TextLemmas.{cons-append}
use mathlib.Core.Bool.{or-true}
use mathlib.Core.Option.{some-injective}
use aws_mcp_gateway.Auth.Claims.{ends_with}
use aws_mcp_gateway.Js.{Fields}
use aws_mcp_gateway.Env.OAuth.{OAuthValues, read_unless, read_oauth_values}
use aws_mcp_gateway.Env.Urls.{
  jwks_of, validate_introspection_url, validate_jwks_uri, Url, UrlParser, accept_or, https_problem,
  origin_problem, origin_of, normalize_https_origin, with_slash, when_some, validate_https_url,
  validate_origin_url, validate_issuer_url,
}
use aws_mcp_gateway.Env.Errors.{IsThere, accept_or-nil, pushed-ne-nil, mode-nil, required-nil}

ends_with-append : (s : String) → ends_with "/" (s <> "/") ≡ true
unfolding ends_with
ends_with-append String.[] = refl
ends_with-append (String.◌∷◌ c s) = rw (cons-append c s "/", ends_with-append s) (or-true _)

with_slash-ends : (s : String) → ends_with "/" (with_slash s) ≡ true
unfolding with_slash
with_slash-ends s = elim (Bool-cases (ends_with "/" s)) [
  | inl slash ↦ rw slash slash
  | inr none' ↦ rw none' (ends_with-append s)
]

https_ok :
    (o : Option Url)
    → https_problem o ≡ none
    → (url : Url) × ((o ≡ some url) × (url.protocol ≡ "https:"))
unfolding https_problem
https_ok none h = cc
https_ok (some url) h = (url, (refl, ground (arith, string_eq_iff url.protocol "https:")))

origin_ok :
    (key : String) (o : Option Url) (es : List String)
    → (origin_of key o es).1 ≡ []
    → (es ≡ [])
      × ((url : Url) × ((o ≡ some url)
            × ((origin_of key o es).0 ≡ some (normalize_https_origin url))))
unfolding origin_of
origin_ok key none es h = absurd (pushed-ne-nil es _ h)
origin_ok key (some url) es h =
    let (e, (_, v)) = accept_or-nil key (origin_problem url) _ es h in (e, (url, (refl, v)))

jwks_of-nil :
    (value : String) (o : Option Url) (es : List String) → (jwks_of value o es).1 ≡ [] → es ≡ []
unfolding jwks_of
jwks_of-nil value none es h = absurd (pushed-ne-nil es _ h)
jwks_of-nil value (some url) es h = (accept_or-nil _ _ _ es h).0

module _ (parse_url : UrlParser) where
  -- The origin of an https URL.
  abbrev pub IsHttpsOrigin : String → Type 0
  IsHttpsOrigin s =
      (raw : String) × ((url : Url) × ((parse_url raw ≡ some url)
          × ((url.protocol ≡ "https:") × (s ≡ normalize_https_origin url))))

  origin-step :
      (key value : String) (es : List String) (p : Option String)
      → https_problem (parse_url value) ≡ p
      → (when_some (accept_or key p value es) (λ v es'. origin_of key (parse_url v) es')).1 ≡ []
      → (es ≡ [])
        × ((u : String) × (((when_some
                  (accept_or key p value es)
                  (λ v es'. origin_of key (parse_url v) es')).0
                ≡ some u)
              × IsHttpsOrigin u))
  unfolding when_some
  origin-step key value es (some problem) e h = absurd (pushed-ne-nil es _ h)
  origin-step key value es none e h =
      let (url, (parsed, https)) = https_ok (parse_url value) e in
      let (none', (url', (parsed', found))) = origin_ok key (parse_url value) es h in
      (
        none',
        (
          normalize_https_origin url',
          (
            found,
            (
              value,
              (
                url',
                (
                  parsed',
                  (
                    subst (λ u. u.protocol ≡ "https:") (some-injective _ _ (sym parsed ∙ parsed'))
                        https,
                    refl,
                  ),
                ),
              ),
            ),
          ),
        ),
      )

  origin-nil :
      (key value : String) (es : List String)
      → (validate_origin_url parse_url key value es).1 ≡ []
      → (es ≡ [])
        × ((u : String) × (((validate_origin_url parse_url key value es).0 ≡ some u)
              × IsHttpsOrigin u))
  unfolding validate_origin_url validate_https_url
  origin-nil key value es h = origin-step key value es _ refl h

  issuer-step :
      (value : String) (es : List String) (p : Option String)
      → (when_some (accept_or "OAUTH_ISSUER" p value es) (λ v es'. (some (with_slash v), es'))).1
        ≡ []
      → (es ≡ [])
        × ((u : String) × (((when_some
                  (accept_or "OAUTH_ISSUER" p value es)
                  (λ v es'. (some (with_slash v), es'))).0
                ≡ some u)
              × (ends_with "/" u ≡ true)))
  unfolding when_some
  issuer-step value es (some problem) h = absurd (pushed-ne-nil es _ h)
  issuer-step value es none h = (h, (with_slash value, (refl, with_slash-ends value)))

  issuer-nil :
      (value : String) (es : List String)
      → (validate_issuer_url parse_url value es).1 ≡ []
      → (es ≡ [])
        × ((u : String) × (((validate_issuer_url parse_url value es).0 ≡ some u)
              × (ends_with "/" u ≡ true)))
  unfolding validate_issuer_url validate_https_url
  issuer-nil value es h = issuer-step value es _ h

  jwks-step :
      (value : String) (es : List String) (p : Option String)
      → (when_some (accept_or "OAUTH_JWKS_URI" p value es) (λ v es'. jwks_of v (parse_url v) es')).1
        ≡ []
      → es ≡ []
  unfolding when_some
  jwks-step value es (some problem) h = absurd (pushed-ne-nil es _ h)
  jwks-step value es none h = jwks_of-nil value _ es h

  jwks-nil :
      (value : String) (es : List String) → (validate_jwks_uri parse_url value es).1 ≡ [] → es ≡ []
  unfolding validate_jwks_uri validate_https_url
  jwks-nil value es h = jwks-step value es _ h

  introspection-nil :
      (value : String) (es : List String)
      → (validate_introspection_url parse_url value es).1 ≡ []
      → es ≡ []
  unfolding validate_introspection_url validate_https_url
  introspection-nil value es h = (accept_or-nil _ _ _ es h).0

-- a step that is taken only where there is a value, and what it leaves
when_some-back :
    (o : Option String × List String) (f : String → List String → Option String × List String)
    → ((v : String) (es : List String) → (f v es).1 ≡ [] → es ≡ [])
    → (when_some o f).1 ≡ []
    → o.1 ≡ []
unfolding when_some
when_some-back (none, es) f step h = h
when_some-back (some v, es) f step h = step v es h

when_some-found :
    (P : String → Type 0) (o : Option String) (es : List String)
    (f : String → List String → Option String × List String)
    → ((v : String) → (f v es).1 ≡ [] → (es ≡ []) × ((u : String) × (((f v es).0 ≡ some u) × P u)))
    → IsThere o
    → (when_some (o, es) f).1 ≡ []
    → (es ≡ []) × ((u : String) × (((when_some (o, es) f).0 ≡ some u) × P u))
unfolding when_some
when_some-found P none es f step (v, e) h = absurd (cc e)
when_some-found P (some v) es f step there h = step v h

read_unless-nil :
    (optional : Bool) (b : Fields) (key : String) (es : List String)
    → (read_unless optional b key es).1 ≡ []
    → es ≡ []
unfolding read_unless
read_unless-nil true b key es h = h
read_unless-nil false b key es h = (required-nil b key es h).0

module _ (parse_url : UrlParser) where
  -- What the values are where no error was pushed.
  abbrev pub AreRead : OAuthValues → Type 0
  AreRead v =
      ((r : String) × ((v.resource ≡ some r) × IsHttpsOrigin parse_url r))
      × (((a : String) × ((v.audience ≡ some a) × IsHttpsOrigin parse_url a))
          × ((i : String) × ((v.issuer ≡ some i) × (ends_with "/" i ≡ true))))

  pub read_oauth_values-AreRead :
      (b : Fields)
      → (read_oauth_values parse_url b).1 ≡ []
      → AreRead (read_oauth_values parse_url b).0
  unfolding read_oauth_values
  read_oauth_values-AreRead b h14 =
      let h13 = when_some-back _ _ (introspection-nil parse_url) h14 in
      let h12 = when_some-back _ _ (jwks-nil parse_url) h13 in
      let h11 =
        when_some-back _ _ (λ v es h. (origin-nil parse_url "OAUTH_AUDIENCE" v es h).0) h12 in
      let h10 = when_some-back _ _ (λ v es h. (issuer-nil parse_url v es h).0) h11 in
      let h9 =
        when_some-back _ _ (λ v es h. (origin-nil parse_url "MCP_RESOURCE_URL" v es h).0) h10 in
      let h8 = read_unless-nil _ b _ _ h9 in
      let h7 = read_unless-nil _ b _ _ h8 in
      let h6 = read_unless-nil _ b _ _ h7 in
      let h5 = read_unless-nil _ b _ _ h6 in
      let h4 = mode-nil _ _ h5 in
      let (h3, _) = required-nil b _ _ h4 in
      let (h2, audience) = required-nil b _ _ h3 in
      let (h1, issuer) = required-nil b _ _ h2 in
      let (h0, resource) = required-nil b _ _ h1 in
      (
        (when_some-found (IsHttpsOrigin parse_url) _ _ _ (λ v. origin-nil parse_url _ v _) resource
            h10).1,
        (
          (when_some-found (IsHttpsOrigin parse_url) _ _ _ (λ v. origin-nil parse_url _ v _)
              audience h12).1,
          (when_some-found (λ i. ends_with "/" i ≡ true) _ _ _ (λ v. issuer-nil parse_url v _)
              issuer h11).1,
        ),
      )
