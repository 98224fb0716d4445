-- ===== src/Aws/Answers.antt =====
-- A request whose answer is changed comes to what it came to before, changed alike.
use mathlib.Core.Option
use aws_mcp_gateway.Base.{
  length, ℕ, ◌≡◌, refl, ◌&&◌, Option, none, some, String, Bool-cases, inl, inr, leb, ◌!=◌,
  string_eq,
}
use aws_mcp_gateway.Errors.{Result, ok, thrown}
use aws_mcp_gateway.Capabilities.{AwsCapabilityDefinition, get_aws_capability}
use aws_mcp_gateway.Credentials.{AwsCredentials}
use aws_mcp_gateway.Aws.{
  Cloud, Body, empty, no_json, json, Delivery, answered, cut_off, timed_out, failed,
  expected_service, body_of, when_ok, response_of, sending, request_for, aws_request,
}

module _ {A B : Type 0} (f : A → B) where
  abbrev changed_body : Body A → Body B
  changed_body empty = empty
  changed_body no_json = no_json
  changed_body (json a) = json (f a)

  abbrev pub changed : Delivery A → Delivery B
  changed (answered status body) = answered status (changed_body body)
  changed (cut_off status late) = cut_off status late
  changed timed_out = timed_out
  changed failed = failed

  abbrev changed_result : Result (Option A) → Result (Option B)
  changed_result (ok a) = ok (Option.map f a)
  changed_result (thrown e) = thrown e

  abbrev pub changed_end : {E : Type 0} → Result (Option A) × Cloud E → Result (Option B) × Cloud E
  changed_end (result, s) = (changed_result result, s)

  body_of-changed : (body : Body A) → body_of (changed_body body) ≡ changed_result (body_of body)
  unfolding body_of
  body_of-changed empty = refl
  body_of-changed no_json = refl
  body_of-changed (json a) = refl

  when_ok-changed :
      {E : Type 0} (id region : String) (status : ℕ) (result : Result (Option A)) (s : Cloud E)
      → when_ok id region status (changed_result result) s
        ≡ changed_end (when_ok id region status result s)
  unfolding when_ok
  when_ok-changed id region status result s = elim (Bool-cases (leb 200 status && leb status 299)) [
    | inl fine ↦ rw fine
    | inr wrong ↦ rw wrong
  ]

  response_of-changed :
      {E : Type 0} (id region : String) (d : Delivery A) (s : Cloud E)
      → response_of id region (changed d) s ≡ changed_end (response_of id region d s)
  unfolding response_of
  response_of-changed id region (answered status body) s =
      rw (body_of-changed body) (when_ok-changed id region status (body_of body) s)
  response_of-changed id region (cut_off status late) s =
      when_ok-changed id region status (thrown _) s
  response_of-changed id region timed_out s = refl
  response_of-changed id region failed s = refl

  request_for-changed :
      {E : Type 0} (found : Option AwsCapabilityDefinition) (id service region : String)
      (credentials : AwsCredentials) (deliver : ℕ → Delivery A) (s : Cloud E)
      → request_for found id service region credentials (λ n. changed (deliver n)) s
        ≡ changed_end (request_for found id service region credentials deliver s)
  unfolding request_for
  request_for-changed none id service region credentials deliver s = refl
  request_for-changed (some c) id service region credentials deliver s =
      elim (Bool-cases (service != expected_service c)) [
        | inl other ↦ rw other
        | inr same ↦ rw same (
            response_of-changed id region (deliver (length s.sent))
              (sending id service region credentials s))
      ]

  pub aws_request-changed :
      {E : Type 0} (id service region : String) (credentials : AwsCredentials)
      (deliver : ℕ → Delivery A) (s : Cloud E)
      → aws_request id service region credentials (λ n. changed (deliver n)) s
        ≡ changed_end (aws_request id service region credentials deliver s)
  unfolding aws_request
  aws_request-changed id service region credentials deliver s =
      request_for-changed (get_aws_capability id) id service region credentials deliver s
