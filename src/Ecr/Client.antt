-- ===== src/Ecr/Client.antt =====
-- aws/ecr/requests.ts and client.ts: the requests to ECR, whose errors carry the type that AWS gives, and the
-- status of an image. What ECR sends back is a parameter.
use aws_mcp_gateway.Base.{
  ℕ, Bool, false, ◌||◌, Option, none, some, or_else, String, List, [], ◌∷◌, is_empty, is_some,
  length, ◌==◌, string_eq, if◌then◌else◌,
}
use aws_mcp_gateway.Errors.{Result, ok, thrown, gateway_error, aws_request_failed}
use aws_mcp_gateway.Js.{Value, end, field, text, undefined}
use aws_mcp_gateway.Js.Numbers.{Num}
use aws_mcp_gateway.Capabilities.{AwsCapabilityDefinition, get_aws_capability}
use aws_mcp_gateway.Telemetry.{record_aws_request}
use aws_mcp_gateway.Credentials.{AwsCredentials}
use aws_mcp_gateway.Cache.Keys.{Hashing, build_cache_key}
use aws_mcp_gateway.Aws.{
  Io, ◌>>=◌, ◌>>◌, lift, Kept, cached_or, read_cache, write_cache, Body, empty, no_json, json,
  sending, foreign_error,
}
use aws_mcp_gateway.Ecs.Parse.{after_last, if_given}
use aws_mcp_gateway.Ecr.{
  EcrImageStatusResult, ScanCounts, RawImage, scan_of, validate_repository_name,
  validate_image_selector, normalize_image_detail, pick_image_from_response,
  build_not_found_image_status,
}

-- What a request to ECR comes to: an answer that is fine, or an error with the type that its body names, or an
-- end by the time limit, or a failure.
pub data EcrDelivery (A : Type 0) : Type 0 where
  fine : Body A → EcrDelivery A
  refused : Option String → EcrDelivery A
  timed_out failed : EcrDelivery A

-- What a request has given, where the error of ECR is caught: `undefined` is none.
pub data Reply (A : Type 0) : Type 0 where
  replied : Option A → Reply A
  ecr_error : Option String → String → Reply A

-- `parseAwsErrorType` on the type that the body names
unfoldable pub parse_aws_error_type : Option String → Option String
unfolding if_given
parse_aws_error_type none = none
parse_aws_error_type (some raw) =
    if is_empty raw then none else some (or_else (after_last b'#' raw) raw)

body_reply : {A : Type 0} → Body A → Reply A
body_reply empty = replied none
body_reply no_json = ecr_error none "ECR request failed."
body_reply (json a) = replied (some a)

unfoldable pub reply_of : {E A : Type 0} → String → String → EcrDelivery A → Io E (Reply A)
unfolding parse_aws_error_type body_reply
reply_of id region (fine body) s = (
  ok (body_reply body),
  record s { execution = record_aws_request s.execution (id, some region) },
)
reply_of id region (refused raw) s =
    (ok (ecr_error (parse_aws_error_type raw) "ECR request failed."), s)
reply_of id region timed_out s = (ok (ecr_error none "ECR request timed out."), s)
reply_of id region failed s = (ok (ecr_error none "ECR request failed."), s)

unfoldable pub request_if_known :
    {E A : Type 0}
    → Option AwsCapabilityDefinition
    → String
    → String
    → AwsCredentials
    → (ℕ → EcrDelivery A)
    → Io E (Reply A)
unfolding reply_of
request_if_known none id region credentials deliver s = (thrown foreign_error, s)
request_if_known (some c) id region credentials deliver s =
    reply_of id region (deliver (length s.sent)) (sending id "ecr" region credentials s)

-- `ecrRequest`
unfoldable pub ecr_request :
    {E A : Type 0} → String → String → AwsCredentials → (ℕ → EcrDelivery A) → Io E (Reply A)
unfolding request_if_known
ecr_request id region credentials deliver =
    request_if_known (get_aws_capability id) id region credentials deliver

-- `new EcrError("aws_request_failed", message)` that is thrown on
unfoldable pub ecr_thrown : {A : Type 0} → String → Result A
ecr_thrown message = thrown (gateway_error aws_request_failed message)

-- What ECR sends back, by the number of requests before, the region, the credentials and the repository:
-- the images for a tag or a digest, the counts of a scan of a digest, and the text of the lifecycle policy.
pub record Ecr : Type 0 where
  pub images :
      ℕ
      → String
      → AwsCredentials
      → String
      → Option String
      → Option String
      → EcrDelivery (Option (List RawImage))
  pub scans : ℕ → String → AwsCredentials → String → String → EcrDelivery (Option ScanCounts)
  pub policies : ℕ → String → AwsCredentials → String → EcrDelivery (Option String)

-- `isRepositoryNotFoundError` and its like, on the type of an error
unfoldable pub has_type : String → Option String → Bool
has_type name none = false
has_type name (some type_name) = type_name == name

is_not_found : Option String → Bool
unfolding has_type
is_not_found type_name =
    has_type "RepositoryNotFoundException" type_name || has_type "ImageNotFoundException" type_name

-- `status.scanStatus !== "COMPLETE" && status.scanStatus !== "FAILED"`, negated
is_scanned : Option String → Bool
unfolding has_type
is_scanned status = has_type "COMPLETE" status || has_type "FAILED" status

with_counts : EcrImageStatusResult → Option ScanCounts → EcrImageStatusResult
with_counts status none = status
with_counts status (some counts) = record status { scan_summary = some (scan_of counts) }

-- the status behind the answer on a scan
scanned : EcrImageStatusResult → Reply (Option ScanCounts) → Result EcrImageStatusResult
unfolding with_counts ecr_thrown has_type
scanned status (replied none) = thrown foreign_error
scanned status (replied (some counts)) = ok (with_counts status counts)
scanned status (ecr_error type_name message) =
    if has_type "ScanNotFoundException" type_name
      || has_type "UnsupportedImageTypeException" type_name
    then ok status
    else ecr_thrown message

-- the status behind the answer on the lifecycle policy
with_policy : EcrImageStatusResult → Reply (Option String) → Result EcrImageStatusResult
unfolding if_given ecr_thrown has_type
with_policy status (replied none) = thrown foreign_error
with_policy status (replied (some policy)) =
    ok (record status { has_lifecycle_policy = some (is_some (if_given policy)) })
with_policy status (ecr_error type_name message) =
    if has_type "LifecyclePolicyNotFoundException" type_name
    then ok (record status { has_lifecycle_policy = some false })
    else if has_type "RepositoryNotFoundException" type_name
    then ok status
    else ecr_thrown message

-- the key's value of an option that may be left out
optional_text : Option String → Value
optional_text none = undefined
optional_text (some s) = text s

module _ (to_iso_string : Num → String) (repository region : String) where
  -- the first image of a response
  first_image : List RawImage → EcrImageStatusResult
  first_image [] = build_not_found_image_status region repository
  first_image (image ∷ images) = normalize_image_detail to_iso_string region repository image

  -- the status behind the answer on the images, which a tag or a digest may select
  image_status : Bool → Reply (Option (List RawImage)) → Result EcrImageStatusResult
  unfolding first_image is_not_found ecr_thrown
  image_status selected (replied none) = thrown foreign_error
  image_status selected (replied (some images)) = ok (
      if selected
      then first_image (or_else images [])
      else pick_image_from_response to_iso_string (or_else images []) region repository)
  image_status selected (ecr_error type_name message) =
      if is_not_found type_name
      then ok (build_not_found_image_status region repository)
      else ecr_thrown message

module _ (ecr : Ecr) (hashing : Hashing) (to_iso_string : Num → String) {E : Type 0} where
  module _ (repository region : String) (credentials : AwsCredentials) where
    -- `describeImages`, `describeImageScanFindings` and `getLifecyclePolicy`
    unfoldable pub describe_images :
        Option String → Option String → Io E (Reply (Option (List RawImage)))
    describe_images tag digest =
        ecr_request "ecr:DescribeImages" region credentials
          (λ n. ecr.images n region credentials repository tag digest)

    unfoldable pub describe_image_scan_findings : String → Io E (Reply (Option ScanCounts))
    describe_image_scan_findings digest =
        ecr_request "ecr:DescribeImageScanFindings" region credentials
          (λ n. ecr.scans n region credentials repository digest)

    unfoldable pub get_lifecycle_policy : Io E (Reply (Option String))
    get_lifecycle_policy =
        ecr_request "ecr:GetLifecyclePolicy" region credentials
          (λ n. ecr.policies n region credentials repository)

    -- `enrichScanFindings` on a status that was found, with its digest
    unfoldable pub scan_for : EcrImageStatusResult → Option String → Io E EcrImageStatusResult
    unfolding scanned is_scanned
    scan_for status none = lift (ok status)
    scan_for status (some digest) =
        if is_scanned status.scan_status
        then (describe_image_scan_findings digest >>= λ reply. lift (scanned status reply))
        else lift (ok status)

    unfoldable pub enrich_scan_findings : EcrImageStatusResult → Io E EcrImageStatusResult
    unfolding scan_for
    enrich_scan_findings status =
        if status.found then scan_for status (if_given status.image_digest) else lift (ok status)

    -- `enrichLifecyclePolicy`
    unfoldable pub enrich_lifecycle_policy : EcrImageStatusResult → Io E EcrImageStatusResult
    unfolding with_policy
    enrich_lifecycle_policy status =
        if status.found
        then (get_lifecycle_policy >>= λ reply. lift (with_policy status reply))
        else lift (ok status)

    unfoldable pub enriched : EcrImageStatusResult → Io E EcrImageStatusResult
    enriched status =
        if status.found
        then enrich_scan_findings status >>= enrich_lifecycle_policy
        else lift (ok status)

    -- `getImageStatus`
    unfoldable pub get_image_status :
        Kept E EcrImageStatusResult → Option String → Option String → Io E EcrImageStatusResult
    unfolding image_status enriched optional_text if_given
    get_image_status kept tag digest = do
      lift (validate_repository_name repository)
      lift (validate_image_selector tag digest)
      let key = build_cache_key hashing "get_ecr_image_status" (
          field "repositoryName" (text repository) (
            field "region" (text region) (
              field "imageTag" (optional_text tag)
                (field "imageDigest" (optional_text digest) end))))
      found ← read_cache key
      cached_or kept found (do
        reply ← describe_images tag digest
        first ← lift (
            image_status to_iso_string repository region
              (is_some (if_given tag) || is_some (if_given digest)) reply)
        status ← enriched first
        write_cache key (kept.keep status)
        lift (ok status))
