-- ===== src/Ecr/Reads.antt =====
-- The requests that the status of an image sends.
use aws_mcp_gateway.Base.{◌≡◌, refl, sym, ap, ◌∙◌, ℕ, Option, none, some, String, All}
use aws_mcp_gateway.Js.Numbers.{Num}
use aws_mcp_gateway.Capabilities.{
  AwsCapabilityDefinition, get_aws_capability, get_aws_capability-readonly,
}
use aws_mcp_gateway.Credentials.{AwsCredentials}
use aws_mcp_gateway.Cache.Keys.{Hashing}
use aws_mcp_gateway.Aws.{sending, Cloud, Kept, expected_service}
use aws_mcp_gateway.Aws.Reads.{OnlyReads, IsOwnRead, reads, lift-OnlyReads}
use aws_mcp_gateway.Ecr.{EcrImageStatusResult}
use aws_mcp_gateway.Ecr.Client.{
  Ecr, EcrDelivery, fine, refused, timed_out, failed, reply_of, request_if_known, ecr_request,
  describe_images, describe_image_scan_findings, get_lifecycle_policy, scan_for,
  enrich_scan_findings, enrich_lifecycle_policy, enriched, get_image_status,
}

reply_of-sent :
    {E A : Type 0} (id region : String) (d : EcrDelivery A) (s : Cloud E)
    → (reply_of id region d s).1.sent ≡ s.sent
unfolding reply_of
reply_of-sent id region (fine body) s = refl
reply_of-sent id region (refused raw) s = refl
reply_of-sent id region timed_out s = refl
reply_of-sent id region failed s = refl

module _ (region : String) (credentials : AwsCredentials) where
  request_if_known-keeps :
      {E A : Type 0} (found : Option AwsCapabilityDefinition) (id : String)
      (deliver : ℕ → EcrDelivery A) (s : Cloud E)
      → get_aws_capability id ≡ found
      → ((c : AwsCapabilityDefinition)
          → get_aws_capability id ≡ some c
          → "ecr" ≡ expected_service c)
      → All (IsOwnRead region credentials) s.sent
      → All
          (IsOwnRead region credentials)
          (request_if_known found id region credentials deliver s).1.sent
  unfolding request_if_known sending
  request_if_known-keeps none id deliver s e service h = h
  request_if_known-keeps (some c) id deliver s e service h =
      rw (reply_of-sent id region)
        (((c, e, (get_aws_capability-readonly id c e).1, service c e), refl, refl), h)

-- the service of a capability that may be there
service_if : Option AwsCapabilityDefinition → String
service_if none = "ecr"
service_if (some c) = expected_service c

ecr_capability :
    (id : String) (c : AwsCapabilityDefinition)
    → service_if (get_aws_capability id) ≡ "ecr"
    → get_aws_capability id ≡ some c
    → "ecr" ≡ expected_service c
unfolding service_if
ecr_capability id c h e = sym h ∙ ap service_if e

module _ {region : String} {credentials : AwsCredentials} {E : Type 0} where
  ecr_request-OnlyReads :
      {A : Type 0} (id : String) (deliver : ℕ → EcrDelivery A)
      → service_if (get_aws_capability id) ≡ "ecr"
      → OnlyReads region credentials {E = E} (ecr_request id region credentials deliver)
  unfolding ecr_request
  ecr_request-OnlyReads id deliver service = record {
    keep = λ s h.
        request_if_known-keeps region credentials (get_aws_capability id) id deliver s refl
          (λ c e. ecr_capability id c service e) h;
  }

module _ (ecr : Ecr) (hashing : Hashing) (to_iso_string : Num → String) {E : Type 0}
    (repository region : String) (credentials : AwsCredentials) where
  describe_images-OnlyReads :
      (tag digest : Option String)
      → OnlyReads region credentials {E = E}
          (describe_images ecr hashing to_iso_string repository region credentials tag digest)
  unfolding describe_images service_if get_aws_capability
      aws_mcp_gateway.Capabilities.aws_capability_registry expected_service
  describe_images-OnlyReads tag digest = ecr_request-OnlyReads _ _ refl

  describe_image_scan_findings-OnlyReads :
      (digest : String)
      → OnlyReads region credentials {E = E} (
          describe_image_scan_findings ecr hashing to_iso_string repository region credentials
            digest)
  unfolding describe_image_scan_findings service_if get_aws_capability
      aws_mcp_gateway.Capabilities.aws_capability_registry expected_service
  describe_image_scan_findings-OnlyReads digest = ecr_request-OnlyReads _ _ refl

  get_lifecycle_policy-OnlyReads :
      OnlyReads region credentials {E = E}
        (get_lifecycle_policy ecr hashing to_iso_string repository region credentials)
  unfolding get_lifecycle_policy service_if get_aws_capability
      aws_mcp_gateway.Capabilities.aws_capability_registry expected_service
  get_lifecycle_policy-OnlyReads = ecr_request-OnlyReads _ _ refl

  scan_for-OnlyReads :
      (status : EcrImageStatusResult) (digest : Option String)
      → OnlyReads region credentials {E = E}
          (scan_for ecr hashing to_iso_string repository region credentials status digest)
  unfolding scan_for
  scan_for-OnlyReads status none = lift-OnlyReads _
  scan_for-OnlyReads status (some digest) = search (reads, describe_image_scan_findings-OnlyReads)

  enriched-OnlyReads :
      (status : EcrImageStatusResult)
      → OnlyReads region credentials {E = E}
          (enriched ecr hashing to_iso_string repository region credentials status)
  unfolding enriched enrich_scan_findings enrich_lifecycle_policy
  enriched-OnlyReads status =
      search (reads, scan_for-OnlyReads, get_lifecycle_policy-OnlyReads) depth 12

  pub get_image_status-OnlyReads :
      (kept : Kept E EcrImageStatusResult) (tag digest : Option String)
      → OnlyReads region credentials
          (get_image_status ecr hashing to_iso_string repository region credentials kept tag digest)
  unfolding get_image_status
  get_image_status-OnlyReads kept tag digest =
      search (reads, describe_images-OnlyReads, enriched-OnlyReads) depth 12
