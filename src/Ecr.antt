-- ===== src/Ecr.antt =====
-- aws/ecr/validation.ts, types.ts and parse.ts: the names of repositories and images, and what is handed on of
-- an image.
pub mod Client
pub mod Reads
use Prim.Native.Char.{code}
use Prim.Native.String
use aws_mcp_gateway.Base.{
  ℕ, Bool, true, false, ◌&&◌, ◌||◌, not, Option, none, some, or_else, String, List, [], ◌∷◌, ◌++◌,
  eqb, leb, ltb, trim, units, is_empty, is_some, split, strip_prefix, every, ◌==◌, string_eq,
  if◌then◌else◌,
}
use aws_mcp_gateway.Errors.{Result, ok, thrown, invalid, ◌>>=◌, ◌>>◌}
use aws_mcp_gateway.Js.Numbers.{Num, ratio, nan, whole, num_lt, num_eq}
use aws_mcp_gateway.Profiles.Fields.{throw_if}
use aws_mcp_gateway.Profiles.Patterns.{
  Item, one, run, matches, literal, is_lower, is_decimal, is_word,
}
use aws_mcp_gateway.Ecs.Parse.{after_last, if_given}

is_separator : ℕ → Bool
is_separator c = eqb c b'.' || eqb c b'_' || eqb c b'-'

-- `REPOSITORY_NAME_PATTERN`: between the separators there is at least one character of the class
unfoldable pub is_repository_name : String → Bool
unfolding is_separator
is_repository_name name =
    every (matches (run (λ c. is_lower c || is_decimal c) 1 none ∷ [])) (split is_separator name)

-- `IMAGE_TAG_PATTERN`
image_tag_pattern : List Item
image_tag_pattern = one is_word ∷ run (λ c. is_word c || eqb c b'.' || eqb c b'-') 0 (some 127) ∷ []

is_hex : ℕ → Bool
is_hex c = leb b'a' c && leb c b'f' || is_decimal c

-- `IMAGE_DIGEST_PATTERN`
image_digest_pattern : List Item
unfolding literal is_hex
image_digest_pattern = literal "sha256:" ++ (run is_hex 64 (some 64) ∷ [])

-- `validateRepositoryName`
unfoldable pub validate_repository_name : String → Result (Unit {0})
validate_repository_name name =
    let trimmed = trim name in
    do
      throw_if (is_empty trimmed) "repositoryName is required."
      throw_if (ltb 256 (units trimmed)) "repositoryName must be at most 256 characters."
      throw_if (not (is_repository_name trimmed)) "repositoryName has an invalid format."

-- `validateImageTag`
unfoldable pub validate_image_tag : String → Result (Unit {0})
unfolding image_tag_pattern
validate_image_tag tag =
    let trimmed = trim tag in
    do
      throw_if (is_empty trimmed) "imageTag must be non-empty when provided."
      throw_if (ltb 128 (units trimmed)) "imageTag must be at most 128 characters."
      throw_if (not (matches image_tag_pattern trimmed)) "imageTag has an invalid format."

-- `validateImageDigest`
unfoldable pub validate_image_digest : String → Result (Unit {0})
unfolding image_digest_pattern
validate_image_digest digest =
    let trimmed = trim digest in
    do
      throw_if (is_empty trimmed) "imageDigest must be non-empty when provided."
      throw_if (ltb 80 (units trimmed)) "imageDigest has an invalid format."
      throw_if (not (matches image_digest_pattern trimmed)) "imageDigest must be a sha256 digest."

validate_if_given : (String → Result (Unit {0})) → Option String → Result (Unit {0})
validate_if_given check none = ok tt
validate_if_given check (some s) = if is_empty s then ok tt else check s

-- `validateImageSelector`
unfoldable pub validate_image_selector : Option String → Option String → Result (Unit {0})
unfolding validate_if_given if_given validate_image_tag validate_image_digest
validate_image_selector tag digest = do
  throw_if (is_some (if_given tag) && is_some (if_given digest))
      "Provide imageTag or imageDigest, not both."
  validate_if_given validate_image_tag tag
  validate_if_given validate_image_digest digest

-- `EcrImageScanSummary`
pub record EcrImageScanSummary : Type 0 where
  pub critical_count : Num
  pub high_count : Num

-- `EcrImageStatusResult`
pub record EcrImageStatusResult : Type 0 where
  pub region : String
  pub repository_name : String
  pub found : Bool
  pub image_digest : Option String
  pub tags : Option (List String)
  pub pushed_at : Option String
  pub image_size_in_bytes : Option Num
  pub scan_status : Option String
  pub scan_summary : Option EcrImageScanSummary
  pub has_lifecycle_policy : Option Bool

-- the counts of a scan that ECR sends
pub record ScanCounts : Type 0 where
  pub critical : Option Num
  pub high : Option Num

-- an image of `DescribeImagesResponse`
pub record RawImage : Type 0 where
  pub image_digest : Option String
  pub image_tags : Option (List String)
  pub image_pushed_at : Option Num
  pub image_size_in_bytes : Option Num
  pub image_scan_status : Option String
  pub image_scan_finding_summary : Option ScanCounts

-- The result of `parseEcrImageReference`.
pub record ImageReference : Type 0 where
  pub matches_repository : Bool
  pub tag : Option String
  pub digest : Option String

-- the text before the last place of a character
unfoldable pub before_last : ℕ → String → String
unfolding after_last
before_last c String.[] = String.[]
before_last c (String.◌∷◌ d s) =
    let rest = before_last c s in if is_some (after_last c s) then String.◌∷◌ d rest else String.[]

-- `path.split("/").pop() === repositoryName`
unfoldable pub names_repository : String → String → Bool
unfolding after_last
names_repository path repository = or_else (after_last b'/' path) path == repository

-- the parts of an image without a digest
tagged_reference : Option String → String → String → ImageReference
unfolding before_last names_repository
tagged_reference (some tag) image repository = record {
  matches_repository = names_repository (before_last b':' image) repository;
  tag = some tag;
  digest = none;
}
tagged_reference none image repository = record {
  matches_repository = names_repository image repository;
  tag = none;
  digest = none;
}

reference_of : Option String → String → String → ImageReference
unfolding tagged_reference before_last names_repository after_last
reference_of (some digest) image repository = record {
  matches_repository = names_repository (before_last b'@' image) repository;
  tag = none;
  digest = some digest;
}
reference_of none image repository = tagged_reference (after_last b':' image) image repository

-- `parseEcrImageReference`
unfoldable pub parse_ecr_image_reference : String → String → ImageReference
unfolding reference_of after_last
parse_ecr_image_reference image repository = reference_of (after_last b'@' image) image repository

unfoldable pub scan_of : ScanCounts → EcrImageScanSummary
scan_of counts = record {
  critical_count = or_else counts.critical (whole 0);
  high_count = or_else counts.high (whole 0);
}

-- `normalizeScanSummary`, where the two branches give the same counts
unfoldable pub normalize_scan_summary : Option ScanCounts → Option EcrImageScanSummary
unfolding scan_of
normalize_scan_summary none = none
normalize_scan_summary (some counts) = some (scan_of counts)

later_image : RawImage → RawImage → RawImage
later_image latest current =
    if num_lt (or_else latest.image_pushed_at (whole 0)) (or_else current.image_pushed_at (whole 0))
    then current
    else latest

-- `selectLatestImage` on at least one image
unfoldable pub select_latest_image : RawImage → List RawImage → RawImage
unfolding later_image
select_latest_image latest [] = latest
select_latest_image latest (image ∷ images) = select_latest_image (later_image latest image) images

if_any : Option (List String) → Option (List String)
if_any none = none
if_any (some []) = none
if_any (some (tag ∷ tags)) = some (tag ∷ tags)

-- `buildNotFoundImageStatus`
unfoldable pub build_not_found_image_status : String → String → EcrImageStatusResult
build_not_found_image_status region repository = record {
  region = region;
  repository_name = repository;
  found = false;
  image_digest = none;
  tags = none;
  pushed_at = none;
  image_size_in_bytes = none;
  scan_status = none;
  scan_summary = none;
  has_lifecycle_policy = none;
}

-- `to_iso_string` stands for the platform's `new Date(n).toISOString()`.
module _ (to_iso_string : Num → String) where
  -- a time that is truthy: neither 0 nor `NaN`
  iso_if_given : Option Num → Option String
  iso_if_given none = none
  iso_if_given (some nan) = none
  iso_if_given (some n) = if num_eq n (whole 0) then none else some (to_iso_string n)

  -- `normalizeImageDetail`
  unfoldable pub normalize_image_detail : String → String → RawImage → EcrImageStatusResult
  unfolding if_any iso_if_given if_given normalize_scan_summary
  normalize_image_detail region repository image = record {
    region = region;
    repository_name = repository;
    found = true;
    image_digest = image.image_digest;
    tags = if_any image.image_tags;
    pushed_at = iso_if_given image.image_pushed_at;
    image_size_in_bytes = image.image_size_in_bytes;
    scan_status = if_given image.image_scan_status;
    scan_summary = normalize_scan_summary image.image_scan_finding_summary;
    has_lifecycle_policy = none;
  }

  -- `pickImageFromResponse` on the images of the response
  unfoldable pub pick_image_from_response : List RawImage → String → String → EcrImageStatusResult
  unfolding build_not_found_image_status normalize_image_detail select_latest_image
  pick_image_from_response [] region repository = build_not_found_image_status region repository
  pick_image_from_response (image ∷ images) region repository =
      normalize_image_detail region repository (select_latest_image image images)
