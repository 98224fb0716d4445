-- ===== src/Tests/Cloud.antt =====
-- The clients of AWS at concrete answers.
use aws_mcp_gateway.Base.{
  ℕ, zero, suc, ◌≡◌, ◌≤◌, ◌<◌, refl, Bool, false, Option, none, some, String, List, [], ◌∷◌, length,
  arith, ◌==◌, string_eq, if◌then◌else◌,
}
use aws_mcp_gateway.Errors.{ok}
use aws_mcp_gateway.Js.{end, field, text, boolean}
use aws_mcp_gateway.Js.Numbers.{Num, whole}
use aws_mcp_gateway.Credentials.{AwsCredentials, from_assume_role}
use aws_mcp_gateway.Telemetry.{reset}
use aws_mcp_gateway.Cache.Keys.{Serialized, string_key, Hashing, build_cache_key}
use aws_mcp_gateway.Aws.{Cloud, Namespace, Kept, Delivery, answered, Body, json, lift, ◌>>=◌}
use aws_mcp_gateway.Aws.Reads.{OnlyReads}
use aws_mcp_gateway.Ecs.{validate_task_limit}
use aws_mcp_gateway.Ecs.Parse.{
  EcsServiceHealth, EcsTaskSummary, EcsStoppedTaskDiagnostic, RawService, RawTask,
  normalize_service_health, extract_arn_suffix,
}
use aws_mcp_gateway.Ecs.Requests.{
  get_task_definition_metadata, Ecs, ListTasksRequest, describe_tasks,
}
use aws_mcp_gateway.Ecs.Tasks.{collected, collect_from, collect_task_arns, batches_of}
use aws_mcp_gateway.Ecs.Pages.{IsEnded, collect_task_arns-IsEnded}
use aws_mcp_gateway.Ecs.Reports.{get_service_health, stopped_in}
use aws_mcp_gateway.Ecs.Shared.{get_service_health-shared}
use aws_mcp_gateway.Ecs.Recent.{first_recent, stopped_in-eq-first_recent}
use aws_mcp_gateway.Ecs.Images.{EcsEcrImageComparisonResult, compare_service_image_with_ecr}
use aws_mcp_gateway.Ecs.Images.Secrets.{
  without_secrets, compare_service_image_with_ecr-without_secrets,
}
use aws_mcp_gateway.Ecs.Images.Reads.{compare_service_image_with_ecr-OnlyReads}
use aws_mcp_gateway.Ecr.{EcrImageStatusResult, RawImage, parse_ecr_image_reference}
use aws_mcp_gateway.Ecr.Client.{Ecr, fine, refused}

-- what the tools keep in one namespace
data Entry : Type 0 where
  health : EcsServiceHealth → Entry
  image : EcrImageStatusResult → Entry
  comparison : EcsEcrImageComparisonResult → Entry

abbrev health_in : Entry → Option EcsServiceHealth
health_in (health h) = some h
health_in (image i) = none
health_in (comparison c) = none

abbrev image_kept : Entry → Option EcrImageStatusResult
image_kept (health h) = none
image_kept (image i) = some i
image_kept (comparison c) = none

abbrev comparison_in : Entry → Option EcsEcrImageComparisonResult
comparison_in (health h) = none
comparison_in (image i) = none
comparison_in (comparison c) = some c

abbrev healths : Kept Entry EcsServiceHealth
healths = record { keep = health; kept = health_in; kept-keep = λ h. refl }

abbrev statuses : Kept Entry EcrImageStatusResult
statuses = record { keep = image; kept = image_kept; kept-keep = λ i. refl }

abbrev comparisons : Kept Entry EcsEcrImageComparisonResult
comparisons = record { keep = comparison; kept = comparison_in; kept-keep = λ c. refl }

-- a digest that keeps its text, so that keys that differ stay apart
abbrev shown : Serialized → String
shown (string_key s) = s
shown other = "?"

abbrev plain : Hashing
plain = record { stringify = shown; sha256_hex = λ s. s }

abbrev of_account : String → AwsCredentials
of_account id = record {
  access_key_id = id;
  secret_access_key = "s";
  session_token = none;
  expires_at = none;
  source = some from_assume_role;
}

-- a service whose roll-out tells the account that asked
abbrev service_of : String → RawService
service_of account = record {
  status = some "ACTIVE";
  desired_count = some (whole 2);
  running_count = some (whole 2);
  pending_count = none;
  launch_type = none;
  task_definition = some "arn:aws:ecs:eu-west-1:1:task-definition/api:7";
  capacity_provider_strategy = none;
  deployments = some (record { status = none; rollout_state = some account } ∷ []);
  events = none;
}

abbrev task_with : String → Option String → RawTask
task_with digest stopped_at = record {
  task_arn = some "arn:aws:ecs:eu-west-1:1:task/main/t1";
  task_definition_arn = none;
  last_status = none;
  desired_status = none;
  health_status = none;
  started_at = none;
  stopped_at = stopped_at;
  stop_code = none;
  stopped_reason = none;
  availability_zone = none;
  containers = some (
      record {
        name = none;
        last_status = none;
        image = none;
        image_digest = some digest;
        exit_code = none;
        reason = none;
      }
      ∷ []);
}

-- a listing that always has two tasks and a next page
abbrev busy : Ecs
busy = record {
  clusters = λ n region credentials names.
      answered 200 (json (record { clusters = some (some "main" ∷ []); failures = none }));
  services = λ n region credentials cluster names. answered 200 (
      json
        (record { services = some (service_of credentials.access_key_id ∷ []); failures = none }));
  task_arns = λ n region credentials request.
      answered 200 (json (record { task_arns = some ("a" ∷ "b" ∷ []); next_token = some "next" }));
  tasks = λ n region credentials cluster arns. answered 200 (
      json (record {
        tasks = some (task_with "sha256:1" (some "old") ∷ task_with "sha256:1" (some "new") ∷ []);
      }));
  task_definitions = λ n region credentials name. answered 200 (
      json (record {
        task_definition = some (record {
          family = some "api";
          revision = some (whole 7);
          cpu = none;
          memory = none;
          container_definitions = some (
              record {
                name = some "api";
                image = some "1.dkr.ecr.eu-west-1.amazonaws.com/api:v1";
                cpu = none;
                memory = none;
                memory_reservation = none;
                environment = some (record { name = some "KEY"; value = some "hidden" } ∷ []);
                secrets = none;
                secret_options = none;
              }
              ∷ []);
        });
      }));
}

abbrev image_details : RawImage
image_details = record {
  image_digest = some "sha256:1";
  image_tags = some ("v1" ∷ []);
  image_pushed_at = none;
  image_size_in_bytes = none;
  image_scan_status = none;
  image_scan_finding_summary = none;
}

abbrev stocked : Ecr
stocked = record {
  images = λ n region credentials repository tag digest. fine (json (some (image_details ∷ [])));
  scans = λ n region credentials repository digest. refused (some "x#ScanNotFoundException");
  policies = λ n region credentials repository. refused (some "LifecyclePolicyNotFoundException");
}

abbrev cold : Cloud Entry
cold = record {
  cache = some (record { entries = λ key. none; throws = λ n. false });
  execution = reset;
  sent = [];
}

three_of_endless :
    (collect_task_arns busy {E = Entry} "eu-west-1" (of_account "1") "main" none none 3 cold).0
    ≡ ok ("a" ∷ "b" ∷ "a" ∷ [])
unfolding collect_task_arns collect_from aws_mcp_gateway.Ecs.Requests.list_tasks
    aws_mcp_gateway.Aws.aws_request aws_mcp_gateway.Capabilities.get_aws_capability
    aws_mcp_gateway.Capabilities.aws_capability_registry aws_mcp_gateway.Aws.defined
three_of_endless = refl

task_of_arn : extract_arn_suffix "arn:aws:ecs:eu-west-1:1:task/main/t1" ≡ "t1"
unfolding extract_arn_suffix
task_of_arn = refl

arn_with_slash : extract_arn_suffix "arn:aws:ecs:task/" ≡ "task/"
unfolding extract_arn_suffix
arn_with_slash = refl

-- the repository of an image with both a tag and a digest is not seen
tag_and_digest :
    (parse_ecr_image_reference "1.dkr.ecr.eu-west-1.amazonaws.com/api:v1@sha256:1"
      "api").matches_repository
    ≡ false
unfolding parse_ecr_image_reference
tag_and_digest = refl

tagged :
    (parse_ecr_image_reference "1.dkr.ecr.eu-west-1.amazonaws.com/api:v1" "api").tag ≡ some "v1"
unfolding parse_ecr_image_reference
tagged = refl

order_of_keys :
    build_cache_key plain "t" (field "b" (text "2") (field "a" (text "1") end)) ≡ "ce:t:a=1&b=2"
unfolding build_cache_key aws_mcp_gateway.Cache.Keys.normalize_params aws_mcp_gateway.Base.join
    aws_mcp_gateway.Cache.Keys.serialize_fields aws_mcp_gateway.Base.is_before
order_of_keys = refl

collect_task_arns-IsEnded_example :
    IsEnded 3
      (collect_from busy {E = Entry} "eu-west-1"
        (of_account "1")
        "main"
        none
        none
        3
        4
        []
        none
        cold).0
    × (3 ≤ 100)
unfolding validate_task_limit aws_mcp_gateway.Js.Numbers.is_positive_integer
    aws_mcp_gateway.Ecs.integer_of
collect_task_arns-IsEnded_example =
    collect_task_arns-IsEnded busy "eu-west-1" (of_account "1") "main" none none (some (whole 3)) 3
      cold refl

abbrev after_first : Cloud Entry
after_first =
    (get_service_health busy plain healths "main" "api" "eu-west-1" (of_account "1") cold).1

-- the account that asks second is answered with what the first one was told
get_service_health-shared_example :
    (s2 : Cloud Entry) × (get_service_health busy plain healths "main" "api" "eu-west-1"
        (of_account "2")
        after_first
      ≡ (ok (normalize_service_health "main" "api" "eu-west-1" (service_of "1")), s2))
    × (s2.sent ≡ after_first.sent)
unfolding get_service_health aws_mcp_gateway.Ecs.Reports.validate_cluster_name
    aws_mcp_gateway.Ecs.validate_name aws_mcp_gateway.Base.trim
    aws_mcp_gateway.Ecs.Reports.validate_service_name aws_mcp_gateway.Aws.read_cache
    aws_mcp_gateway.Aws.cached_or aws_mcp_gateway.Cache.cache_read_with_status
    aws_mcp_gateway.Ecs.Tasks.assert_cluster_exists aws_mcp_gateway.Ecs.Requests.describe_clusters
    aws_mcp_gateway.Aws.aws_request aws_mcp_gateway.Capabilities.get_aws_capability
    aws_mcp_gateway.Capabilities.aws_capability_registry aws_mcp_gateway.Aws.defined
    aws_mcp_gateway.Ecs.Requests.describe_services aws_mcp_gateway.Ecs.Reports.service_in
    aws_mcp_gateway.Aws.write_cache aws_mcp_gateway.Aws.expected_service
    aws_mcp_gateway.Aws.response_of aws_mcp_gateway.Aws.sending aws_mcp_gateway.Aws.foreign_error
    aws_mcp_gateway.Base.is_space aws_mcp_gateway.Base.join aws_mcp_gateway.Base.strip_prefix
    aws_mcp_gateway.Base.trim_end aws_mcp_gateway.Base.trim_start build_cache_key
    aws_mcp_gateway.Base.is_before aws_mcp_gateway.Cache.Keys.normalize_params
    aws_mcp_gateway.Cache.Keys.put_field aws_mcp_gateway.Cache.Keys.serialize_fields
    aws_mcp_gateway.Cache.cache_set aws_mcp_gateway.Ecs.Parse.after_last
    aws_mcp_gateway.Ecs.Parse.behind_or extract_arn_suffix aws_mcp_gateway.Ecs.Parse.if_given
    aws_mcp_gateway.Ecs.Parse.normalize_service_events normalize_service_health
    aws_mcp_gateway.Ecs.Parse.normalize_task_definition_ref aws_mcp_gateway.Ecs.Reports.fresh_health
    aws_mcp_gateway.Ecs.Reports.no_service aws_mcp_gateway.Ecs.Tasks.cluster_found
    aws_mcp_gateway.Ecs.Tasks.has_any aws_mcp_gateway.Telemetry.aws_request_key
    aws_mcp_gateway.Telemetry.count_one aws_mcp_gateway.Telemetry.record_aws_request
    aws_mcp_gateway.Telemetry.record_cache_status
get_service_health-shared_example =
    get_service_health-shared busy plain healths "main" "api" "eu-west-1" (of_account "1")
      (of_account "2") (normalize_service_health "main" "api" "eu-west-1" (service_of "1")) cold
      after_first (record { entries = λ key. none; throws = λ n. false }, refl, λ n. refl) refl

abbrev parse_date : String → Option Num
parse_date s = if s == "old" then some (whole 5) else some (whole 50)

stopped_in-eq-first_recent_example :
    stopped_in busy plain {E = Entry} parse_date "main" "eu-west-1"
      (of_account "1")
      (whole 10)
      3
      []
      (batches_of ("a" ∷ "b" ∷ []))
      cold
    ≡ (describe_tasks busy "eu-west-1" (of_account "1") "main" ("a" ∷ "b" ∷ [])
          >>= first_recent busy plain parse_date "main" "eu-west-1" (of_account "1") (whole 10) 3)
        cold
stopped_in-eq-first_recent_example =
    stopped_in-eq-first_recent busy plain parse_date "main" "eu-west-1" (of_account "1") (whole 10)
      3 "a" ("b" ∷ []) cold (omega arith) (omega arith)

compare_service_image_with_ecr-OnlyReads_example : OnlyReads "eu-west-1" (of_account "1") (
    compare_service_image_with_ecr busy stocked plain
      (λ n. "")
      "eu-west-1"
      (of_account "1")
      "main"
      "api"
      "api"
      comparisons
      statuses
      none)
compare_service_image_with_ecr-OnlyReads_example =
    compare_service_image_with_ecr-OnlyReads busy stocked plain (λ n. "") "eu-west-1"
      (of_account "1") "main" "api" "api" comparisons statuses none

compare_service_image_with_ecr-without_secrets_example :
    (compare_service_image_with_ecr
        (without_secrets busy)
        stocked
        plain
        (λ n. "")
        "eu-west-1"
        (of_account "1")
        "main"
        "api"
        "api"
        comparisons
        statuses
        none
        cold
      ≡ compare_service_image_with_ecr busy stocked plain
          (λ n. "")
          "eu-west-1"
          (of_account "1")
          "main"
          "api"
          "api"
          comparisons
          statuses
          none
          cold)
    × (get_task_definition_metadata (without_secrets busy) "eu-west-1" (of_account "1") "api:7" cold
        ≡ get_task_definition_metadata busy "eu-west-1" (of_account "1") "api:7" cold)
compare_service_image_with_ecr-without_secrets_example =
    compare_service_image_with_ecr-without_secrets busy stocked plain (λ n. "") "eu-west-1"
      (of_account "1") "main" "api" "api" comparisons statuses none "api:7" cold
