-- ===== src/Ecs/Images.antt =====
-- aws/ecs/image-compare.ts: whether the tasks of a service run the image that ECR has.
pub mod Matches
pub mod Reads
pub mod Secrets
use aws_mcp_gateway.Base.{
  ℕ, Bool, true, false, ◌&&◌, ◌||◌, not, Option, none, some, or_else, String, List, [], ◌∷◌, ◌++◌,
  map, every, set_add, sort_texts, is_empty, is_some, ◌<>◌, ◌==◌, string_eq, if◌then◌else◌,
}
use aws_mcp_gateway.Errors.{Result, ok, thrown, gateway_error, not_found}
use aws_mcp_gateway.Js.{Fields, end, field, text}
use aws_mcp_gateway.Js.Numbers.{Num}
use aws_mcp_gateway.Credentials.{AwsCredentials}
use aws_mcp_gateway.Cache.Keys.{Hashing, build_cache_key}
use aws_mcp_gateway.Aws.{
  Io, ◌>>=◌, ◌>>◌, go_on, lift, defined, Kept, cached_or, read_cache, write_cache,
}
use aws_mcp_gateway.Ecs.Parse.{RawTask, RawService, RawContainer, if_given}
use aws_mcp_gateway.Ecs.Definitions.{
  SafeContainer, SafeTaskDefinitionMetadata, normalize_task_definition_metadata,
}
use aws_mcp_gateway.Ecs.Requests.{
  Ecs, describe_services, describe_task_definition, list_tasks, describe_tasks,
}
use aws_mcp_gateway.Ecs.Tasks.{assert_cluster_exists}
use aws_mcp_gateway.Ecs.Reports.{
  service_in, no_service, validate_cluster_name, validate_service_name,
}
use aws_mcp_gateway.Ecr.{EcrImageStatusResult, validate_repository_name, parse_ecr_image_reference}
use aws_mcp_gateway.Ecr.Client.{Ecr, get_image_status}

-- `EcsEcrImageComparisonResult`
pub record EcsEcrImageComparisonResult : Type 0 where
  pub region : String
  pub cluster_name : String
  pub service_name : String
  pub repository_name : String
  pub task_definition_image : Option String
  pub running_task_image_digests : List String
  pub ecr_image_digest : Option String
  pub ecr_image_tags : Option (List String)
  pub ecr_image_found : Bool
  pub matches_ecr_digest : Bool
  pub matches_expected_digest : Option Bool

-- the first image of the repository, or else the one that is given
image_in : List SafeContainer → String → Option String → Option String
image_in [] repository other = other
image_in (container ∷ containers) repository other =
    let rest = image_in containers repository other in
    if (parse_ecr_image_reference container.image repository).matches_repository
    then some container.image
    else rest

-- `containers[0]?.image`
first_image_of : List SafeContainer → Option String
first_image_of [] = none
first_image_of (container ∷ containers) = some container.image

-- `findTaskDefinitionImage`
unfoldable pub find_task_definition_image : List SafeContainer → String → Option String
unfolding image_in first_image_of
find_task_definition_image containers repository =
    image_in containers repository (first_image_of containers)

-- `taskDef ? findTaskDefinitionImage(taskDef.containers, repositoryName) : undefined`
image_of_definition : Option SafeTaskDefinitionMetadata → String → Option String
image_of_definition none repository = none
image_of_definition (some definition) repository =
    find_task_definition_image definition.containers repository

-- `digests.add(digest)` where there is one
unfoldable pub add_digest : Option String → List String → List String
add_digest none digests = digests
add_digest (some digest) digests = set_add digests digest

-- the digests of the containers, added to a set
unfoldable pub add_digests : List (Option String) → List String → List String
unfolding add_digest
add_digests [] digests = digests
add_digests (d ∷ ds) digests = add_digests ds (add_digest d digests)

-- the digests of the containers of all the tasks that are not empty, container by container
unfoldable pub container_digests : List RawTask → List (Option String)
container_digests [] = []
container_digests (task ∷ tasks) =
    map (λ (c : RawContainer). if_given c.image_digest) (or_else task.containers [])
    ++ container_digests tasks

-- `collectRunningDigests`
unfoldable pub collect_running_digests : List RawTask → List String
unfolding add_digests container_digests sort_texts
collect_running_digests tasks = sort_texts (add_digests (container_digests tasks) [])

-- `digests.length > 0 && digests.every((d) => d === digest)`
unfoldable pub all_are : List String → String → Bool
all_are [] digest = false
all_are (d ∷ ds) digest = every (λ e. e == digest) (d ∷ ds)

-- `Boolean(ecrDigest) && …`
unfoldable pub matches_digest : List String → Option String → Bool
unfolding all_are
matches_digest digests none = false
matches_digest digests (some digest) = not (is_empty digest) && all_are digests digest

-- `matchesExpectedDigest`, where `null` is none
unfoldable pub matches_expected : List String → Option String → Option Bool
unfolding all_are
matches_expected digests none = none
matches_expected digests (some digest) =
    if is_empty digest then none else some (all_are digests digest)

-- the result that is made of the image of the task definition, the digests that run, and the status of the image
unfoldable pub comparison_of :
    String
    → String
    → String
    → String
    → Option String
    → Option String
    → List String
    → EcrImageStatusResult
    → EcsEcrImageComparisonResult
unfolding matches_digest matches_expected
comparison_of region cluster service repository expected image digests status = record {
  region = region;
  cluster_name = cluster;
  service_name = service;
  repository_name = repository;
  task_definition_image = if_given image;
  running_task_image_digests = digests;
  ecr_image_digest = if_given status.image_digest;
  ecr_image_tags = status.tags;
  ecr_image_found = status.found;
  matches_ecr_digest = matches_digest digests status.image_digest;
  matches_expected_digest = matches_expected digests expected;
}

-- `service?.taskDefinition`, which must not be empty
definition_named : String → String → Option String → Result String
definition_named cluster service none = thrown (no_service cluster service)
definition_named cluster service (some name) = ok name

-- the tag and the digest of an image, if there is one and it is not empty
reference_tag : Option String → String → Option String
reference_tag none repository = none
reference_tag (some image) repository = (parse_ecr_image_reference image repository).tag

reference_digest : Option String → String → Option String
reference_digest none repository = none
reference_digest (some image) repository = (parse_ecr_image_reference image repository).digest

module _ (ecs : Ecs) (ecr : Ecr) (hashing : Hashing) (to_iso_string : Num → String) {E : Type 0}
    (region : String) (credentials : AwsCredentials) (cluster service repository : String) where
  -- the digests that run, where there are tasks
  unfoldable pub running_digests : List String → Io E (List String)
  running_digests [] = lift (ok [])
  running_digests (arn ∷ arns) = do
    answer ← describe_tasks ecs region credentials cluster (arn ∷ arns)
    response ← lift (defined answer)
    lift (ok (collect_running_digests (or_else response.tasks [])))

  -- the name of the task definition of the service
  unfoldable pub definition_name : Io E String
  unfolding definition_named
  definition_name = do
    answer ← describe_services ecs region credentials cluster (service ∷ [])
    response ← lift (defined answer)
    raw ← lift (service_in cluster service response)
    lift (definition_named cluster service (if_given raw.task_definition))

  -- its image
  unfoldable pub definition_image : Io E (Option String)
  unfolding definition_name image_of_definition
  definition_image = do
    name ← definition_name
    described ← describe_task_definition ecs region credentials name
    definition ← lift (defined described)
    lift (ok (image_of_definition (normalize_task_definition_metadata definition) repository))

  -- the digests of at most five tasks that run
  unfoldable pub tasks_that_run : Io E (List String)
  unfolding running_digests
  tasks_that_run = do
    answer ← list_tasks ecs region credentials (record {
      cluster = cluster;
      service_name = some service;
      desired_status = some "RUNNING";
      max_results = 5;
      next_token = none;
    })
    response ← lift (defined answer)
    running_digests (or_else response.task_arns [])

  -- `compareServiceImageWithEcr`
  unfoldable pub compare_service_image_with_ecr :
      Kept E EcsEcrImageComparisonResult
      → Kept E EcrImageStatusResult
      → Option String
      → Io E EcsEcrImageComparisonResult
  unfolding definition_image tasks_that_run reference_tag reference_digest
  compare_service_image_with_ecr kept kept_status expected = do
    lift (validate_cluster_name cluster)
    lift (validate_service_name service)
    lift (validate_repository_name repository)
    let key = build_cache_key hashing "compare_ecs_task_image_with_ecr" (
        field "clusterName" (text cluster) (
          field "serviceName" (text service) (
            field "repositoryName" (text repository) (
              field "expectedImageDigest" (text (or_else expected ""))
                (field "region" (text region) end)))))
    found ← read_cache key
    cached_or kept found (do
      assert_cluster_exists ecs region credentials cluster
      image ← definition_image
      digests ← tasks_that_run
      let named = if_given image
      status ←
          get_image_status ecr hashing to_iso_string repository region credentials kept_status
            (reference_tag named repository) (reference_digest named repository)
      let result = comparison_of region cluster service repository expected image digests status
      write_cache key (kept.keep result)
      lift (ok result))
