-- ===== src/Ecs/Images/Secrets.antt =====
-- What becomes of the variables and secrets of a task definition.
use mathlib.Core.Option
use mathlib.Core.Path.{fun_ext}
use aws_mcp_gateway.Base.{ap, or_else, ◌≡◌, refl, Option, none, some, String, List, [], ◌∷◌, map}
use aws_mcp_gateway.Errors.{Result, ok, thrown}
use aws_mcp_gateway.Credentials.{AwsCredentials}
use aws_mcp_gateway.Aws.{Kept, Cloud, Io, go_on, ◌>>=◌, lift, defined}
use aws_mcp_gateway.Aws.Answers.{changed, changed_end, aws_request-changed}
use aws_mcp_gateway.Ecs.Definitions.{
  ContainerDefinition, TaskDefinition, DescribeTaskDefinitionResponse, SafeTaskDefinitionMetadata,
  safe_container, safe_definition, normalize_task_definition_metadata,
}
use aws_mcp_gateway.Ecs.Requests.{
  Ecs, describe_task_definition, get_task_definition_metadata, describe_services, describe_clusters,
  list_tasks, describe_tasks,
}
use aws_mcp_gateway.Ecs.Tasks.{assert_cluster_exists}
use aws_mcp_gateway.Ecs.Images.{
  Num, Hashing, EcsEcrImageComparisonResult, definition_image, definition_name, image_of_definition,
  tasks_that_run, running_digests, compare_service_image_with_ecr,
}
use aws_mcp_gateway.Ecr.{EcrImageStatusResult}
use aws_mcp_gateway.Ecr.Client.{Ecr}

bare_container : ContainerDefinition → ContainerDefinition
bare_container c = record c { environment = none; secrets = none; secret_options = none }

bare_definition : TaskDefinition → TaskDefinition
unfolding bare_container
bare_definition d = record d {
  container_definitions = Option.map (map bare_container) d.container_definitions;
}

bare : DescribeTaskDefinitionResponse → DescribeTaskDefinitionResponse
unfolding bare_definition
bare response = record { task_definition = Option.map bare_definition response.task_definition }

-- ECS, sending the same task definitions without their variables and secrets
unfoldable pub without_secrets : Ecs → Ecs
unfolding bare
without_secrets ecs = record ecs {
  task_definitions =
      λ n region credentials name. changed bare (ecs.task_definitions n region credentials name);
}

containers-bare :
    (cs : List ContainerDefinition)
    → map safe_container (map bare_container cs) ≡ map safe_container cs
unfolding safe_container bare_container
containers-bare [] = refl
containers-bare (c ∷ cs) = rw (containers-bare cs)

optional_containers-bare :
    (o : Option (List ContainerDefinition))
    → map safe_container (or_else (Option.map (map bare_container) o) [])
      ≡ map safe_container (or_else o [])
optional_containers-bare none = refl
optional_containers-bare (some cs) = containers-bare cs

safe_definition-bare :
    (d : TaskDefinition) → safe_definition (bare_definition d) ≡ safe_definition d
unfolding safe_definition bare_definition
safe_definition-bare d = rw (optional_containers-bare d.container_definitions)

optional_definition-bare :
    (o : Option TaskDefinition)
    → Option.map safe_definition (Option.map bare_definition o) ≡ Option.map safe_definition o
optional_definition-bare none = refl
optional_definition-bare (some d) = ap some (safe_definition-bare d)

normalize_task_definition_metadata-bare :
    (r : DescribeTaskDefinitionResponse)
    → normalize_task_definition_metadata (bare r) ≡ normalize_task_definition_metadata r
unfolding normalize_task_definition_metadata bare
normalize_task_definition_metadata-bare r = optional_definition-bare r.task_definition

module _ {E A : Type 0} (rest : Option SafeTaskDefinitionMetadata → Io E A) where
  -- what is done with the answer to a request for a task definition
  abbrev then_normalized : Option DescribeTaskDefinitionResponse → Io E A
  then_normalized described =
      lift (defined described) >>= λ r. rest (normalize_task_definition_metadata r)

  then_normalized-bare :
      (end : Result (Option DescribeTaskDefinitionResponse) × Cloud E)
      → go_on (changed_end bare end) then_normalized ≡ go_on end then_normalized
  unfolding defined
  then_normalized-bare (ok none, s) = refl
  then_normalized-bare (ok (some r), s) =
      ap (λ d. rest d s) (normalize_task_definition_metadata-bare r)
  then_normalized-bare (thrown e, s) = refl

module _ (ecs : Ecs) {E : Type 0} (region : String) (credentials : AwsCredentials) where
  described-bare :
      {A : Type 0} (name : String) (rest : Option SafeTaskDefinitionMetadata → Io E A) (s : Cloud E)
      → go_on
          (describe_task_definition (without_secrets ecs) region credentials name s)
          (then_normalized rest)
        ≡ go_on (describe_task_definition ecs region credentials name s) (then_normalized rest)
  unfolding describe_task_definition without_secrets
  described-bare name rest s =
      rw
        (aws_request-changed bare "ecs:DescribeTaskDefinition" "ecs" region credentials
          (λ n. ecs.task_definitions n region credentials name) s)
        (then_normalized-bare rest _)

  get_task_definition_metadata-bare :
      (name : String) (s : Cloud E)
      → get_task_definition_metadata (without_secrets ecs) region credentials name s
        ≡ get_task_definition_metadata ecs region credentials name s
  unfolding get_task_definition_metadata
  get_task_definition_metadata-bare name s = described-bare name (λ d. lift (ok d)) s

-- Programs that begin alike and go on alike are alike.
go_on-same :
    {E A B : Type 0} (end : Result A × Cloud E) (f g : A → Io E B)
    → ((a : A) (s : Cloud E) → f a s ≡ g a s)
    → go_on end f ≡ go_on end g
go_on-same (ok a, s) f g same = same a s
go_on-same (thrown e, s) f g same = refl

module _ (ecs : Ecs) (ecr : Ecr) (hashing : Hashing) (to_iso_string : Num → String) {E : Type 0}
    (region : String) (credentials : AwsCredentials) (cluster service repository : String) where
  abbrev image : Option SafeTaskDefinitionMetadata → Io E (Option String)
  image d = lift (ok (image_of_definition d repository))

  definition_image-bare :
      (s : Cloud E)
      → definition_image
          (without_secrets ecs)
          ecr
          hashing
          to_iso_string
          region
          credentials
          cluster
          service
          repository
          s
        ≡ definition_image ecs ecr hashing to_iso_string region credentials cluster service
            repository s
  unfolding definition_image definition_name describe_services without_secrets
  definition_image-bare s =
      go_on-same
        (definition_name ecs ecr hashing to_iso_string region credentials cluster service repository
          s)
        (λ name.
          describe_task_definition (without_secrets ecs) region credentials name
          >>= then_normalized image)
        (λ name. describe_task_definition ecs region credentials name >>= then_normalized image)
        (λ name s'. described-bare ecs region credentials name image s')

  -- A comparison of a service with an image, and the metadata of a task definition, come to the same
  -- whatever variables and secrets ECS sends with the containers of a task definition: without them, the
  -- result, the requests that go out, the cache and the counts are the same.
  pub compare_service_image_with_ecr-without_secrets :
      (kept : Kept E EcsEcrImageComparisonResult) (kept_status : Kept E EcrImageStatusResult)
      (expected : Option String) (name : String) (s : Cloud E)
      → (compare_service_image_with_ecr
            (without_secrets ecs)
            ecr
            hashing
            to_iso_string
            region
            credentials
            cluster
            service
            repository
            kept
            kept_status
            expected
            s
          ≡ compare_service_image_with_ecr ecs ecr hashing to_iso_string region credentials cluster
              service repository kept kept_status expected s)
        × (get_task_definition_metadata (without_secrets ecs) region credentials name s
            ≡ get_task_definition_metadata ecs region credentials name s)
  unfolding compare_service_image_with_ecr assert_cluster_exists describe_clusters tasks_that_run
      list_tasks running_digests describe_tasks without_secrets
  compare_service_image_with_ecr-without_secrets kept kept_status expected name s = (
    rw (fun_ext definition_image-bare),
    get_task_definition_metadata-bare ecs region credentials name s,
  )
