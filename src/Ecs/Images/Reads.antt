-- ===== src/Ecs/Images/Reads.antt =====
-- The requests that a comparison sends, to ECS and to ECR.
use aws_mcp_gateway.Base.{Option, String, List, [], ◌∷◌}
use aws_mcp_gateway.Js.Numbers.{Num}
use aws_mcp_gateway.Credentials.{AwsCredentials}
use aws_mcp_gateway.Cache.Keys.{Hashing}
use aws_mcp_gateway.Aws.{Kept}
use aws_mcp_gateway.Aws.Reads.{OnlyReads, reads, lift-OnlyReads, aws_request-OnlyReads}
use aws_mcp_gateway.Ecs.Requests.{Ecs, describe_task_definition}
use aws_mcp_gateway.Ecs.Reads.{
  describe_services-OnlyReads, describe_tasks-OnlyReads, list_tasks-OnlyReads,
  assert_cluster_exists-OnlyReads,
}
use aws_mcp_gateway.Ecs.Images.{
  EcsEcrImageComparisonResult, running_digests, definition_image, definition_name, tasks_that_run,
  compare_service_image_with_ecr,
}
use aws_mcp_gateway.Ecr.{EcrImageStatusResult}
use aws_mcp_gateway.Ecr.Client.{Ecr}
use aws_mcp_gateway.Ecr.Reads.{get_image_status-OnlyReads}

module _ (ecs : Ecs) (ecr : Ecr) (hashing : Hashing) (to_iso_string : Num → String) {E : Type 0}
    (region : String) (credentials : AwsCredentials) (cluster service repository : String) where
  describe_task_definition-OnlyReads :
      (name : String)
      → OnlyReads region credentials {E = E} (describe_task_definition ecs region credentials name)
  unfolding describe_task_definition
  describe_task_definition-OnlyReads name = aws_request-OnlyReads _ _ _

  running_digests-OnlyReads :
      (found : List String)
      → OnlyReads region credentials {E = E} (
          running_digests ecs ecr hashing to_iso_string region credentials cluster service
            repository found)
  unfolding running_digests
  running_digests-OnlyReads [] = lift-OnlyReads _
  running_digests-OnlyReads (arn ∷ found) =
      search (reads, describe_tasks-OnlyReads ecs {E = E} region credentials)

  definition_image-OnlyReads :
      OnlyReads region credentials {E = E} (
        definition_image ecs ecr hashing to_iso_string region credentials cluster service
          repository)
  unfolding definition_image definition_name
  definition_image-OnlyReads =
      search
        (
          reads,
          describe_services-OnlyReads ecs {E = E} region credentials,
          describe_task_definition-OnlyReads,
        )
        depth 14

  tasks_that_run-OnlyReads :
      OnlyReads region credentials {E = E}
        (tasks_that_run ecs ecr hashing to_iso_string region credentials cluster service repository)
  unfolding tasks_that_run
  tasks_that_run-OnlyReads =
      search (reads, list_tasks-OnlyReads ecs {E = E} region credentials, running_digests-OnlyReads)

  -- A comparison of the tasks of a service with an image, on every path and whatever AWS answers, sends no request
  -- but such as ask for a capability of the registry that only reads, at the service of that capability, for the
  -- region of the comparison and with the credentials of its caller.
  pub compare_service_image_with_ecr-OnlyReads :
      (kept : Kept E EcsEcrImageComparisonResult) (kept_status : Kept E EcrImageStatusResult)
      (expected : Option String)
      → OnlyReads region credentials (
          compare_service_image_with_ecr ecs ecr hashing to_iso_string region credentials cluster
            service repository kept kept_status expected)
  unfolding compare_service_image_with_ecr
  compare_service_image_with_ecr-OnlyReads kept kept_status expected =
      search
        (
          reads,
          assert_cluster_exists-OnlyReads ecs {E = E} region credentials,
          definition_image-OnlyReads,
          tasks_that_run-OnlyReads,
          get_image_status-OnlyReads ecr hashing to_iso_string {E = E} repository region
              credentials,
        )
        depth 16
