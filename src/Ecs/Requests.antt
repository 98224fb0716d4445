-- ===== src/Ecs/Requests.antt =====
-- aws/ecs/requests.ts: the requests to ECS. What ECS sends back is a parameter, which may differ with each
-- request that went out before.
use aws_mcp_gateway.Base.{ℕ, Option, String, List}
use aws_mcp_gateway.Credentials.{AwsCredentials}
use aws_mcp_gateway.Errors.{ok}
use aws_mcp_gateway.Aws.{◌>>=◌, lift, defined, Io, Delivery, aws_request}
use aws_mcp_gateway.Ecs.Parse.{RawService, RawTask}
use aws_mcp_gateway.Ecs.Definitions.{
  normalize_task_definition_metadata, SafeTaskDefinitionMetadata, DescribeTaskDefinitionResponse,
}

-- `DescribeClustersResponse`, with the clusters' names and the reasons of the failures
pub record DescribeClustersResponse : Type 0 where
  pub clusters : Option (List (Option String))
  pub failures : Option (List (Option String))

-- `DescribeServicesResponse`
pub record DescribeServicesResponse : Type 0 where
  pub services : Option (List RawService)
  pub failures : Option (List (Option String))

-- `ListTasksResponse`
pub record ListTasksResponse : Type 0 where
  pub task_arns : Option (List String)
  pub next_token : Option String

-- `DescribeTasksResponse`
pub record DescribeTasksResponse : Type 0 where
  pub tasks : Option (List RawTask)

-- the options of `listTasks`, which the caller gives a size
pub record ListTasksRequest : Type 0 where
  pub cluster : String
  pub service_name : Option String
  pub desired_status : Option String
  pub max_results : ℕ
  pub next_token : Option String

-- What ECS sends back, by the number of requests before, the region and the credentials.
pub record Ecs : Type 0 where
  pub clusters : ℕ → String → AwsCredentials → List String → Delivery DescribeClustersResponse
  pub services :
      ℕ → String → AwsCredentials → String → List String → Delivery DescribeServicesResponse
  pub task_arns : ℕ → String → AwsCredentials → ListTasksRequest → Delivery ListTasksResponse
  pub tasks : ℕ → String → AwsCredentials → String → List String → Delivery DescribeTasksResponse
  pub task_definitions :
      ℕ → String → AwsCredentials → String → Delivery DescribeTaskDefinitionResponse

module _ (ecs : Ecs) {E : Type 0} (region : String) (credentials : AwsCredentials) where
  -- `describeClusters`
  unfoldable pub describe_clusters : List String → Io E (Option DescribeClustersResponse)
  describe_clusters names =
      aws_request "ecs:DescribeClusters" "ecs" region credentials
        (λ n. ecs.clusters n region credentials names)

  -- `describeServices`
  unfoldable pub describe_services : String → List String → Io E (Option DescribeServicesResponse)
  describe_services cluster names =
      aws_request "ecs:DescribeServices" "ecs" region credentials
        (λ n. ecs.services n region credentials cluster names)

  -- `listTasks`
  unfoldable pub list_tasks : ListTasksRequest → Io E (Option ListTasksResponse)
  list_tasks request =
      aws_request "ecs:ListTasks" "ecs" region credentials
        (λ n. ecs.task_arns n region credentials request)

  -- `describeTasks`
  unfoldable pub describe_tasks : String → List String → Io E (Option DescribeTasksResponse)
  describe_tasks cluster arns =
      aws_request "ecs:DescribeTasks" "ecs" region credentials
        (λ n. ecs.tasks n region credentials cluster arns)

  -- `describeTaskDefinition`
  unfoldable pub describe_task_definition : String → Io E (Option DescribeTaskDefinitionResponse)
  describe_task_definition task_definition =
      aws_request "ecs:DescribeTaskDefinition" "ecs" region credentials
        (λ n. ecs.task_definitions n region credentials task_definition)

  -- `getTaskDefinitionMetadata` of client.ts
  unfoldable pub get_task_definition_metadata : String → Io E (Option SafeTaskDefinitionMetadata)
  get_task_definition_metadata task_definition = do
    described ← describe_task_definition task_definition
    definition ← lift (defined described)
    lift (ok (normalize_task_definition_metadata definition))
