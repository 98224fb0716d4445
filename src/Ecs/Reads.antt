-- ===== src/Ecs/Reads.antt =====
-- The requests that the reports on services and tasks send.
use aws_mcp_gateway.Base.{
  ℕ, zero, suc, Option, String, List, [], ◌∷◌, Bool-cases, ltb, length, inl, inr,
}
use aws_mcp_gateway.Js.Numbers.{Num}
use aws_mcp_gateway.Credentials.{AwsCredentials}
use aws_mcp_gateway.Cache.Keys.{Hashing}
use aws_mcp_gateway.Aws.{Io, Kept}
use aws_mcp_gateway.Aws.Reads.{OnlyReads, reads, lift-OnlyReads, aws_request-OnlyReads}
use aws_mcp_gateway.Ecs.Parse.{EcsServiceHealth, EcsTaskSummary, EcsStoppedTaskDiagnostic}
use aws_mcp_gateway.Ecs.Requests.{
  Ecs, describe_clusters, describe_services, list_tasks, describe_tasks, ListTasksRequest,
}
use aws_mcp_gateway.Ecs.Tasks.{
  assert_cluster_exists, Collected, Step, last, more, follow, with_page, next_page, collect_from,
  collect_task_arns, describe_batches, describe_tasks_in_batches,
}
use aws_mcp_gateway.Ecs.Reports.{
  get_service_health, list_ecs_tasks, get_recent_stopped_ecs_tasks, stopped_in, tasks_of,
}

module _ (ecs : Ecs) {E : Type 0} (region : String) (credentials : AwsCredentials) where
  describe_clusters-OnlyReads :
      (names : List String)
      → OnlyReads region credentials (describe_clusters ecs {E = E} region credentials names)
  unfolding describe_clusters
  describe_clusters-OnlyReads names = aws_request-OnlyReads _ _ _

  pub assert_cluster_exists-OnlyReads :
      (cluster : String)
      → OnlyReads region credentials (assert_cluster_exists ecs {E = E} region credentials cluster)
  unfolding assert_cluster_exists
  assert_cluster_exists-OnlyReads cluster = search (reads, describe_clusters-OnlyReads)

  pub describe_services-OnlyReads :
      (cluster : String) (names : List String)
      → OnlyReads region credentials
          (describe_services ecs {E = E} region credentials cluster names)
  unfolding describe_services
  describe_services-OnlyReads cluster names = aws_request-OnlyReads _ _ _

  pub describe_tasks-OnlyReads :
      (cluster : String) (arns : List String)
      → OnlyReads region credentials (describe_tasks ecs {E = E} region credentials cluster arns)
  unfolding describe_tasks
  describe_tasks-OnlyReads cluster arns = aws_request-OnlyReads _ _ _

  pub list_tasks-OnlyReads :
      (request : ListTasksRequest)
      → OnlyReads region credentials (list_tasks ecs {E = E} region credentials request)
  unfolding list_tasks
  list_tasks-OnlyReads request = aws_request-OnlyReads _ _ _

  pub get_service_health-OnlyReads :
      (hashing : Hashing) (kept : Kept E EcsServiceHealth) (cluster service : String)
      → OnlyReads region credentials
          (get_service_health ecs hashing kept cluster service region credentials)
  unfolding get_service_health
  get_service_health-OnlyReads hashing kept cluster service =
      search (reads, assert_cluster_exists-OnlyReads, describe_services-OnlyReads) depth 12

  follow-OnlyReads :
      (limit : ℕ) (rest : List String → Option String → Io E Collected) (step : Step)
      → ((found : List String) (token : Option String)
          → OnlyReads region credentials (rest found token))
      → OnlyReads region credentials (follow limit rest step)
  unfolding follow
  follow-OnlyReads limit rest (last found token) h = lift-OnlyReads _
  follow-OnlyReads limit rest (more found token) h = h found token

  module _ (cluster : String) (service_name desired_status : Option String) (limit : ℕ) where
    collect_from-OnlyReads :
        (fuel : ℕ) (found : List String) (token : Option String)
        → OnlyReads region credentials (
            collect_from ecs {E = E} region credentials cluster service_name desired_status limit
              fuel found token)
    unfolding collect_from next_page with_page
    collect_from-OnlyReads zero found token = lift-OnlyReads _
    collect_from-OnlyReads (suc fuel) found token = elim (Bool-cases (ltb (length found) limit)) [
      | inl short ↦
          rw (short, collect_from)
            (search (reads, list_tasks-OnlyReads, follow-OnlyReads, collect_from-OnlyReads fuel))
      | inr full ↦ rw (full, collect_from) (lift-OnlyReads _)
    ]

    collect_task_arns-OnlyReads :
        OnlyReads region credentials (
          collect_task_arns ecs {E = E} region credentials cluster service_name desired_status
            limit)
    unfolding collect_task_arns
    collect_task_arns-OnlyReads = search (reads, collect_from-OnlyReads)

  describe_batches-OnlyReads :
      (cluster : String) (tasks : List EcsTaskSummary) (batches : List (List String))
      → OnlyReads region credentials
          (describe_batches ecs {E = E} region credentials cluster tasks batches)
  unfolding describe_batches
  describe_batches-OnlyReads cluster tasks [] = lift-OnlyReads _
  describe_batches-OnlyReads cluster tasks (batch ∷ rest) = search (
    reads,
    describe_tasks-OnlyReads,
    λ (ts : List EcsTaskSummary). describe_batches-OnlyReads cluster ts rest,
  )

  describe_tasks_in_batches-OnlyReads :
      (cluster : String) (arns : List String)
      → OnlyReads region credentials
          (describe_tasks_in_batches ecs {E = E} region credentials cluster arns)
  unfolding describe_tasks_in_batches
  describe_tasks_in_batches-OnlyReads cluster arns = describe_batches-OnlyReads cluster [] _

  module _ (hashing : Hashing) where
    tasks_of-OnlyReads :
        (cluster : String) (arns : List String)
        → OnlyReads region credentials
            (tasks_of ecs hashing {E = E} cluster region credentials arns)
    unfolding tasks_of
    tasks_of-OnlyReads cluster [] = lift-OnlyReads _
    tasks_of-OnlyReads cluster (arn ∷ arns) =
        describe_tasks_in_batches-OnlyReads cluster (arn ∷ arns)

    pub list_ecs_tasks-OnlyReads :
        (kept : Kept E (List EcsTaskSummary)) (cluster : String)
        (service_name desired_status : Option String) (limit : Option Num)
        → OnlyReads region credentials (
            list_ecs_tasks ecs hashing kept cluster service_name desired_status limit region
              credentials)
    unfolding list_ecs_tasks
    list_ecs_tasks-OnlyReads kept cluster service_name desired_status limit =
        search
          (reads, assert_cluster_exists-OnlyReads, collect_task_arns-OnlyReads, tasks_of-OnlyReads)
          depth 12

    module _ (parse_date : String → Option Num) where
      stopped_in-OnlyReads :
          (cluster : String) (cutoff : Num) (limit : ℕ) (found : List EcsStoppedTaskDiagnostic)
          (batches : List (List String))
          → OnlyReads region credentials (
              stopped_in ecs hashing {E = E} parse_date cluster region credentials cutoff limit
                found batches)
      unfolding stopped_in
      stopped_in-OnlyReads cluster cutoff limit found [] = lift-OnlyReads _
      stopped_in-OnlyReads cluster cutoff limit found (batch ∷ rest) = search (
        reads,
        describe_tasks-OnlyReads,
        λ (f : List EcsStoppedTaskDiagnostic). stopped_in-OnlyReads cluster cutoff limit f rest,
      )

      pub get_recent_stopped_ecs_tasks-OnlyReads :
          (kept : Kept E (List EcsStoppedTaskDiagnostic)) (now : ℕ) (cluster : String)
          (service_name : Option String) (lookback limit : Option Num)
          → OnlyReads region credentials (
              get_recent_stopped_ecs_tasks ecs hashing parse_date kept now cluster service_name
                lookback limit region credentials)
      unfolding get_recent_stopped_ecs_tasks
      get_recent_stopped_ecs_tasks-OnlyReads kept now cluster service_name lookback limit =
          search
            (
              reads, assert_cluster_exists-OnlyReads, collect_task_arns-OnlyReads,
              stopped_in-OnlyReads,
            )
            depth 12
