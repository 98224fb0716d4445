-- ===== src/Ecs/Reports.antt =====
-- aws/ecs/client.ts: the health of a service, its tasks, and the tasks that stopped lately, each answered
-- from the cache where it is there.
use aws_mcp_gateway.Base.{
  ℕ, ◌-◌, ◌*◌, Bool, true, false, Option, none, some, or_else, String, List, [], ◌∷◌, ◌++◌, length,
  leb, take, is_empty, ◌<>◌, if◌then◌else◌,
}
use aws_mcp_gateway.Errors.{GatewayError, Result, ok, thrown, gateway_error, not_found}
use aws_mcp_gateway.Js.{end, field, text, number}
use aws_mcp_gateway.Js.Numbers.{Num, minus, whole, num_lt}
use aws_mcp_gateway.Credentials.{AwsCredentials}
use aws_mcp_gateway.Cache.Keys.{Hashing, build_cache_key}
use aws_mcp_gateway.Aws.{Io, ◌>>=◌, ◌>>◌, lift, defined, Kept, cached_or, read_cache, write_cache}
use aws_mcp_gateway.Ecs.{
  validate_name, validate_task_limit, validate_desired_status, validate_lookback_minutes,
}
use aws_mcp_gateway.Ecs.Parse.{
  EcsServiceHealth, EcsTaskSummary, EcsStoppedTaskDiagnostic, RawService, RawTask,
  normalize_service_health, normalize_stopped_task,
}
use aws_mcp_gateway.Ecs.Requests.{Ecs, DescribeServicesResponse, describe_services, describe_tasks}
use aws_mcp_gateway.Ecs.Tasks.{
  has_any, assert_cluster_exists, collect_task_arns, describe_tasks_in_batches, batches_of,
}

unfoldable pub no_service : String → String → GatewayError
no_service cluster service =
    gateway_error not_found
      ("Service \"" <> service <> "\" was not found in cluster \"" <> cluster <> "\".")

first_service : String → String → List RawService → Result RawService
unfolding no_service
first_service cluster service [] = thrown (no_service cluster service)
first_service cluster service (found ∷ rest) = ok found

-- `services?.[0]`, where there are no failures
unfoldable pub service_in : String → String → DescribeServicesResponse → Result RawService
unfolding no_service first_service
service_in cluster service response =
    if has_any response.failures
    then thrown (no_service cluster service)
    else first_service cluster service (or_else response.services [])

-- `validateClusterName` and `validateServiceName`
unfoldable pub validate_cluster_name : String → Result (Unit {0})
validate_cluster_name name = validate_name name "clusterName is required."

unfoldable pub validate_service_name : String → Result (Unit {0})
validate_service_name name = validate_name name "serviceName is required."

-- `a - b` in milliseconds, which may be below 0
unfoldable pub difference : ℕ → ℕ → Num
difference a b = if leb b a then whole (a - b) else minus (b - a - 1) 0

-- `parseStoppedAt`, where the platform's `Date.parse` of a text that is no date is none
unfoldable pub parse_stopped_at : (String → Option Num) → Option String → Option Num
parse_stopped_at parse_date none = none
parse_stopped_at parse_date (some stopped_at) =
    if is_empty stopped_at then none else parse_date stopped_at

-- `stoppedAtMs !== undefined && stoppedAtMs < cutoffMs`
unfoldable pub is_too_old : Option Num → Num → Bool
is_too_old none cutoff = false
is_too_old (some stopped) cutoff = num_lt stopped cutoff

-- the loop over the tasks of one response: those that stopped too early are passed over, and the loop ends at the limit
unfoldable pub add_stopped :
    (String → Option Num)
    → Num
    → ℕ
    → List EcsStoppedTaskDiagnostic
    → List RawTask
    → List EcsStoppedTaskDiagnostic
unfolding parse_stopped_at is_too_old
add_stopped parse_date cutoff limit found [] = found
add_stopped parse_date cutoff limit found (task ∷ tasks) =
    let found' = found ++ normalize_stopped_task task ∷ [] in
    elim (is_too_old (parse_stopped_at parse_date task.stopped_at) cutoff) [
      | true ↦ add_stopped parse_date cutoff limit found tasks
      | false ↦ elim (leb limit (length found')) [
        | true ↦ found'
        | false ↦ add_stopped parse_date cutoff limit found' tasks
      ]
    ]

module _ (ecs : Ecs) (hashing : Hashing) {E : Type 0} where
  -- the report that is made where the cache has none
  unfoldable pub fresh_health :
      Kept E EcsServiceHealth
      → String
      → String
      → String
      → String
      → AwsCredentials
      → Io E EcsServiceHealth
  fresh_health kept key cluster service region credentials = do
    assert_cluster_exists ecs region credentials cluster
    answer ← describe_services ecs region credentials cluster (service ∷ [])
    response ← lift (defined answer)
    raw ← lift (service_in cluster service response)
    let health = normalize_service_health cluster service region raw
    write_cache key (kept.keep health)
    lift (ok health)

  -- `getServiceHealth`
  unfoldable pub get_service_health :
      Kept E EcsServiceHealth → String → String → String → AwsCredentials → Io E EcsServiceHealth
  unfolding fresh_health
  get_service_health kept cluster service region credentials = do
    lift (validate_cluster_name cluster)
    lift (validate_service_name service)
    let key = build_cache_key hashing "get_ecs_service_health" (
        field "clusterName" (text cluster)
          (field "serviceName" (text service) (field "region" (text region) end)))
    found ← read_cache key
    cached_or kept found (fresh_health kept key cluster service region credentials)

  -- the tasks that are described, if there are any
  unfoldable pub tasks_of :
      String → String → AwsCredentials → List String → Io E (List EcsTaskSummary)
  tasks_of cluster region credentials [] = lift (ok [])
  tasks_of cluster region credentials (arn ∷ arns) =
      describe_tasks_in_batches ecs region credentials cluster (arn ∷ arns)

  -- `listEcsTasks`
  unfoldable pub list_ecs_tasks :
      Kept E (List EcsTaskSummary)
      → String
      → Option String
      → Option String
      → Option Num
      → String
      → AwsCredentials
      → Io E (List EcsTaskSummary)
  unfolding tasks_of
  list_ecs_tasks kept cluster service_name desired_status limit region credentials = do
    lift (validate_cluster_name cluster)
    n ← lift (validate_task_limit limit)
    status ← lift (validate_desired_status desired_status)
    let key = build_cache_key hashing "list_ecs_tasks" (
        field "clusterName" (text cluster) (
          field "serviceName" (text (or_else service_name "")) (
            field "desiredStatus" (text (or_else status ""))
              (field "limit" (number (whole n)) (field "region" (text region) end)))))
    found ← read_cache key
    cached_or kept found (do
      assert_cluster_exists ecs region credentials cluster
      arns ← collect_task_arns ecs region credentials cluster service_name status n
      tasks ← tasks_of cluster region credentials arns
      write_cache key (kept.keep tasks)
      lift (ok tasks))

  module _ (parse_date : String → Option Num) where
    -- the loop over the batches, which ends at the limit too
    unfoldable pub stopped_in :
        String
        → String
        → AwsCredentials
        → Num
        → ℕ
        → List EcsStoppedTaskDiagnostic
        → List (List String)
        → Io E (List EcsStoppedTaskDiagnostic)
    unfolding add_stopped
    stopped_in cluster region credentials cutoff limit found [] = lift (ok found)
    stopped_in cluster region credentials cutoff limit found (batch ∷ rest) = do
      answer ← describe_tasks ecs region credentials cluster batch
      response ← lift (defined answer)
      let found' = add_stopped parse_date cutoff limit found (or_else response.tasks [])
      let next = stopped_in cluster region credentials cutoff limit found' rest
      if leb limit (length found') then lift (ok found') else next

    -- `getRecentStoppedEcsTasks`, at the time `now` in milliseconds
    unfoldable pub get_recent_stopped_ecs_tasks :
        Kept E (List EcsStoppedTaskDiagnostic)
        → ℕ
        → String
        → Option String
        → Option Num
        → Option Num
        → String
        → AwsCredentials
        → Io E (List EcsStoppedTaskDiagnostic)
    unfolding stopped_in
    get_recent_stopped_ecs_tasks kept now cluster service_name lookback limit region credentials =
        do
          lift (validate_cluster_name cluster)
          n ← lift (validate_task_limit limit)
          minutes ← lift (validate_lookback_minutes lookback)
          let cutoff = difference now (minutes * 60 * 1000)
          let key = build_cache_key hashing "get_recent_stopped_ecs_tasks" (
              field "clusterName" (text cluster) (
                field "serviceName" (text (or_else service_name "")) (
                  field "lookbackMinutes" (number (whole minutes))
                    (field "limit" (number (whole n)) (field "region" (text region) end)))))
          found ← read_cache key
          cached_or kept found (do
            assert_cluster_exists ecs region credentials cluster
            arns ← collect_task_arns ecs region credentials cluster service_name (some "STOPPED") n
            stopped ← stopped_in cluster region credentials cutoff n [] (batches_of arns)
            let result = take n stopped
            write_cache key (kept.keep result)
            lift (ok result))
