-- ===== src/Ecs/Tasks.antt =====
-- The helpers of aws/ecs/client.ts: whether a cluster is there, the tasks of a listing page by page, and the
-- description of tasks in batches.
use aws_mcp_gateway.Base.{
  ℕ, zero, suc, ◌-◌, Bool, true, false, Option, none, some, or_else, String, List, [], ◌∷◌, ◌++◌,
  length, take, drop, map, min, ltb, is_empty, ◌<>◌, if◌then◌else◌,
}
use aws_mcp_gateway.Errors.{Result, ok, thrown, gateway_error, not_found, internal_error}
use aws_mcp_gateway.Credentials.{AwsCredentials}
use aws_mcp_gateway.Aws.{Io, ◌>>=◌, lift, defined}
use aws_mcp_gateway.Ecs.Parse.{EcsTaskSummary, normalize_task_summary}
use aws_mcp_gateway.Ecs.Requests.{
  Ecs, DescribeClustersResponse, ListTasksResponse, describe_clusters, list_tasks, describe_tasks,
}

-- `xs && xs.length > 0`
unfoldable pub has_any : {A : Type 0} → Option (List A) → Bool
has_any none = false
has_any (some []) = false
has_any (some (x ∷ xs)) = true

-- the checks of `assertClusterExists` on the response
unfoldable pub cluster_found : String → DescribeClustersResponse → Result (Unit {0})
unfolding has_any
cluster_found name response =
    if has_any response.failures
    then thrown (gateway_error not_found ("Cluster \"" <> name <> "\" was not found."))
    else if has_any response.clusters
    then ok tt
    else thrown (gateway_error not_found ("Cluster \"" <> name <> "\" was not found."))

-- What the loop over the pages comes to: the tasks, or no end within the fuel.
pub data Collected : Type 0 where
  collected : List String → Collected
  unfinished : Collected

-- `!nextToken || batch.length === 0`
unfoldable pub is_last : Option String → List String → Bool
is_last none batch = true
is_last (some token) [] = true
is_last (some token) (arn ∷ batch) = is_empty token

-- What the loop does with a page: with it, `break`, or go on.
pub data Step : Type 0 where
  last more : List String → Option String → Step

unfoldable pub step_of : List String → ListTasksResponse → Step
unfolding is_last
step_of found page =
    let batch = or_else page.task_arns [] in
    if is_last page.next_token batch
    then last (found ++ batch) page.next_token
    else more (found ++ batch) page.next_token

-- the batches of at most 100, as many as the fuel
unfoldable pub batches : ℕ → List String → List (List String)
batches zero arns = []
batches (suc fuel) [] = []
batches (suc fuel) (arn ∷ arns) = take 100 (arn ∷ arns) ∷ batches fuel (drop 100 (arn ∷ arns))

-- the slices of the loops over `i`, each step of which drops at least one
unfoldable pub batches_of : List String → List (List String)
unfolding batches
batches_of arns = batches (length arns) arns

-- the end of the loop, or what `rest` does
unfoldable pub follow :
    {E : Type 0} → ℕ → (List String → Option String → Io E Collected) → Step → Io E Collected
follow limit rest (last found token) = lift (ok (collected (take limit found)))
follow limit rest (more found token) = rest found token

-- what the loop does with an answer
unfoldable pub with_page :
    {E : Type 0}
    → ℕ
    → (List String → Option String → Io E Collected)
    → List String
    → Option ListTasksResponse
    → Io E Collected
unfolding follow step_of
with_page limit rest found answer = do
  page ← lift (defined answer)
  follow limit rest (step_of found page)

-- the tasks that the loop has found; it always comes to an end
unfoldable pub found_arns : Collected → Result (List String)
found_arns (collected found) = ok found
found_arns unfinished = thrown (gateway_error internal_error "An unexpected error occurred.")

module _ (ecs : Ecs) {E : Type 0} (region : String) (credentials : AwsCredentials)
    (cluster : String) where
  -- `assertClusterExists`
  unfoldable pub assert_cluster_exists : Io E (Unit {0})
  unfolding cluster_found
  assert_cluster_exists = do
    answer ← describe_clusters ecs region credentials (cluster ∷ [])
    response ← lift (defined answer)
    lift (cluster_found cluster response)

  module _ (service_name desired_status : Option String) (limit : ℕ) where
    -- a page that is asked for behind what was found
    unfoldable pub next_page : List String → Option String → Io E (Option ListTasksResponse)
    next_page found token = list_tasks ecs region credentials (record {
      cluster = cluster;
      service_name = service_name;
      desired_status = desired_status;
      max_results = min (limit - length found) 100;
      next_token = token;
    })

    -- the turns of the loop, its condition included, at most as many as the fuel
    unfoldable pub collect_from : ℕ → List String → Option String → Io E Collected
    unfolding next_page with_page
    collect_from zero found token = lift (ok unfinished)
    collect_from (suc fuel) found token = elim (ltb (length found) limit) [
      | false ↦ lift (ok (collected (take limit found)))
      | true ↦ next_page found token >>= with_page limit (collect_from fuel) found
    ]

    -- `collectTaskArns`: as many turns as the limit, and the one that sees that it is reached
    unfoldable pub collect_task_arns : Io E (List String)
    unfolding found_arns
    collect_task_arns = do found ← collect_from (suc limit) [] none; lift (found_arns found)

  -- the loop of `describeTasksInBatches`
  unfoldable pub describe_batches :
      List EcsTaskSummary → List (List String) → Io E (List EcsTaskSummary)
  describe_batches tasks [] = lift (ok tasks)
  describe_batches tasks (batch ∷ rest) = do
    answer ← describe_tasks ecs region credentials cluster batch
    response ← lift (defined answer)
    describe_batches (tasks ++ map normalize_task_summary (or_else response.tasks [])) rest

  -- `describeTasksInBatches`
  unfoldable pub describe_tasks_in_batches : List String → Io E (List EcsTaskSummary)
  unfolding describe_batches batches_of
  describe_tasks_in_batches arns = describe_batches [] (batches_of arns)
