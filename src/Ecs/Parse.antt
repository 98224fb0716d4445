-- ===== src/Ecs/Parse.antt =====
-- aws/ecs/types.ts and aws/ecs/parse.ts: what ECS answers, and what is handed on of it. A field that is
-- left out of an object, or is empty where the source tests it, is none.
use Prim.Native.Char.{code}
use aws_mcp_gateway.Base.{
  ℕ, Option, none, some, or_else, String, List, [], ◌∷◌, map, take, eqb, is_empty, is_some,
  strip_prefix, if◌then◌else◌,
}
use aws_mcp_gateway.Js.Numbers.{Num, whole}

-- `EcsServiceEvent`, and the event that ECS sends
pub record EcsServiceEvent : Type 0 where
  pub id : String
  pub created_at : String
  pub message : String

pub record RawEvent : Type 0 where
  pub id : Option String
  pub created_at : Option String
  pub message : Option String

-- `EcsContainerStatus`, and the container of a task that ECS sends
pub record EcsContainerStatus : Type 0 where
  pub name : String
  pub last_status : String
  pub image : Option String
  pub image_digest : Option String
  pub exit_code : Option Num
  pub reason : Option String

pub record RawContainer : Type 0 where
  pub name : Option String
  pub last_status : Option String
  pub image : Option String
  pub image_digest : Option String
  pub exit_code : Option Num
  pub reason : Option String

-- `EcsServiceHealth`
pub record EcsServiceHealth : Type 0 where
  pub cluster_name : String
  pub service_name : String
  pub region : String
  pub desired_count : Num
  pub running_count : Num
  pub pending_count : Num
  pub deployment_status : String
  pub rollout_state : String
  pub task_definition : String
  pub launch_type : Option String
  pub capacity_providers : Option (List String)
  pub events : List EcsServiceEvent

-- `EcsTaskSummary`
pub record EcsTaskSummary : Type 0 where
  pub task_id : String
  pub task_definition : String
  pub last_status : String
  pub desired_status : String
  pub health_status : Option String
  pub started_at : Option String
  pub stopped_at : Option String
  pub stop_code : Option String
  pub stopped_reason : Option String
  pub availability_zone : Option String
  pub containers : List EcsContainerStatus

-- `EcsStoppedTaskDiagnostic`
pub record EcsStoppedTaskDiagnostic : Type 0 where
  pub task_id : String
  pub task_definition : String
  pub stopped_reason : Option String
  pub stop_code : Option String
  pub started_at : Option String
  pub stopped_at : Option String
  pub containers : List EcsContainerStatus

pub record Deployment : Type 0 where
  pub status : Option String
  pub rollout_state : Option String

-- a service of `DescribeServicesResponse`
pub record RawService : Type 0 where
  pub status : Option String
  pub desired_count : Option Num
  pub running_count : Option Num
  pub pending_count : Option Num
  pub launch_type : Option String
  pub task_definition : Option String
  pub capacity_provider_strategy : Option (List (Option String))
  pub deployments : Option (List Deployment)
  pub events : Option (List RawEvent)

-- a task of `DescribeTasksResponse`
pub record RawTask : Type 0 where
  pub task_arn : Option String
  pub task_definition_arn : Option String
  pub last_status : Option String
  pub desired_status : Option String
  pub health_status : Option String
  pub started_at : Option String
  pub stopped_at : Option String
  pub stop_code : Option String
  pub stopped_reason : Option String
  pub availability_zone : Option String
  pub containers : Option (List RawContainer)

-- `x ? { x } : {}` on a text
unfoldable pub if_given : Option String → Option String
if_given none = none
if_given (some s) = if is_empty s then none else some s

-- the text behind the last place of a character, if the character is there
unfoldable pub after_last : ℕ → String → Option String
after_last c String.[] = none
after_last c (String.◌∷◌ d s) =
    let rest = after_last c s in
    if is_some rest then rest else if eqb (code d) c then some s else none

-- the text behind the last place of a character that is not the last character, or another one
unfoldable pub behind_or : Option String → String → String
behind_or none other = other
behind_or (some rest) other = if is_empty rest then other else rest

-- `extractArnSuffix`
unfoldable pub extract_arn_suffix : String → String
unfolding after_last behind_or
extract_arn_suffix arn = behind_or (after_last b'/' arn) (behind_or (after_last b':' arn) arn)

-- `normalizeTaskDefinitionRef`
unfoldable pub normalize_task_definition_ref : Option String → String
unfolding extract_arn_suffix
normalize_task_definition_ref none = ""
normalize_task_definition_ref (some ref) =
    if is_some (strip_prefix "arn:" ref) then extract_arn_suffix ref else ref

container_of : RawContainer → EcsContainerStatus
unfolding if_given
container_of c = record {
  name = or_else c.name "";
  last_status = or_else c.last_status "";
  image = if_given c.image;
  image_digest = if_given c.image_digest;
  exit_code = c.exit_code;
  reason = if_given c.reason;
}

-- `normalizeContainers`
unfoldable pub normalize_containers : Option (List RawContainer) → List EcsContainerStatus
unfolding container_of
normalize_containers containers = map container_of (or_else containers [])

event_of : RawEvent → EcsServiceEvent
event_of e = record {
  id = or_else e.id "";
  created_at = or_else e.created_at "";
  message = or_else e.message "";
}

-- `normalizeServiceEvents`
unfoldable pub normalize_service_events : Option (List RawEvent) → List EcsServiceEvent
unfolding event_of
normalize_service_events events = map event_of (take 10 (or_else events []))

-- `strategy.map((s) => s.capacityProvider).filter(Boolean)`
given_only : List (Option String) → List String
unfolding if_given
given_only [] = []
given_only (none ∷ ps) = given_only ps
given_only (some p ∷ ps) = let rest = given_only ps in if is_empty p then rest else p ∷ rest

if_any : List String → Option (List String)
if_any [] = none
if_any (p ∷ ps) = some (p ∷ ps)

-- `deployments?.[0]`
first_deployment : Option (List Deployment) → Deployment
first_deployment none = record { status = none; rollout_state = none }
first_deployment (some []) = record { status = none; rollout_state = none }
first_deployment (some (d ∷ ds)) = d

-- `a ?? b ?? ""`
either_or_empty : Option String → Option String → String
either_or_empty none b = or_else b ""
either_or_empty (some a) b = a

-- `normalizeServiceHealth`
unfoldable pub normalize_service_health : String → String → String → RawService → EcsServiceHealth
unfolding first_deployment either_or_empty normalize_task_definition_ref if_given given_only if_any
    normalize_service_events
normalize_service_health cluster_name service_name region service = record {
  cluster_name = cluster_name;
  service_name = service_name;
  region = region;
  desired_count = or_else service.desired_count (whole 0);
  running_count = or_else service.running_count (whole 0);
  pending_count = or_else service.pending_count (whole 0);
  deployment_status = either_or_empty (first_deployment service.deployments).status service.status;
  rollout_state = or_else (first_deployment service.deployments).rollout_state "";
  task_definition = normalize_task_definition_ref service.task_definition;
  launch_type = if_given service.launch_type;
  capacity_providers = if_any (given_only (or_else service.capacity_provider_strategy []));
  events = normalize_service_events service.events;
}

-- `normalizeTaskSummary`
unfoldable pub normalize_task_summary : RawTask → EcsTaskSummary
unfolding extract_arn_suffix normalize_task_definition_ref if_given normalize_containers
normalize_task_summary task = record {
  task_id = extract_arn_suffix (or_else task.task_arn "");
  task_definition = normalize_task_definition_ref task.task_definition_arn;
  last_status = or_else task.last_status "";
  desired_status = or_else task.desired_status "";
  health_status = if_given task.health_status;
  started_at = if_given task.started_at;
  stopped_at = if_given task.stopped_at;
  stop_code = if_given task.stop_code;
  stopped_reason = if_given task.stopped_reason;
  availability_zone = if_given task.availability_zone;
  containers = normalize_containers task.containers;
}

-- `normalizeStoppedTask`
unfoldable pub normalize_stopped_task : RawTask → EcsStoppedTaskDiagnostic
unfolding extract_arn_suffix normalize_task_definition_ref if_given normalize_containers
normalize_stopped_task task = record {
  task_id = extract_arn_suffix (or_else task.task_arn "");
  task_definition = normalize_task_definition_ref task.task_definition_arn;
  stopped_reason = if_given task.stopped_reason;
  stop_code = if_given task.stop_code;
  started_at = if_given task.started_at;
  stopped_at = if_given task.stopped_at;
  containers = normalize_containers task.containers;
}
