-- ===== src/Capabilities.antt =====
-- aws/capabilities.ts: what the gateway may ask of AWS, and under which permission.
pub mod Asked
use mathlib.Core.Option
use mathlib.Core.Option.{some-injective}
use aws_mcp_gateway.Base.{
  strip_prefix, is_empty, not, and-eq-true_iff, set_add_all, eqb, every, ◌&&◌, map, sort_texts,
  split, ◌≡◌, refl, inl, inr, Bool-cases, string_eq_iff, ap, sym, ◌∙◌, subst, Bool, true, Option,
  none, some, String, List, [], ◌∷◌, ◌==◌, string_eq, is_some, if◌then◌else◌,
}

-- `AwsCapabilityCostSensitivity`
pub data AwsCapabilityCostSensitivity : Type 0 where
  paid fanout_sensitive volume_sensitive low : AwsCapabilityCostSensitivity

-- `AwsCapabilityDefinition`
pub record AwsCapabilityDefinition : Type 0 where
  pub id : String
  pub iam_service : String
  pub iam_action : String
  pub request_service : Option String
  pub readonly : Bool
  pub cost_sensitivity : AwsCapabilityCostSensitivity

-- an entry of the registry, each of which is read-only
entry :
    String
    → String
    → String
    → Option String
    → AwsCapabilityCostSensitivity
    → AwsCapabilityDefinition
entry id iam_service iam_action request_service cost_sensitivity = record {
  id = id;
  iam_service = iam_service;
  iam_action = iam_action;
  request_service = request_service;
  readonly = true;
  cost_sensitivity = cost_sensitivity;
}

-- `AWS_CAPABILITY_REGISTRY`, whose keys are the entries' own identifiers
unfoldable pub aws_capability_registry : List AwsCapabilityDefinition
unfolding entry
aws_capability_registry =
    entry "ce:GetCostAndUsage" "ce" "ce:GetCostAndUsage" none paid
    ∷ entry "ec2:DescribeInstances" "ec2" "ec2:DescribeInstances" none fanout_sensitive
    ∷ entry "cloudwatch:DescribeAlarms" "cloudwatch" "cloudwatch:DescribeAlarms" (some "monitoring")
        fanout_sensitive
    ∷ entry "logs:FilterLogEvents" "logs" "logs:FilterLogEvents" none volume_sensitive
    ∷ entry "lambda:ListFunctions" "lambda" "lambda:ListFunctions" none fanout_sensitive
    ∷ entry "s3:ListAllMyBuckets" "s3" "s3:ListAllMyBuckets" none low
    ∷ entry "s3:GetBucketLocation" "s3" "s3:GetBucketLocation" none low
    ∷ entry "s3:GetBucketPublicAccessBlock" "s3" "s3:GetBucketPublicAccessBlock" none low
    ∷ entry "s3:GetBucketEncryption" "s3" "s3:GetEncryptionConfiguration" none low
    ∷ entry "s3:GetBucketVersioning" "s3" "s3:GetBucketVersioning" none low
    ∷ entry "s3:GetLifecycleConfiguration" "s3" "s3:GetLifecycleConfiguration" none low
    ∷ entry "s3:GetBucketPolicyStatus" "s3" "s3:GetBucketPolicyStatus" none low
    ∷ entry "ecr:DescribeImages" "ecr" "ecr:DescribeImages" none low
    ∷ entry "ecr:DescribeImageScanFindings" "ecr" "ecr:DescribeImageScanFindings" none low
    ∷ entry "ecr:GetLifecyclePolicy" "ecr" "ecr:GetLifecyclePolicy" none low
    ∷ entry "logs:DescribeLogGroups" "logs" "logs:DescribeLogGroups" none volume_sensitive
    ∷ entry "logs:DescribeLogStreams" "logs" "logs:DescribeLogStreams" none volume_sensitive
    ∷ entry "ecs:DescribeClusters" "ecs" "ecs:DescribeClusters" none low
    ∷ entry "ecs:DescribeServices" "ecs" "ecs:DescribeServices" none low
    ∷ entry "ecs:ListTasks" "ecs" "ecs:ListTasks" none volume_sensitive
    ∷ entry "ecs:DescribeTasks" "ecs" "ecs:DescribeTasks" none volume_sensitive
    ∷ entry "ecs:DescribeTaskDefinition" "ecs" "ecs:DescribeTaskDefinition" none low
    ∷ entry "rds:DescribeDBInstances" "rds" "rds:DescribeDBInstances" none low
    ∷ entry "rds:DescribeDBSubnetGroups" "rds" "rds:DescribeDBSubnetGroups" none low
    ∷ entry "cloudwatch:GetMetricData" "cloudwatch" "cloudwatch:GetMetricData" (some "monitoring")
        volume_sensitive
    ∷ entry "ssm:DescribeParameters" "ssm" "ssm:DescribeParameters" none fanout_sensitive
    ∷ entry "sts:AssumeRole" "sts" "sts:AssumeRole" none low
    ∷ entry "ses:GetConfigurationSet" "ses" "ses:GetConfigurationSet" (some "email") low
    ∷ entry "ses:GetConfigurationSetEventDestinations" "ses"
        "ses:GetConfigurationSetEventDestinations" (some "email") low
    ∷ entry "sns:ListTopics" "sns" "sns:ListTopics" none fanout_sensitive
    ∷ entry "sns:GetTopicAttributes" "sns" "sns:GetTopicAttributes" none low
    ∷ entry "sns:ListSubscriptionsByTopic" "sns" "sns:ListSubscriptionsByTopic" none low
    ∷ entry "events:ListRules" "events" "events:ListRules" none fanout_sensitive
    ∷ entry "events:DescribeRule" "events" "events:DescribeRule" none low
    ∷ entry "events:ListTargetsByRule" "events" "events:ListTargetsByRule" none low
    ∷ entry "scheduler:ListSchedules" "scheduler" "scheduler:ListSchedules" none fanout_sensitive
    ∷ entry "scheduler:GetSchedule" "scheduler" "scheduler:GetSchedule" none low
    ∷ entry "budgets:DescribeBudgets" "budgets" "budgets:ViewBudget" none low
    ∷ entry "budgets:DescribeNotificationsForBudget" "budgets" "budgets:ViewBudget" none low
    ∷ entry "budgets:DescribeSubscribersForNotification" "budgets" "budgets:ViewBudget" none low
    ∷ []

find_capability : List AwsCapabilityDefinition → String → Option AwsCapabilityDefinition
find_capability [] id = none
find_capability (c ∷ cs) id =
    let rest = find_capability cs id in if id == c.id then some c else rest

-- `getAwsCapability`, which throws on an identifier that the registry lacks
unfoldable pub get_aws_capability : String → Option AwsCapabilityDefinition
unfolding find_capability
get_aws_capability id = find_capability aws_capability_registry id

-- `isAwsCapabilityId`
unfoldable pub is_aws_capability_id : String → Bool
is_aws_capability_id id = is_some (get_aws_capability id)

-- `WRITE_ACTION_PREFIXES`
abbrev write_action_prefixes : List String
write_action_prefixes =
    "Create" ∷ "Put" ∷ "Delete" ∷ "Update" ∷ "Terminate" ∷ "Start" ∷ "Stop" ∷ "Attach" ∷ "Detach"
    ∷ "Modify" ∷ "Run" ∷ "Purchase" ∷ "Cancel" ∷ "Revoke" ∷ "Enable" ∷ "Disable" ∷ []

-- `action.includes(":") ? action.split(":")[1] : action`, from the parts of the action
action_name : String → List String → String
action_name action [] = action
action_name action (part ∷ []) = action
action_name action (part ∷ name ∷ parts) = name

-- `isReadOnlyIamAction`
unfoldable pub is_read_only_iam_action : String → Bool
unfolding action_name split
is_read_only_iam_action action =
    let name = action_name action (split (λ c. eqb c b':') action) in
    not (is_empty name) && every (λ p. not (is_some (strip_prefix p name))) write_action_prefixes

-- the entries that a list of identifiers names; an unknown one throws
with_capability :
    Option AwsCapabilityDefinition
    → Option (List AwsCapabilityDefinition)
    → Option (List AwsCapabilityDefinition)
with_capability (some c) (some cs) = some (c ∷ cs)
with_capability found rest = none

unfoldable pub capabilities_of : List String → Option (List AwsCapabilityDefinition)
unfolding with_capability
capabilities_of [] = some []
capabilities_of (id ∷ ids) = with_capability (get_aws_capability id) (capabilities_of ids)

-- `[...new Set(texts)].sort()`
unfoldable pub sorted_set : List String → List String
sorted_set texts = sort_texts (set_add_all [] texts)

-- `awsActionsForCapabilities`
unfoldable pub aws_actions_for_capabilities : List String → Option (List String)
unfolding capabilities_of sorted_set
aws_actions_for_capabilities ids =
    Option.map (λ (cs : List AwsCapabilityDefinition). sorted_set (map (λ c. c.iam_action) cs))
      (capabilities_of ids)

-- `awsServicesForCapabilities`
unfoldable pub aws_services_for_capabilities : List String → Option (List String)
unfolding capabilities_of sorted_set
aws_services_for_capabilities ids =
    Option.map (λ (cs : List AwsCapabilityDefinition). sorted_set (map (λ c. c.iam_service) cs))
      (capabilities_of ids)

-- The entry is declared read-only, and its permission is for an action that is none that writes.
abbrev pub IsReadOnly : AwsCapabilityDefinition → Type 0
IsReadOnly c = (c.readonly ≡ true) × (is_read_only_iam_action c.iam_action ≡ true)

only_reads : AwsCapabilityDefinition → Bool
only_reads c = c.readonly && is_read_only_iam_action c.iam_action

all_read : every only_reads aws_capability_registry ≡ true
unfolding only_reads aws_capability_registry entry is_read_only_iam_action action_name split
    aws_mcp_gateway.Base.strip_prefix
all_read = refl

found :
    (cs : List AwsCapabilityDefinition) (id : String) (c : AwsCapabilityDefinition)
    → every only_reads cs ≡ true
    → find_capability cs id ≡ some c
    → (c.id ≡ id) × IsReadOnly c
unfolding find_capability only_reads
found [] id c all h = cc
found (d ∷ cs) id c all h =
    let (here, later) = (and-eq-true_iff _ _).0 all in
    elim (Bool-cases (id == d.id)) [
      | inl same ↦
          let e = some-injective d c (rw same at h) in
          (
            ap (λ x. x.id) (sym e) ∙ sym ((string_eq_iff id d.id).0 same),
            subst IsReadOnly e ((and-eq-true_iff _ _).0 here),
          )
      | inr other ↦ found cs id c later (rw other at h)
    ]

-- Every capability that an identifier names carries that identifier, and is read-only.
pub get_aws_capability-readonly :
    (id : String) (c : AwsCapabilityDefinition)
    → get_aws_capability id ≡ some c
    → (c.id ≡ id) × IsReadOnly c
unfolding get_aws_capability
get_aws_capability-readonly id c h = found aws_capability_registry id c all_read h
