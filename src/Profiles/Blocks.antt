-- ===== src/Profiles/Blocks.antt =====
-- profiles/validation.ts: the blocks of resources.
use aws_mcp_gateway.Base.{
  Bool, true, false, ◌&&◌, ◌||◌, not, Option, none, some, is_some, String, List, [], ◌∷◌, is_empty,
  includes, string_eq, strip_prefix, ltb, if◌then◌else◌, ◌<>◌, join,
}
use aws_mcp_gateway.Errors.{Result, ok, thrown, invalid, ◌>>=◌, ◌>>◌}
use aws_mcp_gateway.Js.{Value, undefined, null, object, Fields, end, field, get}
use aws_mcp_gateway.Profiles.{
  EcsResourceBlock, RdsResourceBlock, SesResourceBlock, S3ResourceBlock, SsmResourceBlock,
  EcrResourceBlock, SnsResourceBlock, EventBridgeResourceBlock, BudgetResourceBlock,
  ProfileResources,
}
use aws_mcp_gateway.Profiles.Patterns.{run, matches, is_decimal}
use aws_mcp_gateway.Profiles.Fields.{
  throw_if, validate_string_field, validate_optional_field, validate_string_array,
  parse_optional_block_auth, if_any,
}

-- `typeof value !== "object" || value === null || Array.isArray(value)`
unfoldable pub as_object : Value → String → Result Fields
as_object (object fields) message = ok fields
as_object value message = thrown (invalid message)

-- `...(xs.length > 0 ? { xs } : {})`
abbrev pub if_items : List String → Option (List String)
if_items [] = none
if_items (s ∷ ss) = some (s ∷ ss)

-- `validateEcsBlock`
unfoldable pub validate_ecs_block : Value → Result EcsResourceBlock
validate_ecs_block value = do
  fields ← as_object value "resources.ecs must be an object."
  cluster_name ←
      validate_string_field (get "clusterName" fields) "resources.ecs.clusterName" 256 true
  service_name ←
      validate_string_field (get "serviceName" fields) "resources.ecs.serviceName" 256 true
  log_group_name ←
      validate_optional_field (get "logGroupName" fields) "resources.ecs.logGroupName" 256
  containers ← validate_string_array (get "containers" fields) "resources.ecs.containers" 20 256
  auth ← parse_optional_block_auth fields "resources.ecs"
  ok (record {
    cluster_name = cluster_name;
    service_name = service_name;
    log_group_name = if_any log_group_name;
    containers = if_items containers;
    auth = auth;
  })

-- `validateRdsBlock`
unfoldable pub validate_rds_block : Value → Result RdsResourceBlock
validate_rds_block value = do
  fields ← as_object value "resources.rds must be an object."
  auth ← parse_optional_block_auth fields "resources.rds"
  identifier ←
      validate_string_field (get "dbInstanceIdentifier" fields) "resources.rds.dbInstanceIdentifier"
        63 true
  ok (record { db_instance_identifier = identifier; auth = auth })

-- `validateSesBlock`
unfoldable pub validate_ses_block : Value → Result SesResourceBlock
validate_ses_block value = do
  fields ← as_object value "resources.ses must be an object."
  auth ← parse_optional_block_auth fields "resources.ses"
  name ←
      validate_string_field (get "configurationSetName" fields) "resources.ses.configurationSetName"
        64 true
  ok (record { configuration_set_name = name; auth = auth })

-- `validateS3Block`
unfoldable pub validate_s3_block : Value → Result S3ResourceBlock
validate_s3_block value = do
  fields ← as_object value "resources.s3 must be an object."
  auth ← parse_optional_block_auth fields "resources.s3"
  name ← validate_string_field (get "bucketName" fields) "resources.s3.bucketName" 256 true
  ok (record { bucket_name = name; auth = auth })

-- `validateSsmBlock`
unfoldable pub validate_ssm_block : Value → Result SsmResourceBlock
validate_ssm_block value = do
  fields ← as_object value "resources.ssm must be an object."
  prefix ←
      validate_string_field (get "parameterPrefix" fields) "resources.ssm.parameterPrefix" 512 true
  throw_if (not (is_some (strip_prefix "/" prefix)))
      "resources.ssm.parameterPrefix must start with '/'."
  names ←
      validate_string_array (get "requiredParameterNames" fields)
        "resources.ssm.requiredParameterNames" 50 256
  auth ← parse_optional_block_auth fields "resources.ssm"
  ok (record { parameter_prefix = prefix; required_parameter_names = if_items names; auth = auth })

-- `validateEcrBlock`
unfoldable pub validate_ecr_block : Value → Result EcrResourceBlock
validate_ecr_block value = do
  fields ← as_object value "resources.ecr must be an object."
  auth ← parse_optional_block_auth fields "resources.ecr"
  name ← validate_string_field (get "repositoryName" fields) "resources.ecr.repositoryName" 256 true
  ok (record { repository_name = name; auth = auth })

-- `validateSnsBlock`
unfoldable pub validate_sns_block : Value → Result SnsResourceBlock
validate_sns_block value = do
  fields ← as_object value "resources.sns must be an object."
  topic_name ← validate_optional_field (get "topicName" fields) "resources.sns.topicName" 256
  topic_arn ← validate_optional_field (get "topicArn" fields) "resources.sns.topicArn" 1600
  throw_if (is_empty topic_name && is_empty topic_arn)
      "resources.sns must include topicName or topicArn."
  throw_if (not (is_empty topic_name) && not (is_empty topic_arn))
      "resources.sns must include topicName or topicArn, not both."
  auth ← parse_optional_block_auth fields "resources.sns"
  ok (record { topic_name = if_any topic_name; topic_arn = if_any topic_arn; auth = auth })

-- `validateEventBridgeBlock`
unfoldable pub validate_eventbridge_block : Value → Result EventBridgeResourceBlock
validate_eventbridge_block value = do
  fields ← as_object value "resources.eventbridge must be an object."
  rule ←
      validate_optional_field (get "ruleNamePrefix" fields) "resources.eventbridge.ruleNamePrefix"
        256
  schedule ←
      validate_optional_field (get "scheduleNamePrefix" fields)
        "resources.eventbridge.scheduleNamePrefix" 256
  throw_if (is_empty rule && is_empty schedule)
      "resources.eventbridge must include ruleNamePrefix or scheduleNamePrefix."
  auth ← parse_optional_block_auth fields "resources.eventbridge"
  ok (record {
    rule_name_prefix = if_any rule;
    schedule_name_prefix = if_any schedule;
    auth = auth;
  })

-- `/^\d{12}$/`
is_account_id : String → Bool
is_account_id s = matches (run is_decimal 12 (some 12) ∷ []) s

-- `validateBudgetBlock`
unfoldable pub validate_budget_block : Value → Result BudgetResourceBlock
unfolding is_account_id
validate_budget_block value = do
  fields ← as_object value "resources.budget must be an object."
  name ← validate_string_field (get "budgetName" fields) "resources.budget.budgetName" 100 true
  account ← validate_optional_field (get "accountId" fields) "resources.budget.accountId" 12
  throw_if (not (is_empty account) && not (is_account_id account))
      "resources.budget.accountId must be a 12-digit AWS account ID."
  auth ← parse_optional_block_auth fields "resources.budget"
  ok (record { budget_name = name; account_id = if_any account; auth = auth })

-- `KNOWN_RESOURCE_BLOCKS`
abbrev pub known_resource_blocks : List String
known_resource_blocks =
    "ecs" ∷ "rds" ∷ "ses" ∷ "s3" ∷ "ssm" ∷ "ecr" ∷ "sns" ∷ "eventbridge" ∷ "budget" ∷ []

unfoldable pub unknown_keys : Fields → List String
unknown_keys end = []
unknown_keys (field k v fs) =
    let rest = unknown_keys fs in if includes known_resource_blocks k then rest else k ∷ rest

unfoldable pub no_keys : List String → Bool
no_keys [] = true
no_keys (k ∷ ks) = false

-- `if (blockValue === undefined || blockValue === null) continue;`
unfoldable pub when_present : {A : Type 0} → Value → (Value → Result A) → Result (Option A)
when_present undefined validate = ok none
when_present null validate = ok none
when_present value validate = do block ← validate value; ok (some block)

-- `Object.keys(resources).length`
unfoldable pub has_block : ProfileResources → Bool
has_block r =
    is_some r.ecs
    || is_some r.rds
    || is_some r.ses
    || is_some r.s3
    || is_some r.ssm
    || is_some r.ecr
    || is_some r.sns
    || is_some r.eventbridge
    || is_some r.budget

-- the loop over the known blocks
unfoldable pub validate_blocks : Fields → Result ProfileResources
validate_blocks fields = do
  ecs ← when_present (get "ecs" fields) validate_ecs_block
  rds ← when_present (get "rds" fields) validate_rds_block
  ses ← when_present (get "ses" fields) validate_ses_block
  s3 ← when_present (get "s3" fields) validate_s3_block
  ssm ← when_present (get "ssm" fields) validate_ssm_block
  ecr ← when_present (get "ecr" fields) validate_ecr_block
  sns ← when_present (get "sns" fields) validate_sns_block
  eventbridge ← when_present (get "eventbridge" fields) validate_eventbridge_block
  budget ← when_present (get "budget" fields) validate_budget_block
  ok (record {
    ecs = ecs;
    rds = rds;
    ses = ses;
    s3 = s3;
    ssm = ssm;
    ecr = ecr;
    sns = sns;
    eventbridge = eventbridge;
    budget = budget;
  })

-- `validateResources`
unfoldable pub validate_resources : Value → Result ProfileResources
unfolding unknown_keys no_keys
validate_resources value = do
  fields ← as_object value "resources must be an object."
  throw_if (not (no_keys (unknown_keys fields)))
      ("resources contains unknown block(s): " <> join ", " (unknown_keys fields) <> ".")
  resources ← validate_blocks fields
  throw_if (not (has_block resources)) "Profile must include at least one known resource block."
  throw_if (ltb 5 (if is_some resources.s3 then 1 else 0))
      "Profile must not exceed 5 S3 bucket block(s)."
  ok resources
