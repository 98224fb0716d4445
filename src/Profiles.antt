-- ===== src/Profiles.antt =====
-- profiles/types.ts and aws/credentials/types.ts: the applications that the gateway knows of.
pub mod Patterns
pub mod Fields
pub mod Blocks
pub mod Documents
pub mod Store
pub mod Access
pub mod Found
use aws_mcp_gateway.Base.{ℕ, Bool, Option, none, some, or_else, String, List}

-- `CredentialRequest`, which is also `ProfileAuthConfig`
pub data CredentialRequest : Type 0 where
  default : CredentialRequest
  assume_role :
      (role_arn : String) (external_id : Option String) (session_name : Option String)
      → CredentialRequest

-- `EcsResourceBlock`, and so on: what is optional may be absent
pub record EcsResourceBlock : Type 0 where
  pub cluster_name : String
  pub service_name : String
  pub log_group_name : Option String
  pub containers : Option (List String)
  pub auth : Option CredentialRequest

pub record RdsResourceBlock : Type 0 where
  pub db_instance_identifier : String
  pub auth : Option CredentialRequest

pub record SesResourceBlock : Type 0 where
  pub configuration_set_name : String
  pub auth : Option CredentialRequest

pub record S3ResourceBlock : Type 0 where
  pub bucket_name : String
  pub auth : Option CredentialRequest

pub record SsmResourceBlock : Type 0 where
  pub parameter_prefix : String
  pub required_parameter_names : Option (List String)
  pub auth : Option CredentialRequest

pub record EcrResourceBlock : Type 0 where
  pub repository_name : String
  pub auth : Option CredentialRequest

pub record SnsResourceBlock : Type 0 where
  pub topic_name : Option String
  pub topic_arn : Option String
  pub auth : Option CredentialRequest

pub record EventBridgeResourceBlock : Type 0 where
  pub rule_name_prefix : Option String
  pub schedule_name_prefix : Option String
  pub auth : Option CredentialRequest

pub record BudgetResourceBlock : Type 0 where
  pub budget_name : String
  pub account_id : Option String
  pub auth : Option CredentialRequest

pub record ProfileResources : Type 0 where
  pub ecs : Option EcsResourceBlock
  pub rds : Option RdsResourceBlock
  pub ses : Option SesResourceBlock
  pub s3 : Option S3ResourceBlock
  pub ssm : Option SsmResourceBlock
  pub ecr : Option EcrResourceBlock
  pub sns : Option SnsResourceBlock
  pub eventbridge : Option EventBridgeResourceBlock
  pub budget : Option BudgetResourceBlock

pub record SafeProfileIndexEntry : Type 0 where
  pub id : String
  pub display_name : String
  pub environment : String
  pub region : String
  pub enabled : Bool
  pub aliases : List String
  pub capabilities : List String

-- The version is always 1.
pub record ProfileIndex : Type 0 where
  pub profiles : List SafeProfileIndexEntry

pub record ValidatedAppProfile : Type 0 where
  pub id : String
  pub display_name : String
  pub environment : String
  pub region : String
  pub auth : Option CredentialRequest
  pub resources : ProfileResources

pub data ProfileStoreStatus : Type 0 where
  disabled available unavailable invalid_index : ProfileStoreStatus

pub record ListApplicationProfilesResult : Type 0 where
  pub status : ProfileStoreStatus
  pub profiles : List SafeProfileIndexEntry
  pub error : Option String

-- `resolveProfileAuth`
abbrev pub resolve_profile_auth : Option CredentialRequest → CredentialRequest
resolve_profile_auth auth = or_else auth default
