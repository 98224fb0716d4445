-- ===== src/Ecs/Definitions.antt =====
-- aws/ecs/parse.ts (`normalizeTaskDefinitionMetadata`): a task definition that ECS sends, and what the
-- gateway keeps of it.
use mathlib.Core.Option
use aws_mcp_gateway.Base.{Option, or_else, String, List, [], map}
use aws_mcp_gateway.Js.Numbers.{Num, whole}
use aws_mcp_gateway.Ecs.Parse.{if_given}

-- a variable of a container, or a secret, with its value or where it comes from
pub record NamedValue : Type 0 where
  pub name : Option String
  pub value : Option String

-- a container of `DescribeTaskDefinitionResponse`
pub record ContainerDefinition : Type 0 where
  pub name : Option String
  pub image : Option String
  pub cpu : Option Num
  pub memory : Option Num
  pub memory_reservation : Option Num
  pub environment : Option (List NamedValue)
  pub secrets : Option (List NamedValue)
  pub secret_options : Option (List NamedValue)

pub record TaskDefinition : Type 0 where
  pub family : Option String
  pub revision : Option Num
  pub cpu : Option String
  pub memory : Option String
  pub container_definitions : Option (List ContainerDefinition)

-- `DescribeTaskDefinitionResponse`
pub record DescribeTaskDefinitionResponse : Type 0 where
  pub task_definition : Option TaskDefinition

pub record SafeContainer : Type 0 where
  pub name : String
  pub image : String
  pub cpu : Option Num
  pub memory : Option Num
  pub memory_reservation : Option Num

-- `SafeTaskDefinitionMetadata`
pub record SafeTaskDefinitionMetadata : Type 0 where
  pub family : String
  pub revision : Num
  pub cpu : Option String
  pub memory : Option String
  pub containers : List SafeContainer

unfoldable pub safe_container : ContainerDefinition → SafeContainer
safe_container c = record {
  name = or_else c.name "";
  image = or_else c.image "";
  cpu = c.cpu;
  memory = c.memory;
  memory_reservation = c.memory_reservation;
}

unfoldable pub safe_definition : TaskDefinition → SafeTaskDefinitionMetadata
unfolding safe_container if_given
safe_definition definition = record {
  family = or_else definition.family "";
  revision = or_else definition.revision (whole 0);
  cpu = if_given definition.cpu;
  memory = if_given definition.memory;
  containers = map safe_container (or_else definition.container_definitions []);
}

-- `normalizeTaskDefinitionMetadata`
unfoldable pub normalize_task_definition_metadata :
    DescribeTaskDefinitionResponse → Option SafeTaskDefinitionMetadata
unfolding safe_definition
normalize_task_definition_metadata response = Option.map safe_definition response.task_definition
