-- ===== src/Tests/Pages.antt =====
-- What is asked of ECS, and the names of parameters, at concrete inputs.
use aws_mcp_gateway.Base.{
  suc, ◌≡◌, map, trim, ◌↔◌, ◌<◌, All, ◌≤◌, zero, suc, refl, some, none, [], ◌∷◌,
}
use aws_mcp_gateway.Errors.{ok, thrown, invalid}
use aws_mcp_gateway.Js.Numbers.{whole, ratio, nan}
use aws_mcp_gateway.Ecs.{validate_task_limit, validate_lookback_minutes, validate_desired_status}
use aws_mcp_gateway.Ssm.{
  validate_parameter_prefix, build_parameter_path, validate_required_parameter_names,
}
use aws_mcp_gateway.Ssm.Names.{IsName, validate_required_parameter_names_iff}

fraction_of_minutes :
    validate_lookback_minutes (some (ratio 3 1))
    ≡ thrown (invalid "lookbackMinutes must be at least 1.")
unfolding validate_lookback_minutes aws_mcp_gateway.Js.Numbers.is_positive_integer
fraction_of_minutes = refl

no_limit : validate_task_limit none ≡ ok 100
unfolding validate_task_limit aws_mcp_gateway.Js.Numbers.is_positive_integer
    aws_mcp_gateway.Ecs.integer_of
no_limit = refl

unknown_status :
    validate_desired_status (some "running")
    ≡ thrown (invalid "desiredStatus must be one of: RUNNING, PENDING, STOPPED.")
unfolding validate_desired_status aws_mcp_gateway.Base.includes
unknown_status = refl

-- parameters

trimmed_prefix : validate_parameter_prefix " /app/prod/ " ≡ ok "/app/prod"
unfolding validate_parameter_prefix aws_mcp_gateway.Base.trim aws_mcp_gateway.Base.strip_prefix
    aws_mcp_gateway.Base.units aws_mcp_gateway.Profiles.Patterns.matches
    aws_mcp_gateway.Profiles.Patterns.test
    aws_mcp_gateway.Profiles.Patterns.connection_string_pattern
    aws_mcp_gateway.Profiles.Patterns.key_value_secret_pattern
    aws_mcp_gateway.Profiles.Patterns.pem_block_pattern
    aws_mcp_gateway.Ssm.normalize_parameter_prefix
trimmed_prefix = refl

relative_prefix :
    validate_parameter_prefix "app"
    ≡ thrown (invalid "parameterPrefix must be a path-like SSM prefix starting with '/'.")
unfolding validate_parameter_prefix aws_mcp_gateway.Base.trim aws_mcp_gateway.Base.strip_prefix
relative_prefix = refl

root_path : build_parameter_path "/" "db/url" ≡ "//db/url"
unfolding build_parameter_path aws_mcp_gateway.Ssm.normalize_parameter_prefix
    aws_mcp_gateway.Base.units aws_mcp_gateway.Base.trim
root_path = refl

second_is_empty :
    validate_required_parameter_names ("a" ∷ " " ∷ [])
    ≡ thrown (invalid "requiredParameterNames[1] must be a non-empty relative name.")
unfolding validate_required_parameter_names aws_mcp_gateway.Ssm.validate_names_from
    aws_mcp_gateway.Ssm.validate_required_parameter_name aws_mcp_gateway.Base.trim
    aws_mcp_gateway.Base.strip_prefix aws_mcp_gateway.Base.units aws_mcp_gateway.Base.split
    aws_mcp_gateway.Profiles.Patterns.matches aws_mcp_gateway.Profiles.Patterns.test
    aws_mcp_gateway.Profiles.Patterns.connection_string_pattern
    aws_mcp_gateway.Profiles.Patterns.key_value_secret_pattern
    aws_mcp_gateway.Profiles.Patterns.long_base64_pattern aws_mcp_gateway.Base.show
second_is_empty = refl

empty_part :
    validate_required_parameter_names ("a//b" ∷ [])
    ≡ thrown (invalid "requiredParameterNames[0] contains invalid characters.")
unfolding validate_required_parameter_names aws_mcp_gateway.Ssm.validate_names_from
    aws_mcp_gateway.Ssm.validate_required_parameter_name aws_mcp_gateway.Base.trim
    aws_mcp_gateway.Base.strip_prefix aws_mcp_gateway.Base.units aws_mcp_gateway.Base.split
    aws_mcp_gateway.Profiles.Patterns.matches aws_mcp_gateway.Base.show
empty_part = refl

validate_required_parameter_names_iff_example :
    (validate_required_parameter_names (" db/url " ∷ "key" ∷ []) ≡ ok ("db/url" ∷ "key" ∷ [])) ↔ (
      (0 < 2)
      × (2 ≤ 50)
      × All IsName ("db/url" ∷ "key" ∷ [])
      × (map trim (" db/url " ∷ "key" ∷ []) ≡ "db/url" ∷ "key" ∷ []))
unfolding trim
validate_required_parameter_names_iff_example =
    validate_required_parameter_names_iff (" db/url " ∷ "key" ∷ []) ("db/url" ∷ "key" ∷ [])
