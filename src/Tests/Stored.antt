-- ===== src/Tests/Stored.antt =====
-- The cache, the store of profiles and the settings of numbers, run on concrete inputs.
use aws_mcp_gateway.Base.{◌≡◌, refl, false, none, some, [], ◌∷◌}
use aws_mcp_gateway.Errors.{ok}
use aws_mcp_gateway.Js.{Value, text}
use aws_mcp_gateway.Telemetry.{ExecutionCollector, reset, hit, disabled, unavailable}
use aws_mcp_gateway.Cache.{cache_read_with_status}
use aws_mcp_gateway.Env.{parse_positive}
use aws_mcp_gateway.Profiles.{assume_role, default}
use aws_mcp_gateway.Profiles.Access.{
  auth_strategy_label, assume_role_label, is_profile_config_available,
}

-- a number with a tail is accepted, as the platform's `parseInt` reads it
number_with_tail : parse_positive "12abc" ≡ some 12
unfolding parse_positive
number_with_tail = refl

fraction : parse_positive "1.5" ≡ some 1
unfolding parse_positive
fraction = refl

not_positive : parse_positive "0" ≡ none
unfolding parse_positive
not_positive = refl

read_hit : (cache_read_with_status (some (some (some (text "x")))) reset).0.value ≡ some (text "x")
unfolding cache_read_with_status
read_hit = refl

read_failed :
    (cache_read_with_status {A = Value} (some none) reset).1.cache_statuses ≡ unavailable ∷ []
unfolding cache_read_with_status aws_mcp_gateway.Telemetry.record_cache_status
read_failed = refl

no_cache : (cache_read_with_status {A = Value} none reset).0.status ≡ disabled
unfolding cache_read_with_status
no_cache = refl

-- the auth of a block comes before that of its profile
block_first :
    auth_strategy_label (some (assume_role "r" none none)) (some default) ≡ assume_role_label
unfolding auth_strategy_label
block_first = refl

no_store : is_profile_config_available none 0 "Not an id" ≡ ok false
unfolding is_profile_config_available
no_store = refl
