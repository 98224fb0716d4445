-- ===== src/Audit/Blind.antt =====
-- What the summaries of the audit log tell of the arguments of a tool.
use Prim.Native.Char.{code}
use mathlib.Core.List.Memᴰ
use aws_mcp_gateway.Base.{
  map, Memᴰ, ◌≡◌, refl, Bool-cases, inl, inr, true, String, List, [], ◌∷◌, units, is_empty,
  includes, string_eq, if◌then◌else◌, ltb, ◌==◌, ap, string_eq_iff, not,
}
use aws_mcp_gateway.Js.{
  Value, undefined, null, boolean, number, text, array, object, Items, nil, item, Fields, end,
  field, get,
}
use aws_mcp_gateway.Js.Numbers.{whole}
use aws_mcp_gateway.Audit.Values.{
  region_count, include_field, same_field, flag_field, is_truthy, length_of, count, length_field,
  given_field,
}
use aws_mcp_gateway.Audit.Inputs.{
  sanitize_no_input, summarize_cost_date_range_input, summarize_region_list_input,
  summarize_log_errors_input, summarize_cloudwatch_logs_input,
  summarize_cloudwatch_alarm_summary_input, summarize_s3_buckets_input, summarize_log_groups_input,
  summarize_account_overview_input, summarize_cost_overview_input,
  summarize_observability_overview_input, summarize_ecs_service_health_input,
  summarize_ecs_tasks_input, summarize_ecs_stopped_tasks_input, summarize_rds_instance_health_input,
  summarize_rds_metrics_input, summarize_ssm_parameter_inventory_input,
  summarize_ecr_image_status_input, summarize_ecs_ecr_image_compare_input,
  summarize_s3_bucket_posture_input, summarize_ses_configuration_status_input,
  summarize_sns_topic_status_input, summarize_event_bridge_rules_status_input,
  summarize_budget_status_input, summarize_application_profile_input,
  summarize_application_logs_input,
}

-- a text of the same length that tells nothing else
blanks : String → String
blanks String.[] = String.[]
blanks (String.◌∷◌ c s) = String.◌∷◌ (if ltb (code c) 0x10000 then "x" else "😀") (blanks s)

blank_items : Items → Items
blank_items nil = nil
blank_items (item v vs) = item null (blank_items vs)

blank_value : Value → Value
blank_value (text s) = text (blanks s)
blank_value (array items) = array (blank_items items)
blank_value value = value

-- the properties that the log may tell: numbers, states and the names of areas
abbrev told : List String
told =
    "granularity" ∷ "limit" ∷ "states" ∷ "hours" ∷ "lookbackMinutes" ∷ "stateValue" ∷ "include"
    ∷ "serviceLimit" ∷ "desiredStatus" ∷ "periodSeconds" ∷ []

shown : String → Value → Value
shown key value = if includes told key then value else blank_value value

-- The arguments, with every text and every array blanked but those of the properties that may be told.
unfoldable pub blank : Fields → Fields
unfolding blank_value blanks blank_items shown includes
blank end = end
blank (field key value rest) = field key (shown key value) (blank rest)

units-blanks : (s : String) → units (blanks s) ≡ units s
unfolding units blanks
units-blanks String.[] = refl
units-blanks (String.◌∷◌ c s) = elim (Bool-cases (ltb (code c) 0x10000)) [
  | inl one ↦ rw (one, units-blanks s)
  | inr two ↦ rw (two, units-blanks s)
]

is_empty-blanks : (s : String) → is_empty (blanks s) ≡ is_empty s
unfolding blanks
is_empty-blanks String.[] = refl
is_empty-blanks (String.◌∷◌ c s) = refl

count-blank_items : (vs : Items) → count (blank_items vs) ≡ count vs
unfolding count blank_items
count-blank_items nil = refl
count-blank_items (item v vs) = rw (count-blank_items vs)

-- what a function does not tell apart when a value is blanked, it does not when the value is shown
same_shown :
    {A : Type 0} (f : Value → A)
    → ((v : Value) → f (blank_value v) ≡ f v)
    → (key : String) (v : Value) → f (shown key v) ≡ f v
unfolding shown
same_shown f same key v = elim (Bool-cases (includes told key)) [
  | inl told_of ↦ rw told_of
  | inr other ↦ rw other (same v)
]

length_of-blank_value : (v : Value) → length_of (blank_value v) ≡ length_of v
unfolding length_of blank_value
length_of-blank_value (text s) = ap (λ n. number (whole n)) (units-blanks s)
length_of-blank_value (array items) = ap (λ n. number (whole n)) (count-blank_items items)
length_of-blank_value undefined = refl
length_of-blank_value null = refl
length_of-blank_value (boolean b) = refl
length_of-blank_value (number n) = refl
length_of-blank_value (object fields) = refl

is_truthy-blank_value : (v : Value) → is_truthy (blank_value v) ≡ is_truthy v
unfolding is_truthy blank_value
is_truthy-blank_value (text s) = ap not (is_empty-blanks s)
is_truthy-blank_value (array items) = refl
is_truthy-blank_value undefined = refl
is_truthy-blank_value null = refl
is_truthy-blank_value (boolean b) = refl
is_truthy-blank_value (number n) = refl
is_truthy-blank_value (object fields) = refl

get-blank : (key : String) (args : Fields) → get key (blank args) ≡ shown key (get key args)
unfolding get blank blank_value shown
get-blank key end = elim (Bool-cases (includes told key)) [
  | inl told_of ↦ rw told_of
  | inr other ↦ rw other
]
get-blank key (field k v rest) = elim (Bool-cases (k == key)) [
  | inl same ↦ rw same (ap (λ x. shown x v) ((string_eq_iff k key).0 same))
  | inr other ↦ rw other (get-blank key rest)
]

length_of-blank :
    (key : String) (args : Fields) → length_of (get key (blank args)) ≡ length_of (get key args)
length_of-blank key args =
    rw get-blank (same_shown length_of length_of-blank_value key (get key args))

is_truthy-blank :
    (key : String) (args : Fields) → is_truthy (get key (blank args)) ≡ is_truthy (get key args)
is_truthy-blank key args =
    rw get-blank (same_shown is_truthy is_truthy-blank_value key (get key args))

-- a property that may be told is as it was
told-blank :
    (key : String) (args : Fields) → includes told key ≡ true → get key (blank args) ≡ get key args
unfolding shown
told-blank key args is_told = rw (get-blank, is_told)

-- the summaries of mcp/audit/tool-input.ts
abbrev pub summaries : List (Fields → Fields)
summaries =
    sanitize_no_input ∷ summarize_cost_date_range_input ∷ summarize_region_list_input
    ∷ summarize_log_errors_input ∷ summarize_cloudwatch_logs_input
    ∷ summarize_cloudwatch_alarm_summary_input ∷ summarize_s3_buckets_input
    ∷ summarize_log_groups_input ∷ summarize_account_overview_input ∷ summarize_cost_overview_input
    ∷ summarize_observability_overview_input ∷ summarize_ecs_service_health_input
    ∷ summarize_ecs_tasks_input ∷ summarize_ecs_stopped_tasks_input
    ∷ summarize_rds_instance_health_input ∷ summarize_rds_metrics_input
    ∷ summarize_ssm_parameter_inventory_input ∷ summarize_ecr_image_status_input
    ∷ summarize_ecs_ecr_image_compare_input ∷ summarize_s3_bucket_posture_input
    ∷ summarize_ses_configuration_status_input ∷ summarize_sns_topic_status_input
    ∷ summarize_event_bridge_rules_status_input ∷ summarize_budget_status_input
    ∷ summarize_application_profile_input ∷ summarize_application_logs_input ∷ []

all_blind :
    (args : Fields)
    → map (λ (f : Fields → Fields). f (blank args)) summaries ≡ map (λ f. f args) summaries
unfolding sanitize_no_input summarize_cost_date_range_input summarize_region_list_input
    summarize_log_errors_input summarize_cloudwatch_logs_input
    summarize_cloudwatch_alarm_summary_input summarize_s3_buckets_input summarize_log_groups_input
    summarize_account_overview_input summarize_cost_overview_input
    summarize_observability_overview_input summarize_ecs_service_health_input
    summarize_ecs_tasks_input summarize_ecs_stopped_tasks_input summarize_rds_instance_health_input
    summarize_rds_metrics_input summarize_ssm_parameter_inventory_input
    summarize_ecr_image_status_input summarize_ecs_ecr_image_compare_input
    summarize_s3_bucket_posture_input summarize_ses_configuration_status_input
    summarize_sns_topic_status_input summarize_event_bridge_rules_status_input
    summarize_budget_status_input summarize_application_profile_input
    summarize_application_logs_input length_field flag_field given_field same_field include_field
    region_count includes
all_blind args = simp (length_of-blank, is_truthy-blank, told-blank)

same_at :
    {A B : Type 0} (g h : A → B) (xs : List A) (x : A) → map g xs ≡ map h xs → Memᴰ x xs → g x ≡ h x
same_at g h [] x e m = absurd (Memᴰ.not-nil m)
same_at g h (y ∷ xs) x e m = elim (Memᴰ.cases_cons m) [
  | inl same ↦ cc
  | inr m ↦ same_at g h xs x (cc) m
]

-- What a summary tells of the arguments is the same when every text and every array in them, but those of
-- the ten properties that may be told, is replaced by one of the same length that has no content.
pub summary-blank :
    (summary : Fields → Fields) (args : Fields)
    → Memᴰ summary summaries
    → summary (blank args) ≡ summary args
summary-blank summary args m =
    same_at (λ f. f (blank args)) (λ f. f args) summaries summary (all_blind args) m
