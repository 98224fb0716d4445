-- ===== src/Audit/Inputs.antt =====
-- mcp/audit/tool-input.ts: what the audit log keeps of the arguments of a tool, which are the properties
-- of an object.
use aws_mcp_gateway.Base.{◌&&◌, true}
use aws_mcp_gateway.Js.{number, boolean, Fields, end, field, get}
use aws_mcp_gateway.Js.Numbers.{whole}
use aws_mcp_gateway.Audit.Values.{
  is_truthy, length_of, or_value, more_than_none, length_field, flag_field, same_field, given_field,
  region_count, include_field,
}

module _ (args : Fields) where
  -- `sanitizeNoInput`
  unfoldable pub sanitize_no_input : Fields
  sanitize_no_input = end

  -- `summarizeCostDateRangeInput`
  unfoldable pub summarize_cost_date_range_input : Fields
  unfolding same_field given_field
  summarize_cost_date_range_input =
      field "hasDateRange" (boolean true)
        (same_field args "granularity" (given_field args "limit" end))

  -- `summarizeRegionListInput`
  unfoldable pub summarize_region_list_input : Fields
  unfolding region_count
  summarize_region_list_input = region_count args (field "stateFilter" (get "states" args) end)

  -- `summarizeLogErrorsInput`
  unfoldable pub summarize_log_errors_input : Fields
  unfolding same_field
  summarize_log_errors_input =
      field "hasLogGroupName" (boolean true) (same_field args "hours" (same_field args "limit" end))

  -- `summarizeCloudwatchLogsInput`
  unfoldable pub summarize_cloudwatch_logs_input : Fields
  unfolding length_field same_field
  summarize_cloudwatch_logs_input = field "hasLogGroupName" (boolean true) (
      length_field args "prefixLength" "logStreamNamePrefix" (
        field "hasQuery"
          (boolean (is_truthy (get "query" args) && more_than_none (length_of (get "query" args))))
          (same_field args "lookbackMinutes" (same_field args "limit" end))))

  -- `summarizeCloudwatchAlarmSummaryInput`
  unfoldable pub summarize_cloudwatch_alarm_summary_input : Fields
  unfolding length_field same_field
  summarize_cloudwatch_alarm_summary_input =
      length_field args "prefixLength" "alarmNamePrefix"
        (same_field args "stateValue" (same_field args "limit" end))

  -- `summarizeS3BucketsInput`
  unfoldable pub summarize_s3_buckets_input : Fields
  unfolding given_field
  summarize_s3_buckets_input = given_field args "limit" end

  -- `summarizeLogGroupsInput`
  unfoldable pub summarize_log_groups_input : Fields
  unfolding length_field given_field
  summarize_log_groups_input =
      length_field args "prefixLength" "prefix" (given_field args "limit" end)

  -- `summarizeAccountOverviewInput`
  unfoldable pub summarize_account_overview_input : Fields
  unfolding region_count include_field
  summarize_account_overview_input = region_count args (
      field "includeCount" (or_value (length_of (get "include" args)) (number (whole 1)))
        (include_field args "ec2" end))

  -- `summarizeCostOverviewInput`
  unfoldable pub summarize_cost_overview_input : Fields
  unfolding same_field given_field
  summarize_cost_overview_input =
      field "hasDateRange" (boolean true)
        (same_field args "granularity" (given_field args "serviceLimit" end))

  -- `summarizeObservabilityOverviewInput`
  unfoldable pub summarize_observability_overview_input : Fields
  unfolding given_field region_count include_field
  summarize_observability_overview_input =
      region_count args (include_field args "alarms" (given_field args "limit" end))

  -- `summarizeEcsServiceHealthInput`
  unfoldable pub summarize_ecs_service_health_input : Fields
  unfolding flag_field
  summarize_ecs_service_health_input =
      flag_field args "hasClusterName" "clusterName"
        (flag_field args "hasServiceName" "serviceName" end)

  -- `summarizeEcsTasksInput`
  unfoldable pub summarize_ecs_tasks_input : Fields
  unfolding flag_field same_field given_field
  summarize_ecs_tasks_input =
      flag_field args "hasServiceName" "serviceName"
        (same_field args "desiredStatus" (given_field args "limit" end))

  -- `summarizeEcsStoppedTasksInput`
  unfoldable pub summarize_ecs_stopped_tasks_input : Fields
  unfolding flag_field same_field given_field
  summarize_ecs_stopped_tasks_input =
      flag_field args "hasServiceName" "serviceName"
        (same_field args "lookbackMinutes" (given_field args "limit" end))

  -- `summarizeRdsInstanceHealthInput`
  unfoldable pub summarize_rds_instance_health_input : Fields
  unfolding flag_field
  summarize_rds_instance_health_input =
      flag_field args "hasDbInstanceIdentifier" "dbInstanceIdentifier" end

  -- `summarizeRdsMetricsInput`
  unfoldable pub summarize_rds_metrics_input : Fields
  unfolding flag_field same_field given_field
  summarize_rds_metrics_input =
      flag_field args "hasDbInstanceIdentifier" "dbInstanceIdentifier"
        (same_field args "lookbackMinutes" (given_field args "periodSeconds" end))

  -- `summarizeSsmParameterInventoryInput`
  unfoldable pub summarize_ssm_parameter_inventory_input : Fields
  unfolding length_field
  summarize_ssm_parameter_inventory_input =
      length_field args "prefixLength" "parameterPrefix"
        (length_field args "requiredParameterCount" "requiredParameterNames" end)

  -- `summarizeEcrImageStatusInput`
  unfoldable pub summarize_ecr_image_status_input : Fields
  unfolding flag_field
  summarize_ecr_image_status_input = flag_field args "hasRepositoryName" "repositoryName" (
      flag_field args "hasImageTag" "imageTag" (flag_field args "hasImageDigest" "imageDigest" end))

  -- `summarizeEcsEcrImageCompareInput`
  unfoldable pub summarize_ecs_ecr_image_compare_input : Fields
  unfolding flag_field
  summarize_ecs_ecr_image_compare_input = flag_field args "hasClusterName" "clusterName" (
      flag_field args "hasServiceName" "serviceName" (
        flag_field args "hasRepositoryName" "repositoryName"
          (flag_field args "hasExpectedImageDigest" "expectedImageDigest" end)))

  -- `summarizeS3BucketPostureInput`
  unfoldable pub summarize_s3_bucket_posture_input : Fields
  unfolding length_field
  summarize_s3_bucket_posture_input = length_field args "bucketNameLength" "bucketName" end

  -- `summarizeSesConfigurationStatusInput`
  unfoldable pub summarize_ses_configuration_status_input : Fields
  unfolding length_field
  summarize_ses_configuration_status_input =
      length_field args "configurationSetNameLength" "configurationSetName" end

  -- `summarizeSnsTopicStatusInput`
  unfoldable pub summarize_sns_topic_status_input : Fields
  unfolding flag_field
  summarize_sns_topic_status_input =
      flag_field args "hasTopicName" "topicName" (flag_field args "hasTopicArn" "topicArn" end)

  -- `summarizeEventBridgeRulesStatusInput`
  unfoldable pub summarize_event_bridge_rules_status_input : Fields
  unfolding length_field given_field
  summarize_event_bridge_rules_status_input =
      length_field args "rulePrefixLength" "ruleNamePrefix" (
        length_field args "schedulePrefixLength" "scheduleNamePrefix"
          (given_field args "limit" end))

  -- `summarizeBudgetStatusInput`
  unfoldable pub summarize_budget_status_input : Fields
  unfolding length_field flag_field
  summarize_budget_status_input =
      length_field args "budgetNameLength" "budgetName"
        (flag_field args "hasAccountId" "accountId" end)

  -- `summarizeApplicationProfileInput`
  unfoldable pub summarize_application_profile_input : Fields
  unfolding length_field
  summarize_application_profile_input = length_field args "profileIdLength" "profileId" end

  -- `summarizeApplicationLogsInput`
  unfoldable pub summarize_application_logs_input : Fields
  unfolding length_field given_field
  summarize_application_logs_input =
      length_field args "profileIdLength" "profileId"
        (given_field args "hours" (given_field args "limit" end))
