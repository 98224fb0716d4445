-- ===== src/Tests/Counting.antt =====
-- The capabilities and the collector at concrete inputs.
use aws_mcp_gateway.Base.{◌+◌, ◌≡◌, refl, Option, none, some, String, List, [], ◌∷◌, string_eq}
use aws_mcp_gateway.Telemetry.{aws_request_key, parse_aws_request_key, reset}
use aws_mcp_gateway.Telemetry.Counts.{record_all, count_of, asked_for, count_of-record_all}
use aws_mcp_gateway.Telemetry.Keys.{parse_aws_request_key-aws_request_key}

-- the collector

abbrev three_requests : List (String × Option String)
three_requests =
    ("ec2:DescribeInstances", some "us-east-1")
    ∷ ("ce:GetCostAndUsage", none)
    ∷ ("ec2:DescribeInstances", some "us-east-1")
    ∷ []

count_of-record_all_example :
    count_of "ec2:DescribeInstances|us-east-1" (record_all reset three_requests).aws_request_counts
    ≡ 0 + asked_for "ec2:DescribeInstances|us-east-1" three_requests
count_of-record_all_example =
    count_of-record_all reset three_requests "ec2:DescribeInstances|us-east-1"

parse_aws_request_key-aws_request_key_example :
    parse_aws_request_key (aws_request_key "s3:GetBucketLocation" (some "us-east-1"))
    ≡ ("s3:GetBucketLocation", some "us-east-1")
parse_aws_request_key-aws_request_key_example =
    parse_aws_request_key-aws_request_key "s3:GetBucketLocation" (some "us-east-1") refl
