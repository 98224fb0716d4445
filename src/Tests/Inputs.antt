-- ===== src/Tests/Inputs.antt =====
-- Inputs that several tests share.
use aws_mcp_gateway.Base.{ℕ, Option, none, String, List, [], ◌∷◌, ◌==◌, string_eq, if◌then◌else◌}
use aws_mcp_gateway.Http.{Request}

abbrev pub request_of : Option String → Request
request_of authorization = record {
  method = "POST";
  pathname = "/mcp";
  header = λ name. if name == "Authorization" then authorization else none;
}

abbrev pub two_regions : List String
two_regions = "us-east-1" ∷ "eu-west-1" ∷ []

abbrev pub may_2024_ms : ℕ
may_2024_ms = 1714521600000
