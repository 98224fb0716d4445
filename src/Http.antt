-- ===== src/Http.antt =====
-- The parts of a `Request` that the gateway reads. `header` is `request.headers.get`, whose names are
-- compared without regard to case by the platform.
use aws_mcp_gateway.Base.{String, Option}

pub record Request : Type 0 where
  pub method : String
  pub pathname : String
  pub header : String → Option String
