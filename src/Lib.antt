-- ===== src/Lib.antt =====
-- The AWS MCP gateway: a worker that answers the Model Context Protocol at `/mcp` and runs read-only
-- tools against AWS. A request passes the rate limit of its caller, then authentication, and reaches a
-- tool; the tool's handler runs only where the policy gate allows the call, and what it asked of AWS is
-- counted.
--
-- Which file models which part (paths are from the root of the repository):
--   RateLimit         src/security/rate-limit.ts: `evaluate` is `evaluateRateLimitWindow`,
--                     `object_fetch` the durable object, `enforce` is `enforceRateLimit`
--   Regions           src/security/regions.ts
--   Dates             src/security/dates.ts
--   Manifest          src/mcp/tools/manifest.ts and packs.ts: what a tool declares, which are exposed
--   Policy            src/mcp/tools/policy.ts: `evaluate_tool_policy` is `evaluateToolPolicy`
--   Exposure          src/config/tool-exposure.ts
--   Policy.CostControl  src/mcp/tools/cost-control-policy.ts
--   Policy.Scopes     src/auth/oauth/scopes.ts, `hasRequiredScopes`
--   Auth              src/auth/bearer.ts and the configuration of src/auth/oauth/types.ts
--   Auth.Claims       src/auth/oauth/scopes.ts and token-claims.ts
--   Auth.OAuth        src/auth/oauth/verify-token.ts and introspection.ts; Auth.KeySets is jwks.ts
--   Env               src/config/env.ts and auth-mode.ts; Env.Urls is oauth-urls.ts, Env.OAuth
--                     `validateOAuthConfig`, Env.Deployment `validateEnv`
--   Gateway           src/index.ts (`fetch`), src/auth/index.ts and src/config/context.ts
--   Profiles          src/profiles/types.ts; Profiles.Patterns has the regular expressions of
--                     validation.ts, Profiles.Fields, Blocks and Documents its functions, and
--                     Profiles.Store is keys.ts, loader.ts and the resolution of access.ts, whose
--                     other functions are Profiles.Access
--   Capabilities      src/aws/capabilities.ts
--   Credentials       src/aws/credentials/resolver.ts and helpers.ts
--   Telemetry         src/telemetry/collector.ts
--   Execution         src/mcp/execution: runtime-facts.ts and the prices of pricing.ts;
--                     Execution.Metadata is build.ts and metadata.ts, and Execution.Call the wrapping
--                     of a handler in src/mcp/tools/manifest.ts and response.ts
--   Cache             src/cache/read.ts and kv.ts; Cache.Keys is keys.ts
--   Aws               src/aws/client.ts, and the state that the clients of AWS share: the namespace of
--                     the cache, what is counted, and the requests that went out
--   Ecs               src/aws/ecs: validation.ts; Ecs.Parse is types.ts and parse.ts, Ecs.Requests
--                     requests.ts, Ecs.Definitions the task definitions of parse.ts, Ecs.Tasks and
--                     Ecs.Reports client.ts, Ecs.Images image-compare.ts
--   Ecr               src/aws/ecr: validation.ts, types.ts and parse.ts; Ecr.Client is requests.ts and
--                     client.ts
--   Ssm               src/aws/ssm/validation.ts
--   Audit             src/mcp/audit/log.ts, src/observability/audit.ts and the events that
--                     `safeMcpHandler` of src/mcp/tools/response.ts writes; Audit.Values and
--                     Audit.Inputs are src/mcp/audit/tool-input.ts
--   Logging           src/observability/logging.ts, without the fields of an error
--   Errors, Http, Js  the errors, requests and values that these share
--   Base              texts, lists, tests, equality and `sort()`
--   Tests             the theorems at concrete inputs
--
-- How the code is modelled. A set is a list that is read with `includes`. What is thrown is a value of
-- `Result`, and a denial of the gate is an option that `<|>` chains as the source's early returns do.
-- Values behind `unknown` are those of `Js.Value`, whose numbers are fractions or not finite, so that
-- every comparison of the source is decided as JavaScript decides it. Times are given in milliseconds
-- or seconds by the caller, who asks the platform for them. State is passed on: the collector's
-- variables, the storage of all durable objects by their names, and the state `Cloud` of the AWS clients,
-- whose programs are functions `Io` of it that return a result or throw. Every function is structurally
-- recursive; the only fuels are those of the loop over the pages of a listing of tasks, one turn more
-- than the limit, which is enough because a page without tasks ends the loop, and of the slicing into
-- batches, one for each task.
--
-- A regular expression is a choice of rows of items, each one character of a class or a run of them;
-- `test` looks for it at every place of a text, with the word boundaries that it asks for, and `matches`
-- wants the whole text.
--
-- Parameters: the parsing of URLs and of JSON, `JSON.stringify`, the console, dates as text,
-- `String(n)` of a number, the digest of tokens, the verification of signatures (`jose`) with its
-- key sets, `Number` of a text, the namespace of profiles, the handler of a tool, the calls of STS,
-- what AWS answers to each request, and the introspection endpoint. The namespace, AWS and the
-- endpoint may answer differently each time, or fail; what the endpoint sends may be no JSON.
--
-- Not modelled: which events the parts log, and the diagnostics of claims, which are only logged;
-- the transport, which is the protocol library's; the descriptions of tools; the handlers of the
-- tools, which are a parameter; the rounding of amounts; the time that an entry of the cache lives;
-- and the AWS clients other than those of ECS and ECR.
pub mod Base
pub mod Js
pub mod Errors
pub mod Http
pub mod RateLimit
pub mod Regions
pub mod Dates
pub mod Manifest
pub mod Policy
pub mod Exposure
pub mod Auth
pub mod Env
pub mod Gateway
pub mod Profiles
pub mod Credentials
pub mod Capabilities
pub mod Telemetry
pub mod Execution
pub mod Cache
pub mod Aws
pub mod Ecs
pub mod Ecr
pub mod Ssm
pub mod Audit
pub mod Logging
pub mod Tests
