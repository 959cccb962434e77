-- ===== src/Lib.antt =====
-- The AEGIS AI gateway (Go): a proxy in front of LLM providers that authenticates, limits, validates,
-- filters, routes and retries requests. This library models its decision logic.
--
-- Parts, and the files that model them (paths from the repository's root):
--   Types, Types/Lattice: internal/types (Classification.Level, Allows, ParseClassification, the
--   canonical request) and AuthInfo of internal/auth/context.go.
--   Config, Config/Settings: internal/config/models.go, providers.go, and config.go with DefaultConfig.
--   Auth: internal/auth, the middleware (Guard) and the key store with its cache (Revocation). Auth/Keys:
--   apikey.go, how keys are made, shown and how long they last. Auth/Table: the query of store.go on the
--   table of migrations/001_create_api_keys.up.sql.
--   Circuit, Circuit/Trace, Circuit/Laws: internal/router/circuit.go, the breaker of one provider;
--   Trace runs any sequence of its methods.
--   Health, Health/Refinement: internal/router/health.go, one breaker for each provider in a map,
--   which refines a function from providers to breakers.
--   Router, Router/Spec, Router/Laws: internal/router/provider.go. ResolveRoute asks the tracker on
--   the way and so changes it; Spec says which route it is to choose.
--   Http, Events: internal/httputil/errors.go as values, and the calls of the audit logger and metrics.
--   RateLimit/Breaker, Limiter, Budget, Middleware: internal/ratelimit. Limiter models the Lua script
--   on a sorted set with expiry; Limiter/Window and Limiter/Runs follow it through every run of
--   requests. Middleware composes Limiter and Budget, each behind its own Breaker.
--   Retry: internal/retry/retry.go, Execute as a recursion on the rounds that are left; Retry/Backoff:
--   the wait between two rounds, and the monitor of a request's context. Retry/Given follows the response
--   that Execute returns to the call that gave it.
--   Validation: internal/validation/validator.go; Spec says which requests are valid.
--   Filter: internal/filter/filter.go, with the chain in Filter/Chain, and the filters of
--   internal/filter/secrets, injection, pii and policy in the files of these names;
--   Filter/Policy/Bundle reads the policies' directory.
--   Cost: internal/cost/calculator.go with its cache; Keys is about the cache's keys.
--   Provider, Provider/Openai, Provider/Anthropic: internal/router/adapters, the interface and the
--   conversions of requests, responses and stream chunks.
--   Provider/Registry: the registry that BuildFromConfig of internal/router/provider.go makes of them.
--   Status: makeHealthHandler of cmd/gateway/main.go. Config/Dsn: the database address.
--   Config/Loader: internal/config/loader.go, the reload of the configuration when its files change.
--   Gateway: internal/gateway. Handler is ChatCompletions of handler.go in its stages, each a function
--   of what the one before it gave; Parts and Delivery hold the checks of a request and the call of
--   the provider; Gates, Passage, Origin, Answer, Breakers, Providers, Billing and Ids are about it. Stream and
--   Streaming are streaming_enhanced.go and streaming.go. Refactored is handler_refactored.go with
--   request_processor.go, router_processor.go and telemetry_logger.go; Refactored/Adapters compares the two
--   handlers over the adapters of a configuration. Models is ListModels.
--   The handler calls Validation, Filter, Router (with Health), Retry, Provider and Cost.
--   Server: cmd/gateway/main.go, the router that puts the middleware of Auth and RateLimit in front of
--   the handlers, one request at a time, without a reload of the configuration among them. Entry, Ids,
--   Billing and Revocation are about what a request meets on its whole way; Startup is main up to the
--   server and from its end on, Reload its two callbacks behind the loop of Config/Loader.
--   Telemetry: internal/telemetry/metrics.go, each metric and what it is told. Audit:
--   internal/audit/logger.go. Storage: internal/storage/usage.go; Storage/Table and Storage/Selection: the table of
--   migrations/004_create_usage_records_detailed.up.sql under its queries. Database: the values of a row, which
--   Audit, Storage and Keygen share. Keygen: cmd/keygen/main.go and cmd/migrate/main.go;
--   Keygen/Access follows a key from keygen through Auth/Table and the middleware.
--   Prelude holds shared helpers, Tests the theorems at concrete inputs.
--
-- Conventions. A function that reads the clock takes the time, in nanoseconds; one reading stands for
-- those that a method makes in a row. A method that holds its mutex is one step, and concurrent callers
-- are a sequence of steps; `isAvailable` of the Redis breaker is one step too. State is passed: a
-- method gives the new state beside its result. Counters and times are natural numbers and do not wrap
-- at 2^63; `int` values that may be negative are integers. The thresholds of the provider breaker are
-- natural numbers; itoa of the metrics wraps where it negates. A Go map is an association list; a text is a list of runes. A Go error is the
-- constructor of a result; messages keep their parts unformatted, and log lines are left out.
-- Parameters: float64 (Prelude/Float: a type with its operations), the regular expression search, the
-- PII service, the rows of the table of keys and the hash of a key, OPA (prepare and eval), Redis'
-- replies, what DECIMAL makes of a cost, the provider's answers, what LoadFile gives, the encoding of JSON, the context's end, what
-- PostgreSQL answers to a query, random numbers, Sscanf and time.ParseDuration, the environment and
-- flags of a program, and the migrator.
-- Loops are recursions on lists, and the retry loop on its bound, `MaxRetries + 1` rounds. The loop of
-- both itoa runs on fuel, as much as the number itself, which is enough as each round divides it by 10.
--
-- A stream is the list of what each round of the loop picks: with no event left, the loop waits.
--
-- Not modelled: LoadFile (files, environment variables, YAML), log lines, the server of the metrics and the
-- ticker of the pool's statistics, the connection to the PII service, generateRequestID (clock and random
-- bytes; its result comes with a request), and RealIP and Recoverer of chi. What a goroutine writes behind
-- a response, usage records and audit events, is what it is asked to write, in the order of the calls. Within
-- the handlers: the cancellations that the goroutine of the context monitor counts (Watch is modelled on its
-- own), and the failures that the validator counts itself.
pub mod Prelude
pub mod Tests
pub mod Types
pub mod Auth
pub mod Circuit
pub mod Config
pub mod Cost
pub mod Filter
pub mod Gateway
pub mod Server
pub mod Database
pub mod Storage
pub mod Audit
pub mod Keygen
pub mod Status
pub mod Telemetry
pub mod Health
pub mod Http
pub mod Events
pub mod Provider
pub mod RateLimit
pub mod Retry
pub mod Router
pub mod Validation
