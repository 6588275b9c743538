-- ===== src/Lib.antt =====
-- Verification of QuotaLane, a gateway that shares AI provider accounts under quotas.
--
-- The program keeps a table of accounts in MySQL, with counters and markers in Redis. For each
-- request, the rate limiter (internal/biz/rate_limiter.go) asks its repository
-- (internal/data/rate_limit.go) to count requests, tokens and requests in flight; it lets requests
-- pass when Redis fails. The circuit breaker (internal/biz/circuit_breaker.go) lowers and raises an
-- account's health score by the outcome of its calls, opens the breaker below 30, and lets single
-- probes through until three of them have succeeded; its repository is
-- internal/data/circuit_breaker.go. The account use case (internal/biz/account.go) keeps the accounts, their
-- encrypted credentials and their metadata through a repository with a cache in Redis, and refreshes their
-- tokens through the OAuth manager.
--
-- How the code is written here. Code that acts on a store is a state-passing function `M S A` of
-- Prelude.Effect, which ends with a value, an error, or a panic; `S` is whatever the calls act on. A
-- Go interface is a record of operations (`RateLimitRepo`, `CircuitBreakerRepo`), and what the caller
-- relies on is a record of laws (`IsLawful`). An `int32` is an integer with its wrap-around written
-- out; an `int` of Go, 64 bits wide, is an integer. Account ids are natural numbers, times are
-- nanoseconds since the epoch, and a text that is searched is the list of its bytes.
--
--   Prelude, Prelude.*      integers, results, effects, rules for invariants
--   Redis, Database         the Redis client and the table, which are not part of the repository:
--                           parameters with what their documentation promises; Memory and Rows below
--                           them are instances in memory
--   RateLimit.Usecase       internal/biz/rate_limiter.go: `check_rpm` is CheckRPM, and so on
--   RateLimit.Repo          internal/biz/rate_limit_repo.go and what the rate limiter relies on
--   RateLimit.Store         internal/data/rate_limit.go; Store.Laws is about those laws
--   RateLimit.Slots         AcquireConcurrencySlot and ReleaseConcurrencySlot of many requests at
--                           once, one command a step; Slots.Alone ties the steps to the functions
--   RateLimit.Rpm, Tpm      the counting windows; RateLimit.Estimate is about EstimateTokens
--   CircuitBreaker.Domain   the types and interfaces of internal/biz/circuit_breaker.go and
--                           internal/model/event.go
--   CircuitBreaker.Usecase  internal/biz/circuit_breaker.go, one function per method
--   CircuitBreaker.Laws     what it relies on; Range, Trip, Probe, Recovery and Failure use it
--   CircuitBreaker.Store    internal/data/circuit_breaker.go; Store.Locking is about its retry loop
--   World                   the table and Redis together
--   Cache                   internal/data/cache.go
--   Account                 internal/data/account.go: the row; Account.Convert its enumerations,
--                           Account.Proto its protobuf form and the masking
--   Account.Repo            internal/biz/account_repo.go
--   Account.Conditions      internal/data/account.go: the conditions, the page and the bounds of its queries
--   Account.Store           internal/data/account.go: the repository; Account.Coherence is about its cache,
--                           Account.Bounds about what it stores and lists
--   Account.Usecase         internal/biz/account.go; Usecase.Create is about CreateAccount
--   Account.Refresh         internal/biz/account_refresh.go; Refresh.Counts is about AutoRefreshTokens
--   Account.Health          internal/biz/account_openai.go; Health.Stale is about the row it saves
--   Account.OAuth           internal/biz/account_oauth.go and internal/biz/oauth_refresh_task.go
--   AccountGroup            internal/biz/account_group.go; Names, Default and Laws below it are about it
--   AccountGroup.Store      internal/data/account_group.go; Store.Laws is about failing changes
--   Service                 internal/service/account.go: Service.Accounts and Service.Groups its methods,
--                           Service.Wiring the use case that it is given; Service.Checks is about
--                           TestAccount
--   OAuth                   pkg/oauth/manager.go and pkg/oauth/provider.go; OAuth.Session is about sessions
--   Crypto                  pkg/crypto/aes.go
--   Metadata                pkg/metadata/metadata.go
--   DbErrors                pkg/errors/db_errors.go
--   Sanitize                pkg/log/sanitize.go
--   Tests                   runs at concrete inputs
--
-- Bounds and fuel. The retry loop of UpdateHealthScore recurses on the rounds that are left, the 3 of
-- the source, and ends with its error at 0. The search of `contains` recurses on the number of start
-- positions that are left, which is the loop bound of the source. All else is structural.
--
-- Not modelled: logging; the OAuth methods of the service; the providers behind the OAuth manager and
-- the OpenAI client, which are HTTP calls; the log table of the audit; HTTP and gRPC servers,
-- configuration and start-up, which are glue.
-- Encryption, JSON, url.Parse, the clock and the random source are parameters. The goroutines of the
-- refresh and of the health check run one after the other.
-- Notifications and audit calls are parameters. The half-open marker of the circuit breaker runs out
-- by the laws that its use case relies on; no other key expires between two calls;
-- the retry loop alone is modelled with what other clients do between its statements.
pub mod Prelude
pub mod Redis
pub mod RateLimit
pub mod Account
pub mod Database
pub mod World
pub mod Cache
pub mod Crypto
pub mod Metadata
pub mod OAuth
pub mod CircuitBreaker
pub mod DbErrors
pub mod Sanitize
pub mod Service
pub mod AccountGroup
mod Tests
