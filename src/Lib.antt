-- ===== src/Lib.antt =====
-- logalot: the control plane of a multi-tenant log store (services/control-plane), with the mirror
-- of its authorization matrix (packages/contracts), and, of its web application (apps/web), the live
-- tail and the historical search.
--
-- The services of the control plane (services/control-plane/src/app) take a command of the HTTP
-- layer, check it against the domain's rules, and call repositories, each of whose operations is one
-- Postgres transaction under row-level security. A service keeps no state of its own: the state is
-- in the tables. So a repository is a set of functions on its table, and a service's method is an
-- action that passes the tables on and may throw. Requests interleave between repository calls; the
-- theorems on histories range over any sequence of transactions.
--
--   Base           tests, lists, texts as lists of code units, and statements on tables: SELECT,
--                  COUNT, UPDATE, DELETE and ORDER BY with a test as their WHERE clause.
--   Domain         services/control-plane/src/domain. Roles (roles.ts), Rbac (rbac.ts: `can`; Ui is
--                  packages/contracts/src/rbac.ts), Errors (errors.ts), Split (split.ts: `splitN`, its
--                  loop on the number of parts that are left), Credentials (api-key.ts,
--                  refresh-token.ts, invite.ts), Email (email.ts). Action is code that reads and
--                  writes tables and may throw: what was committed before a throw stays.
--   RefreshTokens  adapters/postgres/refresh-token-repository.ts: `create`, `find_by_id`, `rotate` (the
--                  conditional UPDATE and the INSERT of the successor, in one transaction) and
--                  `revoke_family`; `look_up` is the read of a token's row, which fails on an id that
--                  is no uuid. History has sequences of these transactions.
--   Tenants        adapters/postgres/tenant-repository.ts, with the CHECK on the slug.
--   Users          adapters/postgres/user-repository.ts: users and their memberships.
--   Ports          app/ports.ts: what the services exchange with third-party code.
--   UserService    app/user-service.ts: the commands on users. Isolation has sequences of them.
--   TenantService  app/tenant-service.ts: the commands on the registry of tenants, and the first admin
--                  of a tenant; Onboarding follows a tenant from its creation to a login.
--   Retention      adapters/postgres/retention-repository.ts and app/retention-service.ts.
--   Named          the statements on a table with UNIQUE (tenant_id, name), which the repositories of
--                  saved queries, dashboards and alert rules share, and adapters/postgres/tenant-tx.ts.
--   SavedQueries   adapters/postgres/saved-query-repository.ts and app/saved-query-service.ts.
--   Dashboards     adapters/postgres/dashboard-repository.ts and app/dashboard-service.ts.
--   AlertRules     adapters/postgres/alert-rule-repository.ts, with the CHECK constraints of the table.
--   AlertRuleService  app/alert-rule-service.ts. Steps reduces a command to its one statement; Sources
--                  is about the saved query and the inline query of a rule.
--   Auth           app/auth-service.ts: `login`, `refresh` and `logout`. `refresh` is
--                  `refresh_prepare`, the reads and tests, followed by `refresh_finish`, the rotation,
--                  so that another request can come between the two.
--
--   Authorize      app/authorize.ts: `assertCan`.
--   Invites        adapters/postgres/invite-repository.ts: `create`, the probe, the conditional
--                  `consume`, `revoke`. History has sequences of these transactions.
--   ApiKeys, ApiKeyService  adapters/postgres/api-key-repository.ts and app/api-key-service.ts.
--   OAuthIdentities  adapters/postgres/oauth-identity-repository.ts: `link_first` with its savepoint.
--   Provisioner    adapters/postgres/pg-invite-provisioner.ts: consume, create and link in one
--                  transaction over the three tables.
--   InviteService  app/invite-service.ts: `create`, `list` and `revoke`, with the audit trail and the
--                  messages handed to the mail sender, whose failures the service swallows.
--   OAuthState     adapters/redis/in-memory-oauth-state-store.ts: `put` and `consume`.
--   ReturnTo       `sanitizeReturnTo` of app/oidc-authenticator.ts.
--   Http           adapters/http: the bearer token (auth-plugin.ts), the guard (rbac-guard.ts), the
--                  schemas' errors (validation.ts), the error handler (server.ts), and the claims of an
--                  access token (adapters/crypto/jose-token-service.ts). Handlers and Routes are
--                  routes.ts: a request runs through `authenticate`, `require_operation` and its
--                  handler, on the tables of all the services, which World holds. Google
--                  is the two routes of the Google login, on the tables of Oidc. Cascade is what the
--                  foreign keys of migrations/ do to the other tables when a user or a tenant is
--                  deleted. Denied, Isolation and Session compose the transport with the services
--                  behind it.
--   LogTail        apps/web/src/features/log-explorer: `useLogTail` of use-log-tail.ts over the frames
--                  of tail-event.ts. The refs and the states of the hook are one record, with the
--                  EventSources that are open and the timeouts that are pending; Events has what the
--                  browser, the timers and the user may do, in any order. The number of attempts in an
--                  outage is bounded by the hook's own `maxReconnectAttempts`.
--   LogFilters     apps/web/src/features/log-explorer/filtering.ts: `matchesFilters`.
--   LogSearch      apps/web/src/features/log-search: `useLogSearch` of use-log-search.ts as a state
--                  machine in which the calls under way are answered in any order, and Query,
--                  search-query.ts. MAX_SEARCH_RESULTS is an argument, and any bound will do.
--   Oidc           app/oidc-authenticator.ts: `begin_authorize`, and `handle_callback` as its steps:
--                  Steps (1 to 3), Identity (4), Callback (5 to 7 and the whole). Every rejection
--                  appends its audit event.
--
-- Cryptography, the token service, Google's endpoints, Unicode NFC and the lower-case mapping are
-- functions that the model takes as arguments, and so are the zod schemas, JSON.parse and jose's
-- `jwtVerify`, and Postgres' test of what it reads as a uuid. Nothing is supposed of them, but that
-- jose accepts the token that it signed and that no date is printed as the empty text, where a
-- theorem says so. What the generators, the clock and the database yield (secrets, uuids, times) is
-- an argument of each call. Ids are compared as texts, in the one spelling that the database writes;
-- times are milliseconds, and one call reads the clock once. A text is the list of its code units.
-- No function of the model runs on fuel: loops are recursion on a list or on the number of parts.
--
-- Not modelled: of the HTTP layer the limits on the rate of requests, the logs and the health
-- checks; the configuration and the composition root; of the foreign keys, the test that an INSERT
-- refers to a row that exists, but for the author of an invite; the columns created_at and
-- updated_at where no operation reads them; the Redis store; the web application but the mirrored
-- matrix, the live tail with its filters and the search; the Go services.

pub mod Base
pub mod Domain
pub mod RefreshTokens
pub mod Tenants
pub mod Users
pub mod Ports
pub mod Authorize
pub mod Invites
pub mod ApiKeys
pub mod ApiKeyService
pub mod OAuthIdentities
pub mod Provisioner
pub mod InviteService
pub mod UserService
pub mod TenantService
pub mod Retention
pub mod LogTail
pub mod LogSearch
pub mod LogFilters
pub mod Named
pub mod SavedQueries
pub mod Dashboards
pub mod AlertRules
pub mod AlertRuleService
pub mod Auth
pub mod Http
pub mod OAuthState
pub mod ReturnTo
pub mod Oidc
