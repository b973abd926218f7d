-- ===== src/Lib.antt =====
-- kite: the backend that keeps the issues of pipelines and releases, packages/backend, the operator that
-- reports pipeline runs to it, packages/operator, and the command line client, packages/cli.
--
-- Paths that begin with internal are below packages/backend, or packages/operator where that is said.
--
-- Parts. HTTP handlers (internal/handlers/http) turn requests into payloads
-- (internal/handlers/dto) and call the issue service (internal/services), which passes the calls on
-- to the issue repository (internal/repository). The repository stores issues, their scopes, links
-- and relations (internal/models) in PostgreSQL through gorm.
--
-- Files:
-- Prelude: names, Boolean tests and case lemmas that all files share.
-- Models and its children: internal/models/models.go, columns, constants and the BeforeCreate hooks.
-- Dto: internal/handlers/dto/request.go, the payloads and their getters.
-- Store: gorm as a parameter. Store/Defs has tables, queries and actions with errors; Store/Gorm has
-- the record Gorm of statements and GormLaws, what gorm and SQL document of each; Store/Rules has the
-- rules by which an action is shown to ensure something of the tables; Store/Memory is a database in
-- memory and Store/Memory/Saving shows that the laws hold of it; Store/Rows has lemmas on its tables.
-- Repository: internal/repository/issue_repository.go. Repository/Requests has what is computed
-- from a request (queries, columns, the new row), Repository/Operations and Repository/Relations the
-- operations: FindByID is find_by_id, findDuplicateInTx is find_duplicate_in_tx, CreateOrUpdate is
-- create_or_update, Create is create, Update is update_issue, Delete is delete, ResolveByScope is
-- resolve_by_scope, AddRelatedIssue and RemoveRelatedIssue are add_related_issue and
-- remove_related_issue. The other files under Repository hold the theorems, by what they prove;
-- Repository/Tests and its children run the operations on the database in memory.
-- Service: internal/services, the interface as the record IssueService and its implementation
-- issue_service, which passes calls on to the repository.
-- Handlers: internal/handlers/http. Handlers/Replies has statuses and bodies, Handlers/Webhooks the
-- five webhooks of webhook_handlers.go, Handlers/Issues the endpoints of issue_handlers.go by their
-- names there. Handlers/Guards, Handlers/Changing, Handlers/Creating, Handlers/Failures and
-- Handlers/Successes hold the theorems; Handlers/Tests runs handlers on the database in memory.
-- A handler is given what gin has read of the request, the parameters as texts and the body as the
-- bound value or the error of binding it.
-- Operator: packages/operator. Operator/Controller has the reconciler of
-- internal/controller/pipelinerun_controller.go over the cluster and the client of the backend as a
-- parameter, Operator/Reports what it reports, Operator/Tests runs. internal is that of
-- packages/operator here.
-- Config: internal/config. Config has the records of config.go and Validate, Config/Environment the readers
-- of variables, Config/Load LoadConfig, Config/Database the connection of database.go over gorm and
-- database/sql as a parameter. Config/Checked, Config/Retries and Config/Unset hold the theorems,
-- Config/Tests runs. The loop over the attempts is by recursion on the number of rounds that are left.
-- Health: Handlers/Health, the endpoint of internal/handlers/http/health_handlers.go.
-- Cache: internal/pkg/cache/cache.go over a hash, with Cache/Writes for what a read finds after a
-- sequence of writes.
-- Middleware: internal/middleware/auth.go. Middleware/Context has the context of gin, the request and the
-- reviews of the cluster; Middleware/Token, Middleware/Authentication, Middleware/ImpersonatedData,
-- Middleware/Impersonation and Middleware/Access the functions of auth.go by their names, and
-- Middleware/Gates the chain that internal/handlers/http/router.go sets up. Middleware/Splitting,
-- Middleware/Reviews, Middleware/Confirmed, Middleware/Attributes, Middleware/Covered, Middleware/Reviewed, Middleware/Denied,
-- Middleware/Admitted, Middleware/Stages and Middleware/Guarded hold the theorems, Middleware/Tests runs.
-- Lists: Repository/Filters and Handlers/Listing, FindAll of the repository and GetIssues of the handlers,
-- with Repository/Filtering and Repository/Pages for what they find; Store/Reads and Store/Sorting have
-- what the database says of counts and pages.
-- Operator/Client: packages/operator/internal/clients/kite.go over an HTTP client. Operator/Delivery and
-- Operator/EndToEnd put the operator, the client, the webhooks and the database together: that the
-- network delivers is a hypothesis, Delivers.
-- Cli/Client: packages/cli/pkg/api/client.go over an HTTP client, Cli/Commands: the commands list, search,
-- details and resolve of packages/cli/cmd/root.go, as functions from the flags and the world to what is
-- printed, the error and the world after it. Cli/Filters joins the request with what the backend reads of
-- it, Cli/Resolving has the command that resolves an issue, Cli/Tests runs.
-- An operation is an action: a function from the world to a result, with a value or an error, and the
-- world after it. The world is that of the Gorm record; it holds the database, the clock and whatever
-- decides whether a statement fails, and any statement may fail. A transaction that fails restores
-- the tables. Every operation is total: there is no fuel.
--
-- Not modelled: logging, the request context and its deadline, row locks and concurrent transactions
-- (each operation runs alone), the JSON of requests and answers, the table of the routes, the headers that
-- the middleware sets, the start of the processes, the seed data, and the layout of
-- the output and the configuration file of the command line client.
pub mod Prelude
pub mod Middleware
pub mod Models
pub mod Dto
pub mod Store
pub mod Repository
pub mod Service
pub mod Handlers
pub mod Operator
pub mod Cache
pub mod Cli
pub mod Config
