-- ===== src/Lib.antt =====
-- The Pulumi provider `gcpx`: its core, its BigQuery schema engine, its dbt models and its agents.
--
-- The provider is a gRPC server (crates/gcpx-provider) that hands each resource to the crate of
-- its service (gcpx-bq, gcpx-dbt, gcpx-scheduler, gcpx-snapshot, gcpx-dataproc, gcpx-agents). All
-- of them talk to Google Cloud through crates/gcpx-core: `HttpGcpClient` sends a request under
-- the circuit breaker of its service and retries it, `poll_operation` waits for a long-running
-- operation, `create_or_adopt` and `verified_delete` make creation and deletion idempotent, and a
-- failure is classified and scrubbed of credentials before it becomes a gRPC status. A resource
-- compares its old inputs with its new ones into a `DiffResult`, which `build_diff_response`
-- answers; a schema is validated, compared into column operations, and compared with what is live.
--
-- Files, with the source that each models (paths from the repository's root):
--   Base: shared types (texts as lists of Unicode scalars, with their UTF-8 lengths), the Boolean
--     tests, equality of inputs, `Result`, and `Outcome`, whose `panicked` is a Rust panic and
--     whose `stuck` is fuel that ran out.
--   Core/Breaker: crates/gcpx-core/src/breaker.rs. Invariant and Schedule hold the proofs.
--   Core/Redact: `redact` and `credential_run_len` of crates/gcpx-core/src/error.rs.
--   Core/Errors: the error types, `classify` and `code` of crates/gcpx-core/src/error.rs.
--   Core/Sanitize: crates/gcpx-core/src/sanitize.rs.
--   Core/Lifecycle: crates/gcpx-core/src/lifecycle.rs.
--   Core/Lro: crates/gcpx-core/src/lro.rs.
--   Core/Http: `with_retry`, `next_jitter`, `is_retryable`, `send_json`, `delete_ok` and
--     `post_stream` of crates/gcpx-core/src/http.rs.
--   Core/Resource: crates/gcpx-core/src/resource.rs and `build_diff_response` of handler_util.rs.
--   Bq/Schema/Types, Diff, Drift, Validate, Ddl: the files of the same names in
--     crates/gcpx-bq/src/schema.
--   Bq/Dataset, Bq/Routine, Bq/Table: types.rs and diff.rs in the directory of crates/gcpx-bq/src
--     of the same name.
--   Dbt/Scanner, Dbt/Templates: crates/gcpx-dbt/src/scanner.rs: the cutting of a template into
--     spans, and what a span stands for.
--   Dbt/Config: the iterator over config arguments in scanner.rs, and `ModelConfig` of types.rs.
--   Dbt/Preprocess, Dbt/Vars, Dbt/Builtins: the phases of crates/gcpx-dbt/src/preprocess.rs, and
--     Dbt/Pipeline their order: raw regions are set aside, conditional blocks are kept or left
--     out, `{{ this }}` and `var(...)` are replaced, and `dbt_utils` calls expanded.
--   Dbt/Macros: crates/gcpx-dbt/src/macros.rs.
--   Dbt/Resolver, Dbt/Ddl: crates/gcpx-dbt/src/resolver.rs and the types of types.rs it uses: a
--     preprocessed model with its references resolved, and the statements for it.
--   Dbt/Options: crates/gcpx-dbt/src/options.rs.
--   Dbt/Validate, Dbt/Model, Dbt/Contract, Dbt/Conflicts: crates/gcpx-dbt/src/validate.rs: the
--     checks on projects and macros, on a model, on its output columns, and of its options.
--   Bq/Checks: validate.rs in the directories table, dataset and routine of crates/gcpx-bq/src.
--   Agents/Iam, Agents/Checks, Agents/Inputs: crates/gcpx-agents/src/validate.rs and the inputs in
--     types.rs: the merging of access policies, ids and patterns, and the checks on inputs.
--   Agents/Chat: `FrameParser` of crates/gcpx-agents/src/chat.rs.
--   Specifications that do not run: Dbt/Macros/Rounds (the rounds of an expansion),
--     Dbt/Preprocess/Regions (tags and raw regions), Agents/Checks/Grammar (well-formed patterns).
--   Examples: runs at concrete inputs.
--
-- Functions keep the names of the source. Code that acts on the outside world (a request, the
-- clock, a sleep) takes it as functions on a state `W`, so what is proved holds for every
-- behaviour of the network; a law that such a function has to have is a hypothesis. Fixed-width
-- counters wrap as in the source. Loops over a text that is consumed run on fuel, its length plus
-- one or two, which is enough as every round takes a character; so do the scanner's, the raw
-- regions', the variables', the built-in macros' and the macro arguments'. For `poll_loop`, a
-- deadline divided by the shorter interval, plus one, is enough of it; `redact_loop` takes the message's length
-- plus one, as every round consumes a character; `spans` takes the length plus two. The search
-- for rename cycles runs on the number of renames, each visited once.
--
-- Not modelled: the credential sources, the HTTP and JSON libraries, the gRPC handlers and the
-- conversion of their messages, and the other resource crates. Base64,
-- the JSON parser and Unicode's case tables are parameters of the definitions that call them.
-- Between two threads a breaker call is one step.
pub mod Base
pub mod Core
pub mod Bq
pub mod Dbt
pub mod Agents
pub mod Examples
