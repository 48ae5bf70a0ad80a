-- ===== src/Lib.antt =====
-- CodeAstra, a code review service for several users.
--
-- A review is planned into chunks of source text. The chunks wait in a queue that is fair between
-- reviews, are sent to one of several model endpoints under a lease that bounds the load of each,
-- and their findings are kept with the review, which belongs to one user. The users log in with
-- passwords and sessions, and an administrator manages their accounts.
--
-- Base (with its children): decidable equality as Python's `==`, dictionaries as association lists
--   in insertion order, sorting by a key, sums over a dictionary, results that may be an error.
-- Domain.Chunks: src/code_review/domain/review_chunks.py.
-- Scheduler: src/code_review/application/chunk_scheduler.py, `ChunkScheduler`. One call is one
--   step, since each method holds the condition's lock throughout.
-- Registry: src/code_review/infrastructure/sglang/registry.py, `AsyncInstanceRegistry`, and the
--   limits of capacity.py. Registry.Methods has the methods; one pass of the loop in `acquire` is
--   one step, since the lock is given up only where the pass waits.
-- Auth: src/code_review/infrastructure/persistence/sqlite_auth_store.py, its tables and statements.
--   Auth.Store and Auth.Records have the methods of `SQLiteAuthStore`, Auth.Service those of
--   src/code_review/application/auth_service.py and Auth.Admin those of user_admin_service.py.
-- ReviewStore: src/code_review/application/review_store.py, `InMemoryReviewStore`; its children
--   Enhanced and Rechecks have `EnhancedInMemoryReviewStore`. The session's files, findings and
--   summary, the data of an event and the measures of an attempt, which the store only copies, are
--   type parameters.
-- SqliteReviews: src/code_review/infrastructure/persistence/sqlite_review_store.py, its tables and,
--   in the children Sessions and Chunks, the methods of `SQLiteReviewStore`. Clients has the calls
--   that a client makes of either store; Represents, Agreement, Steps and Refinement relate the two.
-- ContextBudget: src/code_review/application/context_budget.py, `ContextBudgeter.fit`, which makes a
--   chunk's prompt fit the model's context.
-- Text: methods of Python's str that the planner calls, over the characters of a text.
-- Planner: src/code_review/application/review_planner.py, `ReviewPlanner`; its children Significant,
--   PythonChunks and CppChunks have `significant_lines` and the files python_chunker.py and
--   cpp_chunker.py of src/code_review/application/chunking. Acceptance has the ways in which the chunks of a plan change.
-- ChunkPrompt: src/code_review/application/chunk_prompt.py.
-- ChunkReview: src/code_review/application/chunk_review_service.py, `ChunkReviewService`; Errors has
--   the codes of failures and Execute has `execute`. An execution is a function of the history of
--   its own calls: what a call answers may depend on it in any way, which stands for all that other
--   tasks do in between.
-- LoginLimiter: src/code_review/application/login_rate_limiter.py, `LoginRateLimiter`.
-- Coverage: the plan's completeness in src/code_review/domain/review_chunks.py and the checks that
--   open `ReviewAggregator.aggregate` in src/code_review/application/review_aggregator.py.
-- Findings: the merging of src/code_review/application/evidence_validation.py, the engine of
--   review_policy.py and the report of review_aggregator.py beside it; Merging has what is kept,
--   Scope and Selecting the policy in its own words, Reports what a report says.
--
-- What is not of this repository is a parameter: the hashes, the collation and the stripping of
-- text (`Auth.Platform`), the length of a text in UTF-8 (`ContextBudget.Encoding`), the clock, the
-- ids that uuid4 draws, and how the review service and the purger answer the administration. Times are natural numbers.
-- Of the planner, the parsers (ast and tree-sitter), the hash and the resolver of dependencies are
-- parameters; of the findings, the normalizing of an evidence and `fnmatch`. Only the loop of
-- `significant_lines` over the comments of a line runs on fuel, one more than the line has characters.
-- Every other loop is over a list, and the two loops that wait for a condition are modelled one pass
-- at a time.
--
-- Not modelled: the validation of the model's drafts, the HTTP routes, the model clients, the parsers
-- and static analysers that the service calls, deployment, configuration and the frontend.
pub mod Base
pub mod Domain
pub mod Scheduler
pub mod Registry
pub mod Auth
pub mod ReviewStore
pub mod ContextBudget
pub mod Coverage
pub mod SqliteReviews
pub mod Text
pub mod Planner
pub mod ChunkPrompt
pub mod ChunkReview
pub mod LoginLimiter
pub mod Findings
