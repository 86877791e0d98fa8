-- ===== src/Lib.antt =====
-- A platform that develops software projects autonomously: a council of language models specifies a
-- project, an external agent implements it, the platform verifies the result, and the owner reviews
-- the delivery. This library models the parts that decide what happens: the project's state machine
-- and document, the completion and owner gates, the owner's decisions and review sessions, the
-- orchestrator's methods from the specification to the release, the evidence, the policies for what
-- the agent may run, the retries of calls, and the durable job queue.
--
-- Parts and files:
-- - States: src/orchestrator/states.js, the 16 states and the transition table; States/Graph is about
--   sequences of transitions.
-- - Errors: src/orchestrator/errors.js, error codes and the records that errors become.
-- - Project: the project document of src/storage/json-store.js. Project/Runs holds its runs and
--   evidence; Project/Latest is which of them count (src/orchestrator/gate.js,
--   src/verify/pipeline.js, src/runtime/pipeline.js, src/visual/pipeline.js, src/provision/plan.js).
-- - Delivery: src/delivery/lineage.js, which checkpoint and which verification set a delivery is
--   about (Delivery/Lineage) and whether its evidence matches (Delivery/Validation), and
--   src/delivery/decisions.js, the owner's decision (Delivery/Decisions); Delivery/Sessions and its
--   children are src/delivery/session.js.
-- - Gate: src/orchestrator/gate.js. Gate/MockPolicy is src/orchestrator/mock-policy.js,
--   Gate/Security is src/security/gate.js and src/security/policy.js, Gate/Freshness holds the
--   staleness tests of the runtime and visual pipelines, Gate/Canonical is
--   src/orchestrator/evidence.js. Gate/Completion composes the gates' reasons in the source's order;
--   Gate/Sound, Gate/Observed, Gate/Required and Gate/Owner are about what they guarantee.
-- - Orchestrator: src/orchestrator/orchestrator.js and src/orchestrator/checkpoint.js
--   (Orchestrator/Operations), one file for each group of methods. A method maps a stored project to
--   a result: the project that is stored, and the error if it throws. Orchestrator/World holds what
--   the methods call and do not decide: the council, the preparation of the delivery, notifications,
--   prompts, identifiers and settings. Orchestrator/Foundation and Orchestrator/Provision are the
--   stages before the agent runs, Orchestrator/Observation those that start the application;
--   Orchestrator/Dispatch says which stage a job or a round of the loop runs.
-- - Jobs: src/jobs/classify.js (Jobs/Classify), src/jobs/types.js (Jobs/Kinds, Jobs/Planning) and
--   src/jobs/queue.js (Jobs/Queue, one child for each group of operations) over the table of src/db/schema.js
--   (Jobs/Table), with its unique indexes.
-- - Reports: src/orchestrator/evidence.js, evidence that is made of what was seen or reported.
-- - Document: src/storage/project-document.js, the rows of the agent's runs and how they are read again;
--   in Document/Stable the database is a parameter.
-- - Policy: src/git/policy.js (Policy/Git), src/git/secrets.js (Policy/SecretFiles),
--   src/cursor/command-policy.js (Policy/Command) and src/cursor/permission-policy.js
--   (Policy/Permission), with src/git/boundary.js (Policy/Boundary); Policy/Allowed and Policy/Confined
--   are about what they let pass.
-- - Providers: src/providers/resilience.js, the classification of failures (Providers/Classify) and the
--   loop of retries (Providers/Retry, Providers/Attempts).
-- - Secrets: src/secrets/broker.js, the leases under which projects have secrets.
-- - Auth: src/auth/rate-limit.js, how often a client may call.
-- - Base: the names that all share, JavaScript's truthiness, white space and sets of reasons.
--
-- State is passed explicitly: an operation of the queue maps a table to a result and a table, and an
-- operation that may throw returns `Done`. The clock, new identifiers, the rows that other
-- transactions hold, SHA-256, the process environment and the secret broker's pending leases are
-- arguments. Three definitions run on fuel: the decimal notation of a number n, which has n + 1 units of
-- it and uses at most as many as n has digits, and the loop of retries, which has one unit for each
-- attempt that its policy grants, and the orchestrator's loop, for which Orchestrator/Rounds says how
-- many rounds are enough where each of its stages goes ahead.
--
-- Not modelled: messages and times of errors, the clients of language models, of the agent, of git,
-- of containers and of browsers, HTTP, file access and SQL beyond the tables of jobs and of the agent's
-- runs, since they are input and output; and the orchestrator's methods that run the agent and verify
-- its work with the platform's tools, whose results are fields of the document here.
pub mod Base
pub mod States
pub mod Errors
pub mod Project
pub mod Gate
pub mod Delivery
pub mod Jobs
pub mod Reports
pub mod Document
pub mod Policy
pub mod Providers
pub mod Orchestrator
pub mod Secrets
pub mod Auth
