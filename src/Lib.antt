-- ===== src/Lib.antt =====
-- AIRI, an assistant that turns natural-language requirements into governed metrics. A metric is
-- described by an intermediate representation (the metric IR), researched and tested, promoted
-- into versions of a registry, released under human review, and compared with what a production
-- runtime really serves. This library models the deterministic core of that chain: the metric
-- IR's schema and declarations, the rewrite of a metric under review, the approval of generated
-- artifacts, the metric registry and its release lifecycle, the deployment of a release to
-- production, and the convergence and verification rules there. Language models, HTTP, the
-- execution of SQL and the research chains are outside of it.
--
-- How the parts interact: the registry's service keeps definitions, versions, releases, reports
-- and reviews in tables, and an active pointer from each definition to a version. Production
-- deployments observe that pointer and the runtime's, compare both with a desired version, and
-- offer recovery actions that move the pointer through the registry's own reconciliation, behind
-- a verification gate.
--
-- - Prelude: shared tests, lists, texts, sorted sets, and raised exceptions as values with the
--   rules for chains of calls.
-- - Core (src/airi/core/schemas.py): semantic versions.
-- - MetricIr.Models (src/airi/metric_ir/models.py; the text types of src/airi/core/schemas.py in
--   MetricIr.Models.Texts): the schema, the types of its fields and its model validators.
--   MetricIr.Joins (src/airi/metric_ir/joins.py): the join mechanism. MetricIr.Scenarios
--   (src/airi/metric_ir/invoice.py, enterprise_relation.py and semantics.py): the two declarations
--   and the recovery of a scenario, with what they admit in MetricIr.Scenarios.Forms and Recovery.
--   MetricIr.Derived (src/airi/metric_ir/derived.py): the growth metric.
-- - Refinement.Transform (src/airi/refinement/transform.py): the window rewrite and its
--   difference; Refinement.Windows: what it changes.
-- - Approvals.Service (src/airi/approvals/service.py and persistence.py): artifacts and their
--   reviews. Approvals.Governance, Approvals.Execution and Approvals.Runs: the invariant of the
--   two tables, the gate of execution, and runs of calls. Approvals.Examples: a run.
-- - Registry.Models (src/airi/registry/models.py), Registry.Store
--   (src/airi/registry/persistence.py): records, and tables as rows by primary key.
-- - Registry.Session, Registry.Writes (src/airi/registry/service.py): the reads with their
--   integrity checks, and the single writes: transition, saved release, status, compare-and-set of
--   the pointer, audit event.
-- - Registry.Diagnostics (src/airi/registry/release.py, the findings of
--   src/airi/registry/shadow.py): the assessment of a release.
-- - Registry.Family, Registry.Versioning (src/airi/registry/versioning.py): the family of a
--   metric name, the difference of two metrics, its class and the next number.
--   Registry.Registration (src/airi/registry/service.py): promotion_lineage and create_version.
--   Registry.Queries: the reads that list and compare.
-- - Registry.Releases, Registry.Decisions, Registry.Rollback (src/airi/registry/service.py):
--   create_release, validate, create_review, decide_review, activate, request_rollback,
--   reconcile_active_version and decide_rollback, each with all its guards and writes.
-- - Registry.Integrity: the consistency of rows, kept by each call. Registry.Governance: what
--   calls do to pointers, statuses, releases and reviews. Registry.Runs: runs of calls.
--   Registry.Sample, Registry.Examples and Registry.Walkthrough: a small registry and runs over
--   it.
-- - Production.Models (src/airi/production/models.py), Production.Convergence
--   (src/airi/production/convergence.py), Production.Gate (src/airi/production/gate.py): the
--   three-way comparison with its plan, and the gate. Production.Reconciliation
--   (src/airi/production/reconciliation.py): the plan that a human chooses from.
--   Production.Examples: runs of these.
--
-- - Production.Identity (src/airi/production/identity.py): roles, actions and the provider of
--   identities; Production.Identity.Boundary: what an identity that acts has proved.
-- - Production.Deployments (src/airi/production/service.py): Models and Store are the documents
--   and tables, Packaging (src/airi/production/packaging.py) the package and its verification,
--   Environments the service of environments, Session the reads and single writes, Creation,
--   Preflight, Shadow, Reviews, Gatekeeping and Deploying the calls in the order of a deployment's
--   life. Governance is the invariant, Governance.Writes and its other modules show that each call
--   keeps it, Runs the sequences of calls, Sample, Examples and Incidents a deployment from
--   registration to the runtime.
--
-- Conventions: a call takes the store and returns the store that it commits, with its result, or
-- an error. A raise hands no store over, as the session rolls back on every exception
-- (src/airi/infrastructure/database.py). Calls of the deployment service commit more than once,
-- or commit and then raise: they leave the store of their last commit beside what they return or
-- raise. Moments and new identifiers are arguments. The digest canonical_hash is a parameter, an
-- arbitrary function of the document: no theorem assumes that it is injective. The evidence of
-- the research chain and the executions of validate and decide_review are the interface
-- ReleaseEvidence, the documents that create_version reads the interface ResearchChain. All
-- loops are structural recursion over lists and texts, so there is no fuel. The ratios of a
-- shadow comparison, floats in the source, are exact fractions here: quotients of small counts,
-- compared with decimal constants.
--
-- Not modelled: the computation of a shadow comparison of the registry, the rollback,
-- reconciliation, monitoring and verification reports of the production service and its
-- adapters, whose answers are arguments of the calls, temporal and statistical evaluation,
-- agents, workflows, the compiler and the HTTP interface. Free-form event metadata and log lines
-- are left out of the models of calls.
pub mod Prelude
pub mod Core
pub mod MetricIr
pub mod Refinement
pub mod Approvals
pub mod Registry
pub mod Production
