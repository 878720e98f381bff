-- ===== src/Lib.antt =====
-- Verification library of the SC-TPCRS services: supply-chain and third-party cyber-risk management for
-- payment institutions, a gateway before services that share a library and talk by Kafka events.
--
-- The program's parts and the files that model them:
-- - services/incident-service/app: Incident. `Incident.Lifecycle` is services/lifecycle.py (`transitions`,
--   `sla_due_at`, ...) with the settings of config.py; `Incident.Models` the tables of models.py;
--   `Incident.Notifications` services/notifications.py; `Incident.Service` services/incident_service.py, one
--   function for one of the source under its name without a leading underscore, the rows that a function
--   adds as functions of their own (`created_row`, `status_row`, ...); `Incident.Router` routers/incidents.py;
--   `Incident.Events` services/events.py. `Incident.Change` is the specification: the changes that an
--   operation may make. `Incident.Effects` gives each operation's effect, `Incident.Keys` and `Incident.Rows`
--   the invariants, `Incident.Drafts` and `Incident.Drafted` the notifications, `Incident.Openings` and
--   `Incident.Requests` the change that each handler makes, `Incident.Operations` sequences of changes and the audit log,
--   `Incident.Events.Once` the repeated alert.
-- - services/monitoring-service/app: Monitoring. `Monitoring.Posture`, `Monitoring.Engine`,
--   `Monitoring.Events`, `Monitoring.Sweep` are services/posture.py, alert_engine.py, events.py and
--   sweep_service.py; `Monitoring.Router` is routers/alerts.py. `Monitoring.Dedup` and `Monitoring.Runs` hold
--   the deduplication of alerts by single operations and by whole runs, `Monitoring.Snapshots` the rows of
--   a sweep.
-- - services/vendor-service/app: Vendor. `Vendor.Lifecycle`, `Vendor.Tiering` and `Vendor.QuestionBank` are
--   services/state_machine.py, tiering.py and question_bank.py; `Vendor.Vendors` and `Vendor.Questionnaires`
--   the routers. `Vendor.Laws`, `Vendor.Invariant` and `Vendor.Steps` hold what is shown of them.
-- - services/gateway/app: Gateway. `Gateway.Routing` is routing.py; `Gateway.Requests` auth_middleware.py,
--   rate_limit.py, proxy.py and main.py; `Gateway.Forwards` and `Gateway.Laws` what is shown.
-- - services/auth-service/app: Auth. `Auth.Models` is models.py, schemas.py, config.py and demo_users.py,
--   `Auth.Security` security.py and `Auth.Routes` routers/auth.py with services/audit.py; `Auth.Login`,
--   `Auth.Session`, `Auth.SignIn` and `Auth.Seeding` hold what is shown of the routes.
-- - services/compliance-service/app: Compliance. `Compliance.Spec` and `Compliance.Library` are
--   control_library/, `Compliance.Engine`, `Compliance.Service`, `Compliance.Reporting` and `Compliance.Events`
--   services/assessment_engine.py, assessment_service.py, reporting.py and events.py, `Compliance.Router`
--   routers/compliance.py and controls.py. `Compliance.Laws` has the answers of the route, `Compliance.Stored`
--   the stored rows, `Compliance.Agreement` and `Compliance.Reports` the report beside the engine.
-- - services/risk-service/app: Risk. `Risk.Models` is models.py, `Risk.Sources` services/category_sources/,
--   `Risk.Scoring` the formula of services/vrs_calculator.py, and `Risk.Service` the rest of it with
--   services/anomaly/, services/events.py and the routers; `Risk.Scored` is about a computed score,
--   `Risk.Bounds` about the range and the order of the formula.
-- - services/sbom-service/app: Sbom. `Sbom.Json` is Python's reading of decoded JSON; `Sbom.Purl`,
--   `Sbom.Scanner`, `Sbom.Ssrf` and `Sbom.Graph` are services/purl_normalizer.py, cve_scanner.py,
--   ssrf_guard.py and graph.py; `Sbom.Parsers` (with `Xml` and `TagValue`) and `Sbom.Detect` parsers.py;
--   `Sbom.Ingest` ingest.py, events.py and the route of routers/sbom.py. `Sbom.Fetchable` is about the guard,
--   `Sbom.Scanned`, `Sbom.Tables`, `Sbom.Delivered` and `Sbom.Recorded` about the ingestion, `Sbom.WellFormed` about the graph.
-- - shared/py-common/sc_tpcrs_common: `Audit` is audit_log.py with the services' audit.py, `Jwt` is
--   jwt_shared.py, `Kafka` is kafka_base.py and kafka_topics.py.
-- - Prelude: the library's names, lists as tables, texts, Python's values and exceptions, sorting, floats.
--
-- How the state is modelled: a database is a record of tables, a table a list of rows in the order in which
-- they were added, and an operation takes the tables and gives the tables after it. An exception is an error
-- value, and what was done before it is not committed; the sweep of monitoring-service catches the error of
-- a vendor without a rollback, and the errors of the model come before that vendor's rows. The time, new UUIDs, SHA-256, JSON, the JWT library,
-- Redis, the libraries of passwords and one-time codes, the decoders of JSON and XML, packageurl, networkx,
-- the adapters, seeded random numbers and float arithmetic come from outside, as records of functions; the
-- conditions that a theorem puts on them are among its hypotheses. Times are seconds. Kafka is a list of the
-- messages accepted. bcrypt may raise, as passlib does for a NUL byte. The JWT secret is the environment
-- variable JWT_SECRET, read where a token is made or read.
--
-- How the parts interact: monitoring-service publishes an alert for each row that is raised; the consumer of
-- incident-service opens an incident for it; compliance-service assesses and risk-service scores a vendor
-- that vendor-service reports to have reached certain states; sbom-service publishes alerts of
-- vulnerabilities; each service's handlers check the token that the gateway has let through, append to the
-- service's audit table, and publish.
--
-- Fuel is used for one thing, the digits of a number, where the number itself is enough. All loops are over
-- lists, and over the elements of an XML document.
--
-- Not modelled: the training of the anomaly model, the dashboards and lists that only read, document
-- storage, the writes to Neo4j, which nothing reads back, the mock adapters, database set-up and migrations,
-- the frontend, deployment.
-- Two requests at one time are not interleaved: each operation is one transaction.
pub mod Prelude
pub mod Kafka
pub mod Audit
pub mod Jwt
pub mod Incident
pub mod Monitoring
pub mod Vendor
pub mod Gateway
pub mod Auth
pub mod Compliance
pub mod Sbom
pub mod Risk
