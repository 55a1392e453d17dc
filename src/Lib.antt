-- ===== src/Lib.antt =====
-- Valaf turns alerts into incident notebooks: a webhook receives alerts, correlates them into
-- incidents, a worker collects evidence, asks an AI provider for an analysis and sends a notification,
-- and engineers review the result in a web interface. All state is in one PostgreSQL database.
--
-- The parts and their files. The core (internal/core) knows no database: it calls ports, which are
-- records over a type of states here.
--   Core/Severity, Core/Alert: ParseSeverity, AtLeast, IncidentLevel, MaxSeverity.
--   Core/Intake: Service.Ingest with its gate; Gate proves its outcomes.
--   Core/Collect: CollectionService.Collect over a list of collectors.
--   Core/Analyze: EnforceCitations, NormalizeVerdict, refIndex and AnalysisService.Analyze; Citations
--     describes what enforcement keeps, Grounded what holds of it, Service what is handed on.
--   Core/Notify: shouldNotify and NotificationService.Notify; Gate proves its outcomes.
-- The store (internal/store) implements the ports over the tables of internal/migrate/sql.
--   Store/Tables: one list of rows for each table. Store/Sql: statements and transactions, with rules
--     to reason about them in Sql/Rules.
--   Store/Jobs: the queue, JobRepo. Store/Incidents: IncidentRepo. Store/Evidence: EvidenceRepo.
--   Store/Analysis, Store/Retrieval: AnalysisRepo's SaveAnalysis and LoadAnalysisRequest.
--   Store/Notifications, Store/Review: NotificationRepo and ReviewRepo.
--   Store/Accounts: UserRepo, SessionRepo and SourceRepo.
--   Store/Notebook: ReadRepo and AttachmentRepo, with Views for what it loads, Cards for the list.
-- Worker is one step of the loop of internal/worker/worker.go: a claim, the handler of its kind, and
-- the bookkeeping. Web (internal/web) has the principals and the login (Auth), the webhook (Intake),
-- the review handlers with their routes (Review) and the pages (Pages); Guards proves who gets past
-- them.
-- The adapters (internal/adapters) fill the ports of the core.
--   Adapters/Alertmanager: the parsing of a payload; Keys and Entities prove what it derives.
--   Adapters/Prometheus, with Queries and Summary, and Adapters/Grafana, with Panel: the collectors.
--   Adapters/Ai, with Prompt: the AI providers. Adapters/Notify: the channels, with the text of a
--     message. Adapters/Http: the answers of calls.
-- Export (internal/export) has the exporters, with Markdown, Docx and their shared Words; Filename and
-- Escape prove what holds of a download.
-- Password is internal/auth/password.go, Config internal/config/config.go, Migrate the runner of
-- internal/migrate/migrate.go and Blob the local store of internal/blob, over the file system of
-- Blob/Disk. Setup is cmd/valaf/main.go: the commands, and what a configuration switches on.
-- Common has what all share: tests, lists, maps, texts and Go's error results. Examples runs the
-- code on concrete data.
--
-- How the code is read. A Go function with an error result is a function from a state to a result
-- and a state (Common/Effect); an error that is returned leaves the earlier writes in the state. A
-- statement is a function on the tables, which fails where an enum, a CHECK, a foreign key or a
-- unique index refuses it, and for evidence, whose texts come from other services, also where the
-- server does not take a text or a JSON value, which a parameter says (Server in Store/Sql). The
-- other statements are read for texts and JSON that the server takes. Left out are those that the
-- code's own arguments always meet, as the foreign keys to the acting user, whom nothing deletes,
-- and the uniqueness of the hash of a random token. A connection has a script that says which of
-- the coming statements fail, BEGIN and COMMIT included: such a statement changes nothing, and an
-- error in a transaction restores the tables of its start. Transactions run one after another.
-- Uuids and serial numbers are drawn from one counter. Instants are seconds counted from Go's zero
-- time, so that subtracting a duration that Go can hold does not go below 0, and the clock is an
-- argument of each operation that reads it. The operations recur on lists only, and there is no
-- fuel.
--
-- Parameters of the model: net/http, net/url and encoding/json; SHA-256, HMAC, argon2 and base64;
-- the arithmetic of floats; net/smtp; what the statements of a migration do; full-text search; and
-- the reload of a notebook for the page after a review. A json.RawMessage is a text, labels and
-- bags of entities are maps, and the score of a similar incident is the whole number that it
-- counts. Upper case is folded for ASCII only, which decides every comparison that the code makes
-- with the result. The collectors' error messages are written out, others are shortened, and
-- errors that the code only passes on are one constructor.
--
-- Not modelled: rendering, logging and cookies' attributes; the packing of a docx file; the S3
-- store; the polling loop, the HTTP server and signals; limits of time and size that belong to the
-- caller of a modelled function.
pub mod Common
pub mod Core
pub mod Store
pub mod Adapters
pub mod Password
pub mod Config
pub mod Migrate
pub mod Blob
pub mod Export
pub mod Setup
pub mod Worker
pub mod Web
pub mod Examples
