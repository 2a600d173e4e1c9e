-- ===== src/Lib.antt =====
-- Schema Sentry, a guard against drift of a PostgreSQL schema. A scan reads the columns of a source,
-- compares them with the baseline in the metadata store, and records the differences as changes that stay
-- OPEN until they vanish or an operator accepts them. A BREAKING change blocks the pipelines that its
-- column reaches along the registered lineage: the Airflow DAG asks before it runs. New changes and failed
-- scans are sent as alerts, at most three times each.
--
-- The files, with paths from the repository's root below src/schema_sentry where no other is given:
--   Prelude      lists, dictionaries, sorting, texts, JSON values, and methods as functions on a state
--   Domain       domain/: Enums, Models, TypeRules (type_rules.py), Diff (diff.py), Lineage (lineage.py)
--   Store        infrastructure/db/models: the rows of the tables, the store and the exceptions
--   Scan         infrastructure/db/repositories/scans.py (Reading, Baseline, Writing), application/scan_service.py and
--                the POST handler of api/routers/scans.py (Service), infrastructure/db/postgres_collector.py (Collector)
--   Changes      infrastructure/db/repositories/changes.py with application/change_service.py (Accept) and
--                application/validation_service.py, api/routers/pipelines.py and
--                airflow/dags/daily_revenue.py (Guard)
--   Alerts       infrastructure/db/repositories/alerts.py, application/notification_service.py, the dispatcher of
--                api/dependencies.py and the retry of api/routers/alerts.py (Dispatcher)
--   Catalog      application/catalog_service.py and infrastructure/db/repositories/catalog.py
--   System       the requests whole, from one committed store to the next, with the alerts that follow a scan,
--                and the invariant of the stores that they lead to
--   Dashboard    api/routers/dashboard.py
--   Responses    api/schemas and the GET handlers of api/routers/scans.py
--   Views        ScanQueryRepository of infrastructure/db/repositories/scans.py, application/query_service.py
--   Security     api/security.py and the check of the settings of config.py
--   Examples     the theorems at concrete inputs
--
-- A method of a repository is a function from the store to a result and the store it leaves; a raise keeps
-- what was written, and the request's transaction takes it back where the code rolls back. A definition has
-- its Python name without the leading underscore; a Python loop or comprehension is a recursion on its list.
-- UUIDs are numbers that the store has not used, timestamps are microseconds, and `datetime.now(UTC)` is an
-- argument. Python integers are ℤ where they may be negative and ℕ where they count.
--
-- The one loop without a structural bound is the search for impacts. It takes fuel, one per round. A round
-- removes a queue entry and each visit of a new key adds one, so the number of columns and edges is enough.
--
-- Arguments of the model: the hash of domain/fingerprint.py (json.dumps with hashlib.sha256), the answers of
-- the collector's query and of the advisory lock, the notifiers, `html.escape`, `urlsplit` and the text of a
-- UUID. Unique constraints of the database are hypotheses where a theorem needs them, but for the primary
-- keys, which the invariant of System shows. Not modelled: the reading of YAML, the templates of the pages,
-- logging, the connections to PostgreSQL, SMTP and Slack, the migrations and the wiring of FastAPI.
mod Prelude
pub mod Domain
pub mod Store
pub mod Scan
pub mod Changes
pub mod Alerts
pub mod Security
pub mod Views
pub mod Catalog
pub mod System
pub mod Dashboard
pub mod Responses
mod Examples
