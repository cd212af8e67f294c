-- ===== src/Lib.antt =====
-- BackupOS: the core of a backup service. It cuts files into chunks, stores each chunk once under
-- its digest, seals a snapshot with the Merkle root of the digests, restores snapshots, and prunes
-- and checks them from a scheduler.
--
-- How the parts interact: `run_backup` chunks every file (Chunker), stores the chunks with their
-- entropy (Entropy, Cas), takes the root and the difference to the previous snapshot (Merkle),
-- adds the rows of the snapshot and raises alerts. `run_restore` reads the manifests, retrieves
-- the chunks and verifies the root. The endpoints check that a source is the tenant's, add jobs,
-- which they hand to the broker, and read or change the same rows; backups are rate limited. The
-- scheduler dispatches backups, deletes expired snapshots with their chunks, and verifies the
-- roots again.
--
-- The files and the code that they model:
-- Merkle.antt: app/core/merkle.py. `MerkleTree._build` is `build`, with `build_loop` the `while`
--   loop; `root_hash`, `diff` and `verify` keep their names.
-- Chunker.antt: app/core/cdc.py. `CDCChunker.chunk_data` is `chunk_data`, its outer loop
--   `chunk_loop` and its scan for a boundary `scan`.
-- Entropy.antt: app/core/entropy.py, over abstract floats.
-- Cas.antt: app/core/cas.py. `CASStore` is a dictionary of files; each method is a function to a
--   result and the store after it.
-- Models.antt: app/models, the rows of the tables, and the database as a list of rows for each.
-- Backup.antt, with Steps, Alerts and Task below it: app/workers/backup_worker.py. The rows and
--   the steps of `run_backup`, its alerts, and the task with its handler.
-- Restore.antt, Restore/Task.antt: app/workers/restore_worker.py, the same way.
-- Scheduler.antt, with Retention, Integrity and Policies below it: app/core/scheduler.py.
--   `prune_expired_snapshots`, `verify_snapshot_integrity` and `evaluate_all_policies` keep their
--   names.
-- Snapshots.antt: app/api/snapshots.py, the lock of a snapshot.
-- Chain.antt: app/api/chain.py, the graph of a source's snapshots.
-- Compliance.antt: app/services/compliance_service.py, the scores of a source.
-- RateLimit.antt: app/core/rate_limit.py. `check` and `enforce_rate_limit` take the state of Redis
--   and the time of the request.
-- Http.antt, Queries.antt: the answers of the handlers under app/api, and queries that they share.
-- Api/Backups.antt, with Sampling and Synthesis below it: app/api/backups.py and app/core/audit.py.
-- Api/Restores.antt: app/api/restore.py.
-- Api/Policies.antt, with Updates and Attachments below it: app/api/policies.py and
--   app/schemas/policy.py.
-- Browse.antt: app/api/browse.py. Catalog.antt: app/api/catalog.py.
-- Webhooks.antt, Webhooks/Endpoints.antt: app/api/webhooks.py and app/models/webhook.py.
-- Auth.antt: app/core/auth.py, app/api/auth.py and app/models/tenant.py.
-- Export.antt: app/api/compliance.py, the signed export of the audit log.
-- Sources.antt: app/api/sources.py, with the cascades of app/models/source.py.
-- Alerts.antt: the queries of alerts of app/api/anomalies.py, and resolving one.
-- Anomalies.antt: app/services/anomaly_service.py, which nothing calls; the backup worker has its
--   own checks.
-- Analytics.antt, Analytics/Report.antt: app/api/analytics.py.
-- Reports.antt: the compliance report of app/api/anomalies.py.
-- Base.antt: lists, tests, membership and dictionaries, which the others share.
--
-- Fuel: the loop of `_build` at least halves the layer, so that the length of the list is enough
-- (Merkle.Build); a chunk has a byte or more, so that the length of the data is enough for
-- `chunk_loop`, and `scan` has a round for each byte left (Chunker.Lossless); a stack entry of
-- `_all_node_hashes` takes the rounds that `rounds` counts (Merkle.Built); the search for depths
-- has a round for each snapshot (Chain.Ends). All other loops run over a list.
--
-- Parameters: SHA-256 (with no collisions, where a theorem says so), zstandard, the floats with
-- `round` and `int`, the outcome of each write of the file system, which statements of the
-- database raise in a backup, the readings of the clock, the answers of the Celery broker, and
-- whether the database enforces foreign keys; for the endpoints, Redis with the laws of INCR and
-- EXPIRE, `fnmatch`, `random.sample`, `yaml.safe_load` with the conversions of its values,
-- HMAC-SHA256 (with no collisions, where a theorem says so), the JSON encoding, LIKE, and the
-- answers to the requests of the HTTP client; for tenants, the hashing of passwords and JSON web
-- tokens, with the law that each reads back what it wrote.
--
-- Not modelled: statements of the database that raise outside of a backup; the texts of alerts,
-- violations, answers and logs; the rounding of ratios in the answers of the other handlers, and
-- the averages of scores over sources; and starting the application and the scheduler.
pub mod Base
pub mod Merkle
pub mod Chunker
pub mod Entropy
pub mod Cas
pub mod Models
pub mod Backup
pub mod Restore
pub mod Scheduler
pub mod Snapshots
pub mod Compliance
pub mod Chain
pub mod Alerts
pub mod Analytics
pub mod Anomalies
pub mod Api
pub mod Auth
pub mod Browse
pub mod Catalog
pub mod Export
pub mod Http
pub mod Queries
pub mod RateLimit
pub mod Reports
pub mod Sources
pub mod Webhooks
