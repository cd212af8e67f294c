-- ===== src/Sources.antt =====
-- app/api/sources.py: the sources of a tenant. A row of `data_sources` has the columns that other
-- handlers read, as `DataSource`, and the others; `tags` is its JSON text.
pub mod Deletion
mod Tests
use backupos.Base.{
  ℕ, ◌+◌, Bool, true, false, not, ◌&&◌, Option, none, some, List, [], ◌∷◌, ◌++◌, Bytes, codes,
  nat_eq, ◌==◌, take, drop, contains, if◌then◌else◌,
}
use backupos.Models.{
  BackupJob, BackupSnapshot, BackupChunk, SnapshotFile, PolicyAttachment, AnomalyAlert, Database,
}
use backupos.Http.{Response, answer, failed_with, not_found, server_error}
use backupos.Backup.{get_job}
use backupos.Snapshots.{DataSource}
use backupos.Compliance.{Classification}
use backupos.Api.Backups.{log_event}
use backupos.Api.Policies.Updates.{or_keep}

pub data SourceType : Type 0 where
  directory database file : SourceType

pub record SourceRow : Type 0 where
  pub source : DataSource
  pub name : Bytes
  pub source_type : SourceType
  pub path : Bytes
  pub classification : Classification
  pub tags : Bytes

pub record SourceTable : Type 0 where
  pub rows : List SourceRow
  pub next_source_id : ℕ

-- What `owns` and the other queries of the sources read.
unfoldable pub sources_of : List SourceRow → List DataSource
sources_of [] = []
sources_of (r ∷ rows) = r.source ∷ sources_of rows

-- `.where(DataSource.id == source_id, DataSource.tenant_id == tenant.id)`
unfoldable pub find_source : ℕ → ℕ → List SourceRow → Option SourceRow
find_source source_id tenant_id [] = none
find_source source_id tenant_id (r ∷ rows) =
    if r.source.id == source_id && r.source.tenant_id == tenant_id
    then some r
    else find_source source_id tenant_id rows

unfoldable pub sources_of_tenant : ℕ → List SourceRow → List SourceRow
sources_of_tenant tenant_id [] = []
sources_of_tenant tenant_id (r ∷ rows) =
    let rest = sources_of_tenant tenant_id rows in
    if r.source.tenant_id == tenant_id then r ∷ rest else rest

unfoldable pub list_sources : ℕ → ℕ → ℕ → SourceTable → Response (List SourceRow)
list_sources tenant_id skip limit table =
    answer (take limit (drop skip (sources_of_tenant tenant_id table.rows)))

unfoldable pub get_source : ℕ → ℕ → SourceTable → Response SourceRow
get_source tenant_id source_id table = elim (find_source source_id tenant_id table.rows) [
  | none ↦ failed_with not_found
  | some r ↦ answer r
]

-- `DataSourceUpdate`, with `tags` as its JSON text.
pub record SourceUpdate : Type 0 where
  pub name : Option Bytes
  pub classification : Option Classification
  pub tags : Option Bytes

unfoldable pub change_source : SourceUpdate → SourceRow → SourceRow
change_source update r = record r {
  name = or_keep update.name r.name;
  classification = or_keep update.classification r.classification;
  tags = or_keep update.tags r.tags;
}

unfoldable pub set_source : ℕ → SourceUpdate → List SourceRow → List SourceRow
set_source source_id update [] = []
set_source source_id update (r ∷ rows) =
    let rest = set_source source_id update rows in
    (if r.source.id == source_id then change_source update r else r) ∷ rest

unfoldable pub drop_sources : ℕ → List SourceRow → List SourceRow
drop_sources source_id [] = []
drop_sources source_id (r ∷ rows) =
    let rest = drop_sources source_id rows in if r.source.id == source_id then rest else r ∷ rest

unfoldable pub drop_jobs : ℕ → List BackupJob → List BackupJob
drop_jobs source_id [] = []
drop_jobs source_id (job ∷ jobs) =
    let rest = drop_jobs source_id jobs in if job.source_id == source_id then rest else job ∷ rest

unfoldable pub detach_source : ℕ → List PolicyAttachment → List PolicyAttachment
detach_source source_id [] = []
detach_source source_id (a ∷ attachments) =
    let rest = detach_source source_id attachments in
    if a.source_id == source_id then rest else a ∷ rest

-- The snapshot belongs to a job of the source.
abbrev pub of_job : ℕ → List BackupJob → ℕ → Bool
of_job source_id jobs job_id = elim (get_job job_id jobs) [
  | none ↦ false
  | some job ↦ job.source_id == source_id
]

unfoldable pub files_without : List ℕ → List SnapshotFile → List SnapshotFile
files_without ids [] = []
files_without ids (f ∷ files) =
    let rest = files_without ids files in if contains ids f.snapshot_id then rest else f ∷ rest

module _ {Float : Type 0} where
  -- A job has one snapshot at most by `uselist=False`: of several the first is loaded, and the
  -- cascade goes to it alone. `seen` are the jobs of the snapshots before.
  unfoldable pub dropped_ids : ℕ → List BackupJob → List ℕ → List (BackupSnapshot Float) → List ℕ
  dropped_ids source_id jobs seen [] = []
  dropped_ids source_id jobs seen (s ∷ snapshots) =
      let rest = dropped_ids source_id jobs (s.job_id ∷ seen) snapshots in
      if of_job source_id jobs s.job_id && not (contains seen s.job_id) then s.id ∷ rest else rest

  -- No snapshot that is left refers by `job_id` to a job that is deleted.
  unfoldable pub refers_to_none : ℕ → List BackupJob → List (BackupSnapshot Float) → Bool
  refers_to_none source_id jobs [] = true
  refers_to_none source_id jobs (s ∷ snapshots) =
      not (of_job source_id jobs s.job_id) && refers_to_none source_id jobs snapshots

  unfoldable pub snapshots_without :
      List ℕ → List (BackupSnapshot Float) → List (BackupSnapshot Float)
  snapshots_without ids [] = []
  snapshots_without ids (s ∷ snapshots) =
      let rest = snapshots_without ids snapshots in if contains ids s.id then rest else s ∷ rest

  unfoldable pub chunks_without : List ℕ → List (BackupChunk Float) → List (BackupChunk Float)
  chunks_without ids [] = []
  chunks_without ids (c ∷ chunks) =
      let rest = chunks_without ids chunks in if contains ids c.snapshot_id then rest else c ∷ rest

  unfoldable pub drop_alerts : ℕ → List (AnomalyAlert Float) → List (AnomalyAlert Float)
  drop_alerts source_id [] = []
  drop_alerts source_id (a ∷ alerts) =
      let rest = drop_alerts source_id alerts in if a.source_id == source_id then rest else a ∷ rest

  -- `db.delete(source)` with the cascades: to the jobs, their snapshots with the chunks and the
  -- manifests, the attachments and the alerts.
  unfoldable pub cascade : ℕ → Database Float → Database Float
  cascade source_id db =
      let ids = dropped_ids source_id db.backup_jobs [] db.snapshots in
      record db {
        backup_jobs = drop_jobs source_id db.backup_jobs;
        snapshots = snapshots_without ids db.snapshots;
        chunks = chunks_without ids db.chunks;
        files = files_without ids db.files;
        attachments = detach_source source_id db.attachments;
        alerts = drop_alerts source_id db.alerts;
      }

  unfoldable pub create_source :
      ℕ
      → Bytes
      → SourceType
      → Bytes
      → Classification
      → Bytes
      → SourceTable
      → Database Float
      → Response SourceRow × (SourceTable × Database Float)
  create_source tenant_id name source_type path classification tags table db =
      let r : SourceRow = record {
        source = record { id = table.next_source_id; tenant_id = tenant_id };
        name = name;
        source_type = source_type;
        path = path;
        classification = classification;
        tags = tags;
      } in
      (
        answer r,
        (
          record { rows = table.rows ++ r ∷ []; next_source_id = table.next_source_id + 1 },
          log_event tenant_id (codes "source.created") (codes "DataSource") none db,
        ),
      )

  unfoldable pub update_source :
      ℕ
      → ℕ
      → SourceUpdate
      → SourceTable
      → Database Float
      → Response SourceRow × (SourceTable × Database Float)
  update_source tenant_id source_id update table db =
      elim (find_source source_id tenant_id table.rows) [
        | none ↦ (failed_with not_found, (table, db))
        | some r ↦ (
          answer (change_source update r),
          (
            record table { rows = set_source source_id update table.rows },
            log_event tenant_id (codes "source.updated") (codes "DataSource") (some source_id) db,
          ),
        )
      ]

  -- The database refuses a delete that leaves a foreign key without its row, and the transaction is
  -- rolled back. The keys of snapshots to jobs are checked here; `accepted` is whether the others
  -- hold, as that of a restore job.
  unfoldable pub delete_source :
      Bool
      → ℕ
      → ℕ
      → SourceTable
      → Database Float
      → Response (Unit {0}) × (SourceTable × Database Float)
  delete_source accepted tenant_id source_id table db =
      elim (find_source source_id tenant_id table.rows) [
        | none ↦ (failed_with not_found, (table, db))
        | some r ↦
            let logged =
              log_event tenant_id (codes "source.deleted") (codes "DataSource") (some source_id)
                db in
            let after = cascade source_id logged in
            if accepted && refers_to_none source_id db.backup_jobs after.snapshots
            then (answer tt, (record table { rows = drop_sources source_id table.rows }, after))
            else (failed_with server_error, (table, db))
      ]
