-- ===== src/Api.antt =====
-- app/api: the handlers that start jobs and answer questions about snapshots. Each takes the tenant
-- that the request was authenticated for and the table of sources.
pub mod Backups
pub mod Restores
pub mod Synthetic
pub mod Policies
pub mod Limits
pub mod Owners
mod Tests
