-- ===== src/Ledger.antt =====
-- internal/repository/scan_usage_ledger_repository.go, with the columns of internal/domain's
-- entities that its queries read. A table is a list of rows, a query a filter or a count over it;
-- a GORM query leaves out soft-deleted rows unless it is Unscoped. `Faults` says which of the
-- statements of one call the database refuses.
pub mod Tables
pub mod Queries
pub mod Reserve
pub mod Snapshot
pub mod Quota
pub mod Effects
pub mod Handover
mod Tests
