-- ===== src/Storage.antt =====
-- packages/storage-sqlite/src/index.ts: the authoritative ledger of a repository. Each SQL table
-- keeps a record as JSON under its primary key, so it is a table here, in order of insertion, and
-- an upsert is a write. A method runs in one immediate transaction, so it is one step.
pub mod Runs
pub mod Lookup
pub mod Actions
pub mod Workflows
