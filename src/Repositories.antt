-- ===== src/Repositories.antt =====
-- app/repositories: the statements of each table.
pub mod Users
pub mod Batches
pub mod Predictions
pub mod Validity
pub mod Labels
pub mod Audit
