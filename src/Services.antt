-- ===== src/Services.antt =====
-- app/services: transactions, audit rows and cache invalidation.
pub mod UserService
pub mod PredictionService
pub mod BatchService
pub mod BatchUploadService
pub mod AuditService
