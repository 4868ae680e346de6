-- ===== src/Workers.antt =====
-- app/workers: the poller of the scanner's folder, and the classification job with its handler.
pub mod SftpIngest
pub mod Jobs
pub mod InferenceWorker
