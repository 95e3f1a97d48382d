-- ===== src/Acquisition.antt =====
-- Acquisition: the fetch queue, its leases, the terminal records, the reactions to an outcome and
-- the manual recovery of a source (apps/api/src/app/domains/acquisition).
pub mod Schema
pub mod Health
pub mod Lease
pub mod Recorder
pub mod Sweep
pub mod Enqueue
pub mod Runner
pub mod World
pub mod Recovery
pub mod Netsafety
pub mod Fetcher
pub mod Examples
