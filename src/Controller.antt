-- ===== src/Controller.antt =====
-- tv-controller: the guarded maintenance service.
pub mod Device
pub mod Journal
pub mod Planner
pub mod Names
pub mod Tasks
pub mod Jobs
pub mod Transactions
pub mod UserApk
pub mod RateLimit
pub mod Messages
pub mod AdbClient
pub mod Settings
pub mod Downloader
pub mod Service
pub mod Web
