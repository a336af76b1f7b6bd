-- ===== src/Tests.antt =====
-- Runs of the definitions on concrete data, and the theorems at these data.
pub mod Data
pub mod Journal
pub mod Planner
pub mod Store
pub mod Jobs
pub mod Transactions
pub mod Observer
pub mod Gates
pub mod Removal
pub mod Wire
pub mod Web
pub mod Downloads
pub mod Snapshots
