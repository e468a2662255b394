-- ===== src/Tests.antt =====
-- Runs of the model on concrete inputs.
pub mod Addresses
pub mod Texts
pub mod Tables
pub mod Grids
pub mod Sort
pub mod Waits
pub mod Balance
pub mod Process
pub mod Handlers
pub mod Jobs
pub mod Metadata
pub mod Network
pub mod Clients
pub mod Groups
pub mod Overload
pub mod Tasks
pub mod Threads
