-- ===== src/Server.antt =====
-- The workflow server, src/server/workflowserver.cc.
pub mod State
pub mod Notify
pub mod Drain
pub mod Start
pub mod Redistribute
pub mod Handlers
pub mod Network
pub mod Overload
pub mod Threads
