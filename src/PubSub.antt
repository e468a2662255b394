-- ===== src/PubSub.antt =====
-- src/server/pubsub.cc and pubsub.h: the tables of subscriptions of one server process.
pub mod State
pub mod Event
pub mod Grid
pub mod Trigger
pub mod Subscribe
pub mod Invariant
pub mod Publish
