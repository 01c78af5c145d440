-- ===== src/PubSub.antt =====
-- src/pubsub: the Pub/Sub namespace of one server.
pub mod Glob
pub mod Output
pub mod Broker
