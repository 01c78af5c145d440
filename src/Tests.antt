-- ===== src/Tests.antt =====
-- The modelled code run on small inputs, and an input for every theorem that has conditions.
pub mod Caches
pub mod Lists
pub mod PubSub
pub mod Engine
pub mod Broker
pub mod Blocking
pub mod Commands
pub mod Resp
