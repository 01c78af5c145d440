-- ===== src/Commands.antt =====
-- src/commands: what the commands make of their arguments.
pub mod MultiPop
pub mod Lists
pub mod BlockingPops
pub mod Set
