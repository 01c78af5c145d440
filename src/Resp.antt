-- ===== src/Resp.antt =====
-- src/resp: the RESP2 protocol.
pub mod Decimal
pub mod Value
pub mod Parser
pub mod Lines
pub mod RoundTrip
pub mod Requests
pub mod Prefixes
pub mod Chunks
