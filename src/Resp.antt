-- ===== src/Resp.antt =====
-- src/resp: the Redis serialization protocol. `Types` are the values and their encoding, `Parser`
-- reads them from a buffer.
pub mod Types
pub mod Parser
