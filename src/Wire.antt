-- ===== src/Wire.antt =====
-- packages/api-types/src/ws.ts: from the decoded frames to the clients' types.
pub mod Defs
pub mod Coherence
mod Examples
