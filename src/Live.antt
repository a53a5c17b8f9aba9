-- ===== src/Live.antt =====
-- packages/api-types/src/ws.ts: the live client, its runs, and what holds of them.
pub mod Defs
pub mod Step
pub mod Connection
pub mod Subscription
pub mod Heartbeat
pub mod Recovery
pub mod Stages
pub mod Silence
mod Examples
