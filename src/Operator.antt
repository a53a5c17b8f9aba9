-- ===== src/Operator.antt =====
-- packages/shared/src/format.ts: which operator a vehicle is shown under, and its colours.
pub mod Defs
pub mod Colour
pub mod Brand
mod Examples
