-- ===== src/Schedule.antt =====
-- packages/shared/src/format.ts and clock.ts: the schedule axis (seconds since Dutch midnight),
-- delays, ages and countdowns. Seconds are whole numbers, as the feeds carry them.
pub mod Defs
pub mod Eta
pub mod Labels
mod Examples
