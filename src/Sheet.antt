-- ===== src/Sheet.antt =====
-- apps/web/app/components/Sheet.tsx: the bottom sheet, its gesture and its heights.
pub mod Defs
pub mod Heights
pub mod Runs
pub mod Release
mod Examples
