-- ===== src/Translation.antt =====
-- packages/shared/src/i18n.ts: the texts of the two languages and the translator.
pub mod Dutch
pub mod English
pub mod Defs
pub mod Agreement
pub mod Interpolation
mod Examples
