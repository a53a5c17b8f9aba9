-- ===== src/Rest.antt =====
-- packages/api-types/src/rest.ts: the paths and the requests; and the keys of the marker
-- images, apps/mobile/lib/markerImages.ts.
pub mod Defs
pub mod Readback
pub mod Request
pub mod Settled
mod Examples
