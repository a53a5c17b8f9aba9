-- ===== src/Lib.antt =====
-- Verification of OVLive's TypeScript clients: the live stream of public-transport vehicles, the
-- state of the map screens, and what the panels show.
--
-- The parts and their files. A frame of the live client goes to the fleet of the map (mobile or
-- web) or to the hook of one vehicle; the fleet reports the selected vehicles to the map screen,
-- which pins them in the live client; the panels resolve what they show from the frame, the
-- polled detail and the trip plan.
--   Live: packages/api-types/src/ws.ts, the class LiveClient. Live/Defs has one function for each
--     method, event handler and timer callback; Live/Step has the runs, in which the application and
--     the browser take turns in any order; Live/Stages has what is left to happen on a connection on
--     which nothing comes in.
--   Fleet: apps/mobile/lib/vehicleStore.ts, the class VehicleStore.
--   WebMap: apps/web/app/components/MapView.tsx, the refs of the fleet, the fetching of stops, and
--     (WebMap/Layers) the layers of the map library over a change of the style; WebMap/Camera is the
--     camera and the clicks, on top of the screen of Home.
--   MobileMap: apps/mobile/components/map/LiveMap.tsx, the map of the mobile app, on top of Live,
--     Fleet and Trip; MobileMap/Images: apps/mobile/hooks/useMarkerImages.ts and bakeMarker.
--   VehicleLive: apps/mobile/lib/live.ts and apps/web/app/lib/live.ts, the handler of frames.
--   Selection: apps/mobile/hooks/useMapApp.ts, the tabs and the trip plan of the map screen.
--   Home: apps/web/app/routes/home.tsx, the map screen of the web; Home/Actions has its actions
--     beside those of Selection, and the events that the two screens take differently. Sheet: apps/web/app/components/Sheet.tsx, the bottom sheet.
--   Board: apps/mobile/hooks/useMapApp.ts, the polling of the departure board.
--   Search: apps/mobile/hooks/useMapApp.ts, the vehicle search.
--   Schedule: packages/shared/src/format.ts (delays, ages, the Dutch clock) and clock.ts.
--   Trip: packages/shared/src/trip.ts. Geo: apps/mobile/lib/geo.ts and distanceMeters.
--   Operator: packages/shared/src/format.ts, the table of brands and the derived colours.
--   Panel: packages/shared/src/vehicle-view.ts.
--   Settings: apps/mobile/lib/config.ts and apps/web/app/lib/config.ts, what is remembered.
--   Wire: packages/api-types/src/ws.ts, toVehicle and toMove.
--   Translation: packages/shared/src/i18n.ts.
--   Rest: packages/api-types/src/rest.ts, the queries, the paths and the requests, and the image
--     keys of apps/mobile/lib/markerImages.ts.
--   Types: packages/api-types/src/types.ts. Prelude, Numbers, Split and Samples are
--     shared.
--
-- How the code is modelled. A class is a record, and a method is a function from state to state.
-- A callback to the application is an entry of a list, newest first. A socket and a timer are
-- numbers, with what the browser keeps about them in the state. A text is a list of UTF-16 code
-- units; a Map is an association list in insertion order. Every loop is structural recursion, so
-- that no fuel is used. Times in milliseconds are natural numbers, seconds are integers.
--
-- Parameters. Floating-point numbers (Numbers) with the laws that are used as named hypotheses,
-- which whole degrees meet, Math.round and the powers of two; drawing a marker; toUpperCase; the
-- parts of the Dutch clock, which Intl gives; the translation function; encodeURIComponent;
-- JSON.parse and JSON.stringify. The colours of hslToHex are computed exactly: at the saturation 58
-- and the lightness 40 that the code uses no channel is a tie of the rounding. Whether a timer or a
-- message of the network arrives is not promised: the theorems on runs hold for whatever arrives.
--
-- Not modelled: the Rust server, the protobuf codec, the fetch of the browser (what it answers
-- is an event), the drawing of markers, the colours and sizes of the map layers, and the markup of
-- the React components.
pub mod Prelude
pub mod Samples
pub mod Types
pub mod Numbers
pub mod Geo
pub mod Schedule
pub mod Trip
pub mod Live
pub mod MobileMap
pub mod Operator
pub mod Fleet
pub mod Selection
pub mod WebMap
pub mod VehicleLive
pub mod Panel
pub mod Home
pub mod Settings
pub mod Sheet
pub mod Translation
pub mod Wire
pub mod Board
pub mod Search
pub mod Split
pub mod Rest
