-- ===== src/Home/Actions.antt =====
-- apps/web/app/routes/home.tsx beside apps/mobile/hooks/useMapApp.ts: the actions of the two map
-- screens, and their runs. On mobile an effect collapses the tabs after each action; where its
-- dependencies are as before, there is nothing left to collapse. The effects on the active vehicle
-- start as actions of their own, at any time.
use ovlive_platform.Types.{Vehicle, StopDeparture, VehicleSummary, VehicleDetail, VehicleTripPlan}
use ovlive_platform.Prelude.{ℕ, Bool, Option, some, List, [], ◌∷◌, if◌then◌else◌, Text}
use ovlive_platform.Selection.Defs.{
  MapApp, Selected, update_tabs, live_tab, gone_tab, back_tab, resume_tab, backfill_line,
  find_index, collapse, collapse_tabs, is_selected, is_id, without, id_at, neighbour,
}
use ovlive_platform.Selection.Defs as Mobile
use ovlive_platform.Home.Defs as Web

-- What the user, the stream and the server do to the map screen. A link is one with a vehicle.
pub data Action (R : Type 0) : Type 0 where
  select : Text → Option (Vehicle R) → Action R
  link : ℕ → Text → Bool → Action R
  search_hit : VehicleSummary R → Action R
  stop : Text → Action R
  departure : StopDeparture R → Action R
  live : Vehicle R → Action R
  gone : Text → Action R
  back : Vehicle R → Action R
  resumed : Text → Action R
  tab : Text → Action R
  close : Text → Action R
  close_all : Action R
  multi_select : Bool → Action R
  detail : VehicleDetail R → Action R
  plan : VehicleTripPlan R → Action R
  detail_effect : Action R
  plan_effect : Action R
  refetch : Action R
  close_board : Action R
  isolate : Action R
  -- The follow button, while nothing is followed.
  follow : Action R
  types : Text → Action R

-- What happens to a screen, with what the two take differently: a move of the map by the user, which
-- stops the following on the web only, and the follow button of a followed vehicle, which is there on
-- mobile only.
pub data Event (R : Type 0) : Type 0 where
  both : Action R → Event R
  pan : Event R
  unfollow : Event R

module _ {R : Type 0} where
  -- The panel offers the tabs that there are.
  abbrev pub on_tab : Text → (MapApp R → MapApp R) → MapApp R → MapApp R
  on_tab id f s = if is_selected id s.selected then f s else s

  unfoldable pub web : Action R → MapApp R → MapApp R
  web (select id v) s = Web.select_vehicle id v s
  web (link c id only) s = Web.follow_link (some (c ∷ id)) only s
  web (search_hit v) s = Web.open_vehicle_from_search v s
  web (stop id) s = Web.open_stop id s
  web (departure d) s = Web.open_vehicle_from_departure d s
  web (live v) s = Web.on_selected_live v s
  web (gone id) s = Web.on_selected_gone id s
  web (back v) s = Web.on_selected_back v s
  web (resumed id) s = on_tab id (Web.resume_trip id) s
  web (tab id) s = on_tab id (Web.select_tab id) s
  web (close id) s = Web.close_tab id s
  web close_all s = Web.close_all s
  web (multi_select on) s = Web.change_multi_select on s
  web (detail d) s = Web.on_detail d s
  web detail_effect s = Web.begin_detail s
  web plan_effect s = Web.begin_plan s
  web (plan p) s = Web.on_plan p s
  web refetch s = Web.refetch_plan s
  web close_board s = Web.close_stop s
  web isolate s = Web.toggle_isolate s
  web follow s = if s.following then s else Web.follow s
  web (types q) s = Web.set_query q s

  unfoldable pub act : Action R → MapApp R → MapApp R
  act (select id v) s = Mobile.select_vehicle id v s
  act (link c id only) s = Mobile.open_deep_link (c ∷ id) only s
  act (search_hit v) s = Mobile.open_vehicle_from_search v s
  act (stop id) s = Mobile.open_stop id s
  act (departure d) s = Mobile.open_vehicle_from_departure d s
  act (live v) s = Mobile.on_selected_live v s
  act (gone id) s = Mobile.on_selected_gone id s
  act (back v) s = Mobile.on_selected_back v s
  act (resumed id) s = on_tab id (Mobile.resume_trip id) s
  act (tab id) s = on_tab id (Mobile.select_tab id) s
  act (close id) s = Mobile.close_tab id s
  act close_all s = Mobile.close_all s
  act (multi_select on) s = record s { multi_select = on }
  act (detail d) s = Mobile.on_detail d s
  act detail_effect s = Mobile.begin_detail s
  act plan_effect s = Mobile.begin_plan s
  act (plan p) s = Mobile.on_plan p s
  act refetch s = Mobile.refetch_plan s
  act close_board s = Mobile.close_stop s
  act isolate s = Mobile.toggle_isolate s
  act follow s = if s.following then s else Mobile.toggle_follow s
  act (types q) s = Mobile.set_query q s

  unfoldable pub mobile : Action R → MapApp R → MapApp R
  mobile a s = collapse (act a s)

  unfoldable pub web_run : List (Action R) → MapApp R → MapApp R
  web_run [] s = s
  web_run (a ∷ rest) s = web_run rest (web a s)

  unfoldable pub mobile_run : List (Action R) → MapApp R → MapApp R
  mobile_run [] s = s
  mobile_run (a ∷ rest) s = mobile_run rest (mobile a s)

  unfoldable pub web_events : List (Event R) → MapApp R → MapApp R
  web_events [] s = s
  web_events (both a ∷ rest) s = web_events rest (web a s)
  web_events (pan ∷ rest) s = web_events rest (Web.detach s)
  web_events (unfollow ∷ rest) s = web_events rest s

  unfoldable pub mobile_events : List (Event R) → MapApp R → MapApp R
  mobile_events [] s = s
  mobile_events (both a ∷ rest) s = mobile_events rest (mobile a s)
  mobile_events (pan ∷ rest) s = mobile_events rest s
  mobile_events (unfollow ∷ rest) s =
      mobile_events rest (if s.following then Mobile.toggle_follow s else s)
