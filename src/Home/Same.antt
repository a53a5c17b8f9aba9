-- ===== src/Home/Same.antt =====
-- apps/web/app/routes/home.tsx beside apps/mobile/hooks/useMapApp.ts: each action of the two
-- map screens.
use ovlive_platform.Types.{Vehicle, StopDeparture, VehicleDetail}
use ovlive_platform.Prelude.{
  ℕ, ◌≡◌, ◌≢◌, refl, ap, inl, inr, Bool, true, false, Option, none, some, List, [], ◌∷◌, arith,
  Bool-cases, map, if◌then◌else◌, is_empty, Text,
}
use ovlive_platform.Selection.Defs.{
  MapApp, Selected, update_tabs, live_tab, gone_tab, back_tab, resume_tab, backfill_line,
  find_index, collapse, collapse_tabs, is_selected, is_id, without, id_at, neighbour, add_tab,
  select_vehicle, open_deep_link, open_vehicle_from_departure, on_detail, refetch_plan, resume_trip,
  close_tab, on_selected_gone, on_selected_back, on_selected_live, refetch, find_on_map, select_tab,
  reported_trip,
}
use ovlive_platform.Home.Tabs.{
  refresh, end_tab, bring_back, resume, backfill, index_of, next_active, add_selected,
}
use ovlive_platform.Home.Actions.{
  detail_effect, plan_effect, Action, web, act, on_tab, select, link, search_hit, stop, departure,
  live, gone, back, resumed, tab, close, close_all, multi_select, detail, plan,
}
use ovlive_platform.Home.Defs as Web
use ovlive_platform.Selection.Defs as Mobile

module _ {R : Type 0} where
  map-update :
      (f g : Selected R → Selected R)
      → ((s : Selected R) → f s ≡ g s)
      → (tabs : List (Selected R)) → map f tabs ≡ update_tabs g tabs
  map-update f g e [] = refl
  map-update f g e (s ∷ ss) = rw (e s, map-update f g e ss) refl

  bring_back_same : (v : Vehicle R) (s : Selected R) → bring_back v s ≡ back_tab v s
  unfolding bring_back back_tab
  bring_back_same v s = ground arith

  resume_same : (id : Text) (s : Selected R) → resume id s ≡ resume_tab id s
  unfolding resume resume_tab
  resume_same id s = ground arith

  backfill_same : (id line : Text) (s : Selected R) → backfill id line s ≡ backfill_line id line s
  unfolding backfill
  backfill_same id line s = ground arith

  refresh_same : (v : Vehicle R) (s : Selected R) → refresh v s ≡ live_tab v s
  unfolding refresh live_tab
  refresh_same v s = ground arith

  end_same : (id : Text) (s : Selected R) → end_tab id s ≡ gone_tab id s
  unfolding end_tab gone_tab
  end_same id s = refl

  add_same :
      (multi : Bool) (id : Text) (v : Option (Vehicle R)) (tabs : List (Selected R))
      → add_selected multi id v tabs ≡ add_tab multi id v tabs
  unfolding add_selected add_tab
  add_same true id v tabs = refl
  add_same false id v tabs = refl

  index_same : (id : Text) (tabs : List (Selected R)) → index_of id tabs ≡ find_index id tabs
  unfolding index_of find_index
  index_same id [] = refl
  index_same id (s ∷ ss) = rw (index_same id ss) refl

  next_same :
      (o : Option ℕ) (tabs : List (Selected R)) → next_active o tabs ≡ id_at (neighbour o tabs)
  unfolding next_active neighbour
  next_same none tabs = refl
  next_same (some i) tabs = ground arith

  select_same :
      (id : Text) (v : Option (Vehicle R)) (s : MapApp R)
      → Web.select_vehicle id v s ≡ select_vehicle id v s
  unfolding Web.select_vehicle select_vehicle
  select_same id v s = rw (add_same s.multi_select id v s.selected) refl

  link_same :
      (c : ℕ) (id : Text) (only : Bool) (s : MapApp R)
      → Web.follow_link (some (c ∷ id)) only s ≡ open_deep_link (c ∷ id) only s
  unfolding Web.follow_link open_deep_link
  link_same c id only s = rw (add_same s.multi_select (c ∷ id) none s.selected) refl

  departure_same :
      (d : StopDeparture R) (s : MapApp R)
      → Web.open_vehicle_from_departure d s ≡ open_vehicle_from_departure d s
  unfolding Web.open_vehicle_from_departure open_vehicle_from_departure
  departure_same d s = go d.vehicle_id d.vehicle_lat d.vehicle_lon
    where
      go :
          (o : Option Text) (lat lon : Option R)
          → (elim o [
            | none ↦ s
            | some id ↦
                if is_empty id
                then s
                else Web.select_vehicle id none (Web.pan_or_focus lat lon id s)
          ])
            ≡ (elim o [
              | none ↦ s
              | some id ↦
                  if is_empty id then s else select_vehicle id none (find_on_map lat lon id s)
            ])
      go none lat lon = refl
      go (some []) lat lon = refl
      go (some (c ∷ id)) none lon = select_same (c ∷ id) none (find_on_map none lon (c ∷ id) s)
      go (some (c ∷ id)) (some lat) none =
          select_same (c ∷ id) none (find_on_map (some lat) none (c ∷ id) s)
      go (some (c ∷ id)) (some lat) (some lon) =
          select_same (c ∷ id) none (find_on_map (some lat) (some lon) (c ∷ id) s)

  detail_same : (d : VehicleDetail R) (s : MapApp R) → Web.on_detail d s ≡ on_detail d s
  unfolding Web.on_detail on_detail
  detail_same d s =
      let line : Text = elim d.vehicle.line_public_number [ none ↦ [] | some l ↦ l ] in
      rw
        (map-update (backfill d.vehicle.id line) (backfill_line d.vehicle.id line)
          (backfill_same d.vehicle.id line) s.selected)
        refl

  refetch_same : (s : MapApp R) → Web.refetch_plan s ≡ refetch_plan s
  unfolding Web.refetch_plan refetch_plan refetch
  refetch_same s = ground arith

  gone_same : (id : Text) (s : MapApp R) → Web.on_selected_gone id s ≡ on_selected_gone id s
  unfolding Web.on_selected_gone on_selected_gone
  gone_same id s =
      rw (map-update (end_tab id) (gone_tab id) (end_same id) s.selected)
        (elim (Bool-cases (is_id s.active_id id)) [ inl e ↦ rw e refl | inr e ↦ rw e refl ])

  close_same : (id : Text) (s : MapApp R) → Web.close_tab id s ≡ close_tab id s
  unfolding Web.close_tab close_tab
  close_same id s =
      rw (index_same id s.selected, next_same (find_index id s.selected) (without id s.selected))
        (elim (Bool-cases (is_id s.active_id id)) [ inl e ↦ rw e refl | inr e ↦ rw e refl ])

  on_tab_same :
      (id : Text) (f g : MapApp R → MapApp R) (s : MapApp R)
      → f s ≡ g s
      → on_tab id f s ≡ on_tab id g s
  on_tab_same id f g s e = ap (λ t. if is_selected id s.selected then t else s) e

  resume_trip_same : (id : Text) (s : MapApp R) → Web.resume_trip id s ≡ resume_trip id s
  unfolding Web.resume_trip resume_trip
  resume_trip_same id s =
      rw (map-update (resume id) (resume_tab id) (resume_same id) s.selected) refl

  follow_same :
      (b : Bool) (s : MapApp R)
      → s.following ≡ b
      → (if b then s else Web.follow s) ≡ (if b then s else Mobile.toggle_follow s)
  unfolding Web.follow Mobile.toggle_follow
  follow_same true s e = refl
  follow_same false s e = ap (λ b. record s { following = b }) (ground (arith, e))

  -- The two screens do the same, but for a change of the preference.
  pub web_same :
      (a : Action R) (s : MapApp R) → ((on : Bool) → a ≢ multi_select on) → web a s ≡ act a s
  unfolding web act Web.open_vehicle_from_search Mobile.open_vehicle_from_search Web.open_stop
      Mobile.open_stop Web.on_selected_live on_selected_live Web.on_selected_back on_selected_back
      Web.begin_detail Mobile.begin_detail Web.begin_plan Mobile.begin_plan Web.select_tab
      select_tab Web.close_all Mobile.close_all Web.on_plan Mobile.on_plan Web.close_stop
      Mobile.close_stop Web.toggle_isolate Mobile.toggle_isolate Web.follow Mobile.toggle_follow
      Web.set_query Mobile.set_query
  web_same (select id v) s n = select_same id v s
  web_same (link c id only) s n = link_same c id only s
  web_same (search_hit v) s n = rw (add_same s.multi_select v.id none s.selected) refl
  web_same (stop id) s n = refl
  web_same (departure d) s n = departure_same d s
  web_same (live v) s n = rw (map-update (refresh v) (live_tab v) (refresh_same v) s.selected) refl
  web_same (gone id) s n = gone_same id s
  web_same (back v) s n =
      rw (map-update (bring_back v) (back_tab v) (bring_back_same v) s.selected) refl
  web_same (resumed id) s n =
      on_tab_same id (Web.resume_trip id) (resume_trip id) s (resume_trip_same id s)
  web_same (tab id) s n = refl
  web_same (close id) s n = close_same id s
  web_same close_all s n = refl
  web_same (multi_select on) s n = absurd (n on refl)
  web_same (detail d) s n = detail_same d s
  web_same (plan p) s n = refl
  web_same detail_effect s n = refl
  web_same plan_effect s n = refl
  web_same Action.refetch s n = refetch_same s
  web_same Action.close_board s n = refl
  web_same Action.isolate s n = refl
  web_same Action.follow s n = follow_same s.following s refl
  web_same (Action.types q) s n = refl
