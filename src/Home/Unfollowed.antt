-- ===== src/Home/Unfollowed.antt =====
-- apps/web/app/routes/home.tsx beside apps/mobile/hooks/useMapApp.ts: what is followed decides
-- nothing else of the state.
use ovlive_platform.Prelude.{
  ◌≡◌, refl, sym, ap, ◌∙◌, Bool, true, false, if◌then◌else◌, [], ◌∷◌, Text, Option, none, some,
  is_empty,
}
use ovlive_platform.Selection.Defs.{
  MapApp, Selected, update_tabs, live_tab, gone_tab, back_tab, resume_tab, backfill_line,
  find_index, collapse, collapse_tabs, is_selected, is_id, without, id_at, neighbour, add_tab,
  select_vehicle, open_deep_link, open_vehicle_from_departure, on_detail, refetch_plan, resume_trip,
  close_tab, on_selected_gone, on_selected_back, on_selected_live, refetch, find_on_map, select_tab,
  reported_trip,
}
use ovlive_platform.Home.Actions.{
  detail_effect, plan_effect, Action, act, mobile, select, link, search_hit, stop, departure, live,
  gone, back, resumed, tab, close, close_all, multi_select, detail, plan,
}
use ovlive_platform.Selection.Defs as Mobile

module _ {R : Type 0} where
  -- The state but for what is followed.
  abbrev pub unfollowed : MapApp R → MapApp R
  unfollowed s = record s { following = false }

  if_unfollowed :
      (b : Bool) (x x' y y' : MapApp R)
      → unfollowed x ≡ unfollowed x'
      → unfollowed y ≡ unfollowed y'
      → unfollowed (if b then x else y) ≡ unfollowed (if b then x' else y')
  if_unfollowed true x x' y y' e f = e
  if_unfollowed false x x' y y' e f = f

  -- `openVehicleFromDeparture` of a departure's fields.
  abbrev depart : Option Text → Option R → Option R → MapApp R → MapApp R
  depart o lat lon t = elim o [
    | none ↦ t
    | some id ↦ if is_empty id then t else select_vehicle id none (find_on_map lat lon id t)
  ]

  abbrev asks : Option Text → MapApp R → MapApp R
  asks o t = elim o [
    | none ↦ t
    | some reported ↦ record t { plan_trip = some reported; trip = none }
  ]

  departure_unfollowed :
      (o : Option Text) (lat lon : Option R) (s : MapApp R)
      → unfollowed (depart o lat lon s) ≡ unfollowed (depart o lat lon (unfollowed s))
  unfolding select_vehicle
  departure_unfollowed none lat lon s = refl
  departure_unfollowed (some []) lat lon s = refl
  departure_unfollowed (some (c ∷ id)) none lon s = refl
  departure_unfollowed (some (c ∷ id)) (some lat) none s = refl
  departure_unfollowed (some (c ∷ id)) (some lat) (some lon) s = refl

  refetch_unfollowed :
      (o : Option Text) (s : MapApp R) → unfollowed (asks o s) ≡ unfollowed (asks o (unfollowed s))
  refetch_unfollowed none s = refl
  refetch_unfollowed (some r) s = refl

  follow_unfollowed :
      (b : Bool) (s : MapApp R)
      → unfollowed (if b then s else Mobile.toggle_follow s) ≡ unfollowed s
  unfolding Mobile.toggle_follow
  follow_unfollowed true s = refl
  follow_unfollowed false s = refl

  unfollowed-act :
      (a : Action R) (s : MapApp R) → unfollowed (act a s) ≡ unfollowed (act a (unfollowed s))
  unfolding act select_vehicle open_deep_link Mobile.open_vehicle_from_search Mobile.open_stop
      on_selected_live on_selected_back Mobile.begin_detail Mobile.begin_plan select_tab
      Mobile.close_all Mobile.on_plan resume_trip Mobile.close_stop Mobile.toggle_isolate
      Mobile.toggle_follow Mobile.set_query on_detail close_tab open_vehicle_from_departure
      on_selected_gone refetch_plan refetch
  unfollowed-act (select id v) s = refl
  unfollowed-act (link c id true) s = refl
  unfollowed-act (link c id false) s = refl
  unfollowed-act (search_hit v) s = refl
  unfollowed-act (stop id) s = refl
  unfollowed-act (departure d) s = departure_unfollowed d.vehicle_id d.vehicle_lat d.vehicle_lon s
  unfollowed-act (live v) s = refl
  unfollowed-act (gone id) s = refl
  unfollowed-act (back v) s = refl
  unfollowed-act (resumed id) s =
      if_unfollowed (is_selected id s.selected) (resume_trip id s) (resume_trip id (unfollowed s)) s
        (unfollowed s) refl refl
  unfollowed-act (tab id) s =
      if_unfollowed (is_selected id s.selected) (select_tab id s) (select_tab id (unfollowed s)) s
        (unfollowed s) refl refl
  unfollowed-act (close id) s =
      let left = without id s.selected in
      let next = id_at (neighbour (find_index id s.selected) left) in
      if_unfollowed (is_id s.active_id id) (record s { selected = left; active_id = next })
        (record (unfollowed s) { selected = left; active_id = next }) (record s { selected = left })
        (record (unfollowed s) { selected = left }) refl refl
  unfollowed-act close_all s = refl
  unfollowed-act (multi_select on) s = refl
  unfollowed-act (detail d) s = refl
  unfollowed-act (plan p) s = refl
  unfollowed-act detail_effect s = refl
  unfollowed-act plan_effect s = refl
  unfollowed-act Action.refetch s = refetch_unfollowed (refetch s) s
  unfollowed-act Action.close_board s = refl
  unfollowed-act Action.isolate s = refl
  unfollowed-act Action.follow s = follow_unfollowed s.following s
  unfollowed-act (Action.types q) s = refl

  unfollowed-collapse : (s : MapApp R) → unfollowed (collapse s) ≡ collapse (unfollowed s)
  unfolding collapse
  unfollowed-collapse s = refl

  pub mobile_unfollowed :
      (a : Action R) (s t : MapApp R)
      → unfollowed s ≡ unfollowed t
      → unfollowed (mobile a s) ≡ unfollowed (mobile a t)
  unfolding mobile
  mobile_unfollowed a s t e =
      unfollowed-collapse (act a s)
      ∙ ap collapse
          (unfollowed-act a s ∙ ap (λ u. unfollowed (act a u)) e ∙ sym (unfollowed-act a t))
      ∙ sym (unfollowed-collapse (act a t))
