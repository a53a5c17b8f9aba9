-- ===== src/Selection/Actions.antt =====
-- Every action of the map screen, and what holds after any run of them.
use ovlive_platform.Types.{Vehicle, StopDeparture, VehicleSummary, VehicleDetail, VehicleTripPlan}
use ovlive_platform.Prelude.{
  ◌≡◌, sym, ap, subst, Bool, true, Option, arith, length, Text, refl, ◌∙◌, inl, inr, false, none,
  some, [], ◌∷◌, Bool-cases, Option-cases, if◌then◌else◌, is_empty,
}
use ovlive_platform.Selection.Defs.{
  on_plan, collapse, gone_tab, Selected, is_selected, open_deep_link, MapApp, close_all,
  resume_trip, close_tab, backfill_line, on_detail, back_tab, open_vehicle_from_departure, live_tab,
  on_selected_live, select_vehicle, select_tab, open_vehicle_from_search, on_selected_gone,
  resume_tab, refetch_plan, open_stop, on_selected_back, fly_to, find_on_map, refetch,
}
use ovlive_platform.Selection.Tabs.{
  Distinct, IsWellFormed, add_tab_lem, is_selected-update, update-IsWellFormed,
}
use ovlive_platform.Selection.Close.{close_tab_lem, collapse-IsWellFormed}

module _ {R : Type 0} where
  -- A step of the map screen: an action of the user, an event of the live stream, an answer of the
  -- server, or an effect. A tab can be shown or resumed only while it is there.
  pub data Step : MapApp R → MapApp R → Type 0 where
    selects : (s : MapApp R) (id : Text) (v : Option (Vehicle R)) → Step s (select_vehicle id v s)
    deep_links : (s : MapApp R) (id : Text) (only : Bool) → Step s (open_deep_link id only s)
    searches : (s : MapApp R) (v : VehicleSummary R) → Step s (open_vehicle_from_search v s)
    opens_stop : (s : MapApp R) (id : Text) → Step s (open_stop id s)
    departs : (s : MapApp R) (d : StopDeparture R) → Step s (open_vehicle_from_departure d s)
    live : (s : MapApp R) (v : Vehicle R) → Step s (on_selected_live v s)
    goes : (s : MapApp R) (id : Text) → Step s (on_selected_gone id s)
    returns : (s : MapApp R) (v : Vehicle R) → Step s (on_selected_back v s)
    resumes :
        (s : MapApp R) (id : Text) → is_selected id s.selected ≡ true → Step s (resume_trip id s)
    shows : (s : MapApp R) (id : Text) → is_selected id s.selected ≡ true → Step s (select_tab id s)
    closes : (s : MapApp R) (id : Text) → Step s (close_tab id s)
    closes_all : (s : MapApp R) → Step s (close_all s)
    collapses : (s : MapApp R) → Step s (collapse s)
    sets_multi : (s : MapApp R) (on : Bool) → Step s (record s { multi_select = on })
    details : (s : MapApp R) (d : VehicleDetail R) → Step s (on_detail d s)
    plans : (s : MapApp R) (p : VehicleTripPlan R) → Step s (on_plan p s)
    refetches : (s : MapApp R) → Step s (refetch_plan s)

  live_tab-id : (v : Vehicle R) (s : Selected R) → (live_tab v s).id ≡ s.id
  unfolding live_tab
  live_tab-id v s = ground arith

  gone_tab-id : (id : Text) (s : Selected R) → (gone_tab id s).id ≡ s.id
  unfolding gone_tab
  gone_tab-id id s = ground arith

  back_tab-id : (v : Vehicle R) (s : Selected R) → (back_tab v s).id ≡ s.id
  unfolding back_tab
  back_tab-id v s = ground arith

  resume_tab-id : (id : Text) (s : Selected R) → (resume_tab id s).id ≡ s.id
  unfolding resume_tab
  resume_tab-id id s = ground arith

  backfill_line-id : (id line : Text) (s : Selected R) → (backfill_line id line s).id ≡ s.id
  backfill_line-id id line s = ground arith

  select_vehicle-IsWellFormed :
      (id : Text) (v : Option (Vehicle R)) (s : MapApp R)
      → IsWellFormed s
      → IsWellFormed (select_vehicle id v s)
  unfolding select_vehicle
  select_vehicle-IsWellFormed id v s h =
      let (d, b, l) = add_tab_lem s.multi_select id v s.selected h.distinct h.bounded in
      record { distinct = d; bounded = b; listed = l }

  -- Nothing but the fields that well-formedness reads matters.
  same-IsWellFormed :
      (s t : MapApp R)
      → IsWellFormed s
      → t.selected ≡ s.selected
      → t.active_id ≡ s.active_id
      → IsWellFormed t
  same-IsWellFormed s t h e a = record {
    distinct = subst Distinct (sym e) h.distinct;
    bounded = omega (arith, h.bounded, ap length e);
    listed = rw (e, a) h.listed;
  }

  find_on_map_same :
      (lat lon : Option R) (id : Text) (s : MapApp R)
      → ((find_on_map lat lon id s).selected ≡ s.selected)
        × ((find_on_map lat lon id s).active_id ≡ s.active_id)
  find_on_map_same lat lon id s = ground arith

  departs-IsWellFormed :
      (d : StopDeparture R) (s : MapApp R)
      → IsWellFormed s
      → IsWellFormed (open_vehicle_from_departure d s)
  unfolding open_vehicle_from_departure
  departs-IsWellFormed d s h = go d.vehicle_id
    where
      go :
          (o : Option Text)
          → IsWellFormed (elim o [
            | none ↦ s
            | some id ↦
                if is_empty id
                then s
                else select_vehicle id none (find_on_map d.vehicle_lat d.vehicle_lon id s)
          ])
      go none = h
      go (some []) = h
      go (some (c ∷ id)) =
          let (es, ea) = find_on_map_same d.vehicle_lat d.vehicle_lon (c ∷ id) s in
          let s' = find_on_map d.vehicle_lat d.vehicle_lon (c ∷ id) s in
          select_vehicle-IsWellFormed (c ∷ id) none s' (same-IsWellFormed s s' h es ea)

  deep_link-IsWellFormed :
      (id : Text) (only : Bool) (s : MapApp R)
      → IsWellFormed s
      → IsWellFormed (open_deep_link id only s)
  unfolding open_deep_link
  deep_link-IsWellFormed id only s h =
      let k =
        select_vehicle-IsWellFormed id none (record s { focus_id = some id })
          (same-IsWellFormed s _ h refl refl) in
      same-IsWellFormed (select_vehicle id none (record s { focus_id = some id }))
        (open_deep_link id only s) k (ground arith) (ground arith)

  on_detail-IsWellFormed :
      (d : VehicleDetail R) (s : MapApp R) → IsWellFormed s → IsWellFormed (on_detail d s)
  unfolding on_detail
  on_detail-IsWellFormed d s h =
      let line : Text = elim d.vehicle.line_public_number [ none ↦ [] | some l ↦ l ] in
      let k =
        update-IsWellFormed (backfill_line d.vehicle.id line) (backfill_line-id d.vehicle.id line) s
          h in
      elim (Bool-cases (is_empty line)) [
        | inl blank ↦ same-IsWellFormed s (on_detail d s) h (rw blank refl) refl
        | inr named ↦ same-IsWellFormed _ (on_detail d s) k (rw named refl) refl
      ]

  refetch_plan_same :
      (s : MapApp R)
      → ((refetch_plan s).selected ≡ s.selected) × ((refetch_plan s).active_id ≡ s.active_id)
  unfolding refetch_plan
  refetch_plan_same s = elim (Option-cases (refetch s)) [
    | inl settled ↦ rw (settled, refetch_plan) (refl, refl)
    | inr (r, asks) ↦ rw (asks, refetch_plan) (refl, refl)
  ]

  pub Step-IsWellFormed : {s t : MapApp R} → Step s t → IsWellFormed s → IsWellFormed t
  unfolding open_vehicle_from_search open_stop on_selected_live on_selected_gone on_selected_back
      resume_trip select_tab close_all on_plan
  Step-IsWellFormed (selects s id v) h = select_vehicle-IsWellFormed id v s h
  Step-IsWellFormed (deep_links s id only) h = deep_link-IsWellFormed id only s h
  Step-IsWellFormed (searches s v) h =
      same-IsWellFormed _ _
        (select_vehicle-IsWellFormed v.id none _
          (same-IsWellFormed s (record s { camera = fly_to v.lon v.lat ∷ s.camera }) h refl refl))
        refl refl
  Step-IsWellFormed (opens_stop s id) h = same-IsWellFormed s _ h refl refl
  Step-IsWellFormed (departs s d) h = departs-IsWellFormed d s h
  Step-IsWellFormed (live s v) h = update-IsWellFormed (live_tab v) (live_tab-id v) s h
  Step-IsWellFormed (goes s id) h =
      same-IsWellFormed _ _ (update-IsWellFormed (gone_tab id) (gone_tab-id id) s h) refl refl
  Step-IsWellFormed (returns s v) h = update-IsWellFormed (back_tab v) (back_tab-id v) s h
  Step-IsWellFormed (resumes s id e) h =
      let k = update-IsWellFormed (resume_tab id) (resume_tab-id id) s h in
      record {
        distinct = k.distinct;
        bounded = k.bounded;
        listed = is_selected-update (resume_tab id) (resume_tab-id id) id s.selected ∙ e;
      }
  Step-IsWellFormed (shows s id e) h = record {
    distinct = h.distinct;
    bounded = h.bounded;
    listed = e;
  }
  Step-IsWellFormed (closes s id) h = (close_tab_lem id id s h).1
  Step-IsWellFormed (closes_all s) h = record {
    distinct = tt;
    bounded = omega arith;
    listed = refl;
  }
  Step-IsWellFormed (collapses s) h = collapse-IsWellFormed s h
  Step-IsWellFormed (sets_multi s on) h = same-IsWellFormed s _ h refl refl
  Step-IsWellFormed (details s d) h = on_detail-IsWellFormed d s h
  Step-IsWellFormed (plans s p) h = same-IsWellFormed s _ h refl refl
  Step-IsWellFormed (refetches s) h =
      let (es, ea) = refetch_plan_same s in same-IsWellFormed s (refetch_plan s) h es ea

  -- The screen as it opens: nothing selected.
  unfoldable pub new_app : Bool → MapApp R
  new_app multi = record {
    multi_select = multi;
    focus_id = none;
    query = [];
    selected = [];
    active_id = none;
    detail = none;
    trip = none;
    plan_trip = none;
    following = false;
    detail_nonce = 0;
    isolate = false;
    stop_id = none;
    camera = [];
  }

  pub data Reach (multi : Bool) : MapApp R → Type 0 where
    start : Reach multi (new_app multi)
    next : {s t : MapApp R} → Reach multi s → Step s t → Reach multi t

  -- After any run of actions, events and answers, the tabs have different vehicles, there are at
  -- most eight, and the active vehicle is one of them, or there is no tab and none is active.
  pub Reach-IsWellFormed : {multi : Bool} {s : MapApp R} → Reach multi s → IsWellFormed s
  unfolding new_app
  Reach-IsWellFormed start = record { distinct = tt; bounded = omega arith; listed = refl }
  Reach-IsWellFormed (next r st) = Step-IsWellFormed st (Reach-IsWellFormed r)
