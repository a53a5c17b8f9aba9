-- ===== src/Home/Single.antt =====
-- apps/web/app/routes/home.tsx beside apps/mobile/hooks/useMapApp.ts: the number of
-- tabs without the preference for several.
use ovlive_platform.Types.{Vehicle, StopDeparture, VehicleDetail}
use ovlive_platform.Prelude.{
  suc, ◌≤◌, ◌≡◌, ◌≢◌, refl, ap, inl, inr, Bool, true, false, not, Option, none, some, List, [], ◌∷◌,
  arith, Bool-cases, Option-cases, if◌then◌else◌, length, is_empty, Text, ltb, keep_if,
  length-keep_if-le, text_eq, text_eq_iff,
}
use ovlive_platform.Selection.Defs.{
  MapApp, Selected, update_tabs, live_tab, gone_tab, back_tab, resume_tab, backfill_line,
  find_index, collapse, collapse_tabs, is_selected, is_id, without, id_at, neighbour, add_tab,
  select_vehicle, open_deep_link, open_vehicle_from_departure, on_detail, refetch_plan, resume_trip,
  close_tab, on_selected_gone, on_selected_back, on_selected_live, refetch, find_on_map, select_tab,
  reported_trip,
}
use ovlive_platform.Selection.Tabs.{IsWellFormed, Distinct, active_listed}
use ovlive_platform.Home.Tabs.{only_active}
use ovlive_platform.Home.Actions.{
  detail_effect, plan_effect, Action, act, on_tab, select, link, search_hit, stop, departure, live,
  gone, back, resumed, tab, close, close_all, multi_select, detail, plan,
}
use ovlive_platform.Home.Defs as Web
use ovlive_platform.Selection.Defs as Mobile

module _ {R : Type 0} where
  -- Without the preference for several there is one tab at most.
  abbrev pub IsSingle : MapApp R → Type 0
  IsSingle s = s.multi_select ≡ false → length s.selected ≤ 1

  collapse_tabs_single :
      (multi : Bool) (a : Option Text) (tabs : List (Selected R))
      → (multi ≡ false → length tabs ≤ 1)
      → collapse_tabs multi a tabs ≡ tabs
  unfolding collapse_tabs
  collapse_tabs_single true a tabs h = refl
  collapse_tabs_single false a tabs h = ground (arith, h refl)

  pub collapse_single : (s : MapApp R) → IsSingle s → collapse s ≡ s
  unfolding collapse
  collapse_single s h = rw (collapse_tabs_single s.multi_select s.active_id s.selected h) refl

  only_none :
      (a : Text) (tabs : List (Selected R))
      → is_selected a tabs ≡ false
      → keep_if (λ t. is_id (some a) t.id) tabs ≡ []
  only_none a [] h = refl
  only_none a (t ∷ ts) h = ground (arith, only_none a ts, text_eq_iff a t.id, text_eq_iff t.id a)

  only_one :
      (a : Option Text) (tabs : List (Selected R))
      → Distinct tabs
      → length (keep_if (λ t. is_id a t.id) tabs) ≤ 1
  only_one a [] d = omega arith
  only_one none (t ∷ ts) (p, d) = only_one none ts d
  only_one (some a) (t ∷ ts) (p, d) = elim (Bool-cases (text_eq a t.id)) [
    | inl same ↦
        let e : a ≡ t.id = (text_eq_iff a t.id).0 same in
        rw same (omega (arith, ap length (only_none a ts (rw e p))))
    | inr other ↦ rw other (only_one (some a) ts d)
  ]

  pub collapse-IsSingle : (s : MapApp R) → IsWellFormed s → IsSingle (collapse s)
  unfolding collapse collapse_tabs
  collapse-IsSingle s h m = rw m (ground (arith, only_one s.active_id s.selected h.distinct))

  only_active_listed :
      (a : Option Text) (tabs : List (Selected R))
      → active_listed a tabs ≡ true
      → length tabs ≤ 1
      → only_active a tabs ≡ tabs
  unfolding only_active
  only_active_listed a [] h l = refl
  only_active_listed none (t ∷ ts) h l = cc
  only_active_listed (some a) (t ∷ []) h l = ground (arith, text_eq_iff a t.id, text_eq_iff t.id a)
  only_active_listed (some a) (t ∷ u ∷ ts) h l = absurd (omega arith)

  pub change_same :
      (on : Bool) (s : MapApp R)
      → IsWellFormed s
      → Web.change_multi_select on s ≡ collapse (record s { multi_select = on })
  unfolding Web.change_multi_select collapse collapse_tabs
  change_same true s h = refl
  change_same false s h = elim (Bool-cases (ltb 1 (length s.selected))) [
    | inl many ↦ rw many (
        let e : only_active s.active_id s.selected
            ≡ keep_if (λ t. is_id s.active_id t.id) s.selected =
          unfold only_active in refl in
        rw e refl)
    | inr few ↦ rw (few, only_active_listed s.active_id s.selected h.listed (ground arith)) refl
  ]

  length-update_tabs :
      (f : Selected R → Selected R) (tabs : List (Selected R))
      → length (update_tabs f tabs) ≡ length tabs
  length-update_tabs f [] = refl
  length-update_tabs f (s ∷ ss) = ap suc (length-update_tabs f ss)

  select-IsSingle :
      (id : Text) (v : Option (Vehicle R)) (s : MapApp R) → IsSingle (select_vehicle id v s)
  unfolding select_vehicle add_tab
  select-IsSingle id v s m = rw m (omega arith)

  link-IsSingle : (id : Text) (only : Bool) (s : MapApp R) → IsSingle (open_deep_link id only s)
  unfolding open_deep_link
  link-IsSingle id true s = select-IsSingle id none (record s { focus_id = some id })
  link-IsSingle id false s = select-IsSingle id none (record s { focus_id = some id })

  departure-IsSingle :
      (d : StopDeparture R) (s : MapApp R) → IsSingle s → IsSingle (open_vehicle_from_departure d s)
  unfolding open_vehicle_from_departure
  departure-IsSingle d s h = go d.vehicle_id
    where
      go :
          (o : Option Text)
          → IsSingle (elim o [
            | none ↦ s
            | some id ↦
                if is_empty id
                then s
                else select_vehicle id none (find_on_map d.vehicle_lat d.vehicle_lon id s)
          ])
      go none = h
      go (some []) = h
      go (some (c ∷ id)) =
          select-IsSingle (c ∷ id) none (find_on_map d.vehicle_lat d.vehicle_lon (c ∷ id) s)

  detail-IsSingle : (d : VehicleDetail R) (s : MapApp R) → IsSingle s → IsSingle (on_detail d s)
  unfolding on_detail
  detail-IsSingle d s h m =
      let line : Text = elim d.vehicle.line_public_number [ none ↦ [] | some l ↦ l ] in
      let same = length-update_tabs (backfill_line d.vehicle.id line) s.selected in
      elim (Bool-cases (is_empty line)) [
        | inl blank ↦ rw blank (h m)
        | inr named ↦ rw named (omega (arith, h m, same))
      ]

  refetch-IsSingle : (s : MapApp R) → IsSingle s → IsSingle (refetch_plan s)
  unfolding refetch_plan
  refetch-IsSingle s h = elim (Option-cases (refetch s)) [
    | inl settled ↦ rw (settled, refetch_plan) h
    | inr (r, asks) ↦ rw (asks, refetch_plan) h
  ]

  on_tab-IsSingle :
      (id : Text) (f : MapApp R → MapApp R) (s : MapApp R)
      → IsSingle s
      → IsSingle (f s)
      → IsSingle (on_tab id f s)
  on_tab-IsSingle id f s h k = elim (Bool-cases (is_selected id s.selected)) [
    | inl there ↦ rw there k
    | inr closed ↦ rw closed h
  ]

  close-IsSingle : (id : Text) (s : MapApp R) → IsSingle s → IsSingle (close_tab id s)
  unfolding close_tab
  close-IsSingle id s h = elim (Bool-cases (is_id s.active_id id)) [
    | inl active ↦
        rw active
          (λ m. omega (arith, h m, length-keep_if-le (λ t. not (text_eq t.id id)) s.selected))
    | inr other ↦
        rw other
          (λ m. omega (arith, h m, length-keep_if-le (λ t. not (text_eq t.id id)) s.selected))
  ]

  pub act-IsSingle :
      (a : Action R) (s : MapApp R)
      → ((on : Bool) → a ≢ multi_select on)
      → IsSingle s
      → IsSingle (act a s)
  unfolding act Mobile.open_vehicle_from_search Mobile.open_stop on_selected_live on_selected_gone
      on_selected_back Mobile.begin_detail Mobile.begin_plan select_tab Mobile.close_all
      Mobile.on_plan resume_trip Mobile.close_stop Mobile.toggle_isolate Mobile.toggle_follow
      Mobile.set_query
  act-IsSingle (select id v) s n h = select-IsSingle id v s
  act-IsSingle (link c id only) s n h = link-IsSingle (c ∷ id) only s
  act-IsSingle (search_hit v) s n h =
      select-IsSingle v.id none (record s { camera = Mobile.fly_to v.lon v.lat ∷ s.camera })
  act-IsSingle (stop id) s n h = h
  act-IsSingle (departure d) s n h = departure-IsSingle d s h
  act-IsSingle (live v) s n h = λ m. omega (arith, h m, length-update_tabs (live_tab v) s.selected)
  act-IsSingle (gone id) s n h =
      λ m. omega (arith, h m, length-update_tabs (gone_tab id) s.selected)
  act-IsSingle (back v) s n h = λ m. omega (arith, h m, length-update_tabs (back_tab v) s.selected)
  act-IsSingle (resumed id) s n h =
      on_tab-IsSingle id (resume_trip id) s h
        (λ m. omega (arith, h m, length-update_tabs (resume_tab id) s.selected))
  act-IsSingle (tab id) s n h = on_tab-IsSingle id (select_tab id) s h h
  act-IsSingle (close id) s n h = close-IsSingle id s h
  act-IsSingle close_all s n h = λ m. omega arith
  act-IsSingle (multi_select on) s n h = absurd (n on refl)
  act-IsSingle (detail d) s n h = detail-IsSingle d s h
  act-IsSingle (plan p) s n h = h
  act-IsSingle detail_effect s n h = h
  act-IsSingle plan_effect s n h = h
  act-IsSingle Action.refetch s n h = refetch-IsSingle s h
  act-IsSingle Action.close_board s n h = h
  act-IsSingle Action.isolate s n h = h
  act-IsSingle Action.follow s n h = elim (Bool-cases s.following) [
    | inl on ↦ rw on h
    | inr off ↦ rw off h
  ]
  act-IsSingle (Action.types q) s n h = h
