-- ===== src/Home/Agreement.antt =====
-- apps/web/app/routes/home.tsx beside apps/mobile/hooks/useMapApp.ts: the same runs of the two map
-- screens.
use ovlive_platform.Prelude.{
  ◌≡◌, ◌≢◌, refl, sym, ap, ◌∙◌, inl, inr, Bool, true, false, if◌then◌else◌, List, [], ◌∷◌, arith,
  Bool-cases, Text, subst,
}
use ovlive_platform.Selection.Defs.{
  MapApp, Selected, update_tabs, live_tab, gone_tab, back_tab, resume_tab, backfill_line,
  find_index, collapse, collapse_tabs, is_selected, is_id, without, id_at, neighbour, add_tab,
  select_vehicle, open_deep_link, open_vehicle_from_departure, on_detail, refetch_plan, resume_trip,
  close_tab, on_selected_gone, on_selected_back, on_selected_live, refetch, find_on_map, select_tab,
  reported_trip,
}
use ovlive_platform.Selection.Close.{collapse-IsWellFormed}
use ovlive_platform.Selection.Tabs.{IsWellFormed}
use ovlive_platform.Selection.Actions.{Step, Step-IsWellFormed, new_app}
use ovlive_platform.Home.Actions.{
  detail_effect, plan_effect, Action, web, act, mobile, web_run, mobile_run, on_tab, select, link,
  search_hit, stop, departure, live, gone, back, resumed, tab, close, close_all, multi_select,
  detail, plan, Event, both, pan, unfollow, web_events, mobile_events,
}
use ovlive_platform.Home.Same.{web_same}
use ovlive_platform.Home.Unfollowed.{unfollowed, mobile_unfollowed}
use ovlive_platform.Home.Single.{
  IsSingle, collapse_single, collapse-IsSingle, change_same, act-IsSingle,
}
use ovlive_platform.Home.Defs as Web
use ovlive_platform.Selection.Defs as Mobile

module _ {R : Type 0} where
  on_tab-IsWellFormed :
      (id : Text) (f : MapApp R → MapApp R) (s : MapApp R)
      → IsWellFormed s
      → (is_selected id s.selected ≡ true → IsWellFormed (f s))
      → IsWellFormed (on_tab id f s)
  on_tab-IsWellFormed id f s h k = elim (Bool-cases (is_selected id s.selected)) [
    | inl there ↦ rw there (k there)
    | inr closed ↦ rw closed h
  ]

  follow-IsWellFormed :
      (b : Bool) (s : MapApp R)
      → IsWellFormed s
      → IsWellFormed (if b then s else Mobile.toggle_follow s)
  unfolding Mobile.toggle_follow
  follow-IsWellFormed true s h = h
  follow-IsWellFormed false s h = record {
    distinct = h.distinct;
    bounded = h.bounded;
    listed = h.listed;
  }

  act-IsWellFormed : (a : Action R) (s : MapApp R) → IsWellFormed s → IsWellFormed (act a s)
  unfolding act
  act-IsWellFormed (select id v) s h = Step-IsWellFormed (Step.selects s id v) h
  act-IsWellFormed (link c id only) s h = Step-IsWellFormed (Step.deep_links s (c ∷ id) only) h
  act-IsWellFormed (search_hit v) s h = Step-IsWellFormed (Step.searches s v) h
  act-IsWellFormed (stop id) s h = Step-IsWellFormed (Step.opens_stop s id) h
  act-IsWellFormed (departure d) s h = Step-IsWellFormed (Step.departs s d) h
  act-IsWellFormed (live v) s h = Step-IsWellFormed (Step.live s v) h
  act-IsWellFormed (gone id) s h = Step-IsWellFormed (Step.goes s id) h
  act-IsWellFormed (back v) s h = Step-IsWellFormed (Step.returns s v) h
  act-IsWellFormed (resumed id) s h =
      on_tab-IsWellFormed id (resume_trip id) s h (λ e. Step-IsWellFormed (Step.resumes s id e) h)
  act-IsWellFormed (tab id) s h =
      on_tab-IsWellFormed id (select_tab id) s h (λ e. Step-IsWellFormed (Step.shows s id e) h)
  act-IsWellFormed (close id) s h = Step-IsWellFormed (Step.closes s id) h
  act-IsWellFormed close_all s h = Step-IsWellFormed (Step.closes_all s) h
  act-IsWellFormed (multi_select on) s h = Step-IsWellFormed (Step.sets_multi s on) h
  act-IsWellFormed (detail d) s h = Step-IsWellFormed (Step.details s d) h
  act-IsWellFormed (plan p) s h = Step-IsWellFormed (Step.plans s p) h
  act-IsWellFormed detail_effect s h =
      unfold Mobile.begin_detail in
      record { distinct = h.distinct; bounded = h.bounded; listed = h.listed }
  act-IsWellFormed plan_effect s h =
      unfold Mobile.begin_plan in
      record { distinct = h.distinct; bounded = h.bounded; listed = h.listed }
  act-IsWellFormed Action.refetch s h = Step-IsWellFormed (Step.refetches s) h
  act-IsWellFormed Action.close_board s h =
      unfold Mobile.close_stop in
      record { distinct = h.distinct; bounded = h.bounded; listed = h.listed }
  act-IsWellFormed Action.isolate s h =
      unfold Mobile.toggle_isolate in
      record { distinct = h.distinct; bounded = h.bounded; listed = h.listed }
  act-IsWellFormed Action.follow s h = follow-IsWellFormed s.following s h
  act-IsWellFormed (Action.types q) s h =
      unfold Mobile.set_query in
      record { distinct = h.distinct; bounded = h.bounded; listed = h.listed }

  other_agrees :
      (a : Action R) (s : MapApp R)
      → ((on : Bool) → a ≢ multi_select on)
      → IsSingle s
      → web a s ≡ mobile a s
  unfolding mobile
  other_agrees a s n h = web_same a s n ∙ sym (collapse_single (act a s) (act-IsSingle a s n h))

  multi_agrees :
      (on : Bool) (s : MapApp R)
      → IsWellFormed s
      → web (multi_select on) s ≡ mobile (multi_select on) s
  unfolding web mobile act
  multi_agrees on s h = change_same on s h

  agrees : (a : Action R) (s : MapApp R) → IsWellFormed s → IsSingle s → web a s ≡ mobile a s
  agrees (multi_select on) s h i = multi_agrees on s h
  agrees a s h i = other_agrees a s (λ on e. cc e) i

  runs_from :
      (todo : List (Action R)) (s : MapApp R)
      → IsWellFormed s
      → IsSingle s
      → web_run todo s ≡ mobile_run todo s
  unfolding web_run mobile_run
  runs_from [] s h i = refl
  runs_from (a ∷ todo) s h i =
      let k = act-IsWellFormed a s h in
      let ends : IsWellFormed (mobile a s) = unfold mobile in collapse-IsWellFormed (act a s) k in
      let one : IsSingle (mobile a s) = unfold mobile in collapse-IsSingle (act a s) k in
      ap (web_run todo) (agrees a s h i) ∙ runs_from todo (mobile a s) ends one

  -- What is left of both screens' agreement where the following differs.
  record Alike (w m : MapApp R) : Type 0 where
    formed : IsWellFormed w
    single : IsSingle w
    same : unfollowed w ≡ unfollowed m

  both-Alike : (a : Action R) (w m : MapApp R) → Alike w m → Alike (web a w) (mobile a m)
  both-Alike a w m h =
      let k = act-IsWellFormed a w h.formed in
      let e = agrees a w h.formed h.single in
      record {
        formed = subst IsWellFormed (sym e) (unfold mobile in collapse-IsWellFormed (act a w) k);
        single = subst IsSingle (sym e) (unfold mobile in collapse-IsSingle (act a w) k);
        same = ap unfollowed e ∙ mobile_unfollowed a w m h.same;
      }

  pan-Alike : (w m : MapApp R) → Alike w m → Alike (Web.detach w) m
  unfolding Web.detach
  pan-Alike w m h = record {
    formed = record {
      distinct = h.formed.distinct;
      bounded = h.formed.bounded;
      listed = h.formed.listed;
    };
    single = h.single;
    same = h.same;
  }

  unfollow_same :
      (b : Bool) (m : MapApp R)
      → unfollowed (if b then Mobile.toggle_follow m else m) ≡ unfollowed m
  unfolding Mobile.toggle_follow
  unfollow_same true m = refl
  unfollow_same false m = refl

  unfollow-Alike :
      (w m : MapApp R) → Alike w m → Alike w (if m.following then Mobile.toggle_follow m else m)
  unfollow-Alike w m h = record {
    formed = h.formed;
    single = h.single;
    same = h.same ∙ sym (unfollow_same m.following m);
  }

  events-Alike :
      (all : List (Event R)) (w m : MapApp R)
      → Alike w m
      → unfollowed (web_events all w) ≡ unfollowed (mobile_events all m)
  unfolding web_events mobile_events
  events-Alike [] w m h = h.same
  events-Alike (both a ∷ all) w m h = events-Alike all (web a w) (mobile a m) (both-Alike a w m h)
  events-Alike (pan ∷ all) w m h = events-Alike all (Web.detach w) m (pan-Alike w m h)
  events-Alike (unfollow ∷ all) w m h = events-Alike all w _ (unfollow-Alike w m h)

  -- From an empty map screen, the web screen and the mobile one come to the same state (the tabs and
  -- their contents, the active one, what is followed or isolated, the board, the plan, the query and
  -- the moves of the camera), after the same actions of the user, the stream and the server in any
  -- order: those of `Action`, where the follow button is used only while nothing is followed. With
  -- what the two take differently among them, a move of the map by the user, which stops the
  -- following on the web only, and the follow button of a followed vehicle, which does so on mobile
  -- only, they come to the same state but for what is followed.
  pub runs_agree :
      (multi : Bool) (todo : List (Action R)) (all : List (Event R))
      → (web_run todo (new_app multi) ≡ mobile_run todo (new_app multi))
        × (unfollowed (web_events all (new_app multi))
            ≡ unfollowed (mobile_events all (new_app multi)))
  unfolding new_app
  runs_agree multi todo all =
      let formed : IsWellFormed {R = R} (new_app multi) = record {
        distinct = tt;
        bounded = omega arith;
        listed = refl;
      } in
      let one : IsSingle {R = R} (new_app multi) = (λ m. omega arith) in
      (
        runs_from todo (new_app multi) formed one,
        events-Alike all (new_app multi) (new_app multi)
            (record { formed = formed; single = one; same = refl }),
      )
