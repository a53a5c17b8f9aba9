-- ===== src/WebMap/Follow.antt =====
-- apps/web/app/components/MapView.tsx and apps/web/app/routes/home.tsx: the camera after a gesture of
-- the user.
use ovlive_platform.Numbers.{Numbers}
use ovlive_platform.Types.{Vehicle, VehicleDetail, VehicleTripPlan}
use ovlive_platform.Selection.Defs.{MapApp}
use ovlive_platform.Home.Defs.{
  on_selected_live, on_selected_gone, on_selected_back, on_detail, on_plan, refetch_plan,
}
use ovlive_platform.WebMap.Layers.{vehicle_ref, same_id}
use ovlive_platform.WebMap.Camera.{
  Layout, WebScreen, active_vehicle, move_start, panel_aware_offset, ease_to_point, reattach_web,
  act, tick, press_follow, same_bool, center_known,
}
use ovlive_platform.Prelude.{
  ◌≡◌, refl, subst, sym, ◌∙◌, ap, Bool, true, false, ◌&&◌, Option, none, some, List, ◌∷◌,
  if◌then◌else◌, Text, arith,
}

-- What happens to the screen without the user: events of the stream and answers of the server.
pub data Passive (R : Type 0) : Type 0 where
  gone : Text → Passive R
  back : Vehicle R → Passive R
  detail : VehicleDetail R → Passive R
  plan : VehicleTripPlan R → Passive R
  refetches : Passive R

unfoldable pub passive : {R : Type 0} → Passive R → MapApp R → MapApp R
passive (gone id) = on_selected_gone id
passive (back v) = on_selected_back v
passive (detail d) = on_detail d
passive (plan p) = on_plan p
passive refetches = refetch_plan

module _ {R : Type 0} where
  -- No move of the camera that a link has asked for is pending, nothing is followed, and the screen
  -- has asked for nothing.
  record IsFree (a b : MapApp R) : Type 0 where
    following : b.following ≡ false
    focus : b.focus_id ≡ none
    camera : b.camera ≡ a.camera

  passive-IsFree : (e : Passive R) (a b : MapApp R) → IsFree a b → IsFree a (passive e b)
  unfolding passive on_selected_gone on_selected_back on_detail on_plan refetch_plan
  passive-IsFree (gone id) a b h = record {
    following = ground (arith, h.following);
    focus = ground (arith, h.focus);
    camera = ground (arith, h.camera);
  }
  passive-IsFree (back v) a b h = record {
    following = h.following;
    focus = h.focus;
    camera = h.camera;
  }
  passive-IsFree (detail d) a b h = record {
    following = h.following;
    focus = ground (arith, h.focus);
    camera = ground (arith, h.focus, h.camera);
  }
  passive-IsFree (plan p) a b h = record {
    following = h.following;
    focus = h.focus;
    camera = h.camera;
  }
  passive-IsFree refetches a b h = record {
    following = ground (arith, h.following);
    focus = ground (arith, h.focus);
    camera = ground (arith, h.camera);
  }

  -- The screen has the app `a` or one that came of it, and the camera has been asked for nothing.
  record IsLeft (s t : WebScreen R) : Type 0 where
    app : IsFree s.app t.app
    eased : t.eased ≡ s.eased

if-second : {A : Type 0} (b : Bool) (x y : A) → b ≡ false → (if b then x else y) ≡ y
if-second true x y e = absurd (ground arith)
if-second false x y e = refl

module _ (num : Numbers) where
  open num use {R}

  -- What happens without the user: animation frames with whatever vehicles, events and answers, and
  -- the starts of moves of the camera that the code asked for.
  pub data Background (s : WebScreen R) : WebScreen R → Type 0 where
    still : Background s s
    ticks :
        {t : WebScreen R} (layout : Layout R) (vehicles : List (Text × Vehicle R))
        → Background s t
        → Background s (tick num layout vehicles t)
    happens :
        {t : WebScreen R} (layout : Layout R) (e : Passive R)
        → Background s t
        → Background s (act num layout (passive e) t)
    moves : {t : WebScreen R} → Background s t → Background s (move_start false t)

  tick-IsLeft :
      (layout : Layout R) (vehicles : List (Text × Vehicle R)) (s t : WebScreen R)
      → IsLeft s t
      → IsLeft s (tick num layout vehicles t)
  unfolding tick on_selected_live
  tick-IsLeft layout vehicles s t h = record {
    app = record {
      following = ground (arith, h.app.following);
      focus = ground (arith, h.app.focus);
      camera = ground (arith, h.app.camera);
    };
    eased = ground (arith, h.eased, h.app.following);
  }

  act_quietly :
      (layout : Layout R) (f : MapApp R → MapApp R) (t : WebScreen R)
      → (f t.app).following ≡ false
      → act num layout f t ≡ record t { app = f t.app }
  unfolding act reattach_web
  act_quietly layout f t e = ground (arith, e)

  act-IsLeft :
      (layout : Layout R) (e : Passive R) (s t : WebScreen R)
      → IsLeft s t
      → IsLeft s (act num layout (passive e) t)
  act-IsLeft layout e s t h =
      let k = passive-IsFree e s.app t.app h.app in
      subst (IsLeft s) (sym (act_quietly layout (passive e) t k.following))
        (record { app = k; eased = h.eased })

  move-IsLeft : (s t : WebScreen R) → IsLeft s t → IsLeft s (move_start false t)
  unfolding move_start
  move-IsLeft s t h = record { app = h.app; eased = h.eased }

  Background-IsLeft :
      {s t : WebScreen R}
      → Background s t
      → s.app.following ≡ false
      → s.app.focus_id ≡ none
      → IsLeft s t
  Background-IsLeft still e f = record {
    app = record { following = e; focus = f; camera = refl };
    eased = refl;
  }
  Background-IsLeft {s} (ticks {t} layout vehicles b) e f =
      tick-IsLeft layout vehicles s t (Background-IsLeft b e f)
  Background-IsLeft {s} (happens {t} layout p b) e f =
      act-IsLeft layout p s t (Background-IsLeft b e f)
  Background-IsLeft {s} (moves {t} b) e f = move-IsLeft s t (Background-IsLeft b e f)

  moved :
      (s : WebScreen R)
      → ((move_start true s).app.following ≡ false)
        × ((move_start true s).app.focus_id ≡ s.app.focus_id)
        × ((move_start true s).app.camera ≡ s.app.camera)
        × ((move_start true s).eased ≡ s.eased)
  unfolding move_start
  moved s = ground arith

  centred :
      (o : Option (Vehicle R)) (layout : Layout R) (v : Vehicle R) (t : WebScreen R)
      → o ≡ some v
      → center_known num layout o 500 t ≡ ease_to_point num layout v.lon v.lat 500 t
  centred none layout v t e = absurd (ground arith)
  centred (some u) layout v t e = ap (λ o. center_known num layout o 500 t) e

  -- The button starts to follow, and the effect asks for one move.
  pressed :
      (t : WebScreen R) (layout : Layout R) (v : Vehicle R)
      → t.app.following ≡ false
      → active_vehicle t ≡ some v
      → press_follow num layout t
        ≡ ease_to_point num layout v.lon v.lat 500
            (record t { app = record t.app { following = true } })
  unfolding press_follow act reattach_web active_vehicle
  pressed t layout v e known =
      let t' = record t { app = record t.app { following = true } } in
      if-second (same_bool true t.app.following && same_id t.app.active_id t.app.active_id) t' _
        (ground (arith, e))
      ∙ centred (vehicle_ref t.app.active_id t.vehicles) layout v t' known

  -- Once the user has moved the map of the web, and no link waits to move it, the camera is asked for
  -- nothing, by the map or by the screen, whatever frames, events of the stream and answers of the
  -- server come, and nothing is followed; until the button of the panel is pressed: then the camera
  -- is asked once, to go to where the active vehicle is by then.
  pub camera_left_to_user :
      (s : WebScreen R) {t : WebScreen R} (layout : Layout R) (v : Vehicle R)
      → s.app.focus_id ≡ none
      → Background (move_start true s) t
      → active_vehicle t ≡ some v
      → (t.eased ≡ s.eased)
        × (t.app.camera ≡ s.app.camera)
        × (t.app.following ≡ false)
        × ((press_follow num layout t).app.following ≡ true)
        × ((press_follow num layout t).eased
            ≡ record {
              lon = v.lon;
              lat = v.lat;
              offset = panel_aware_offset num layout;
              duration = 500;
            }
              ∷ s.eased)
  unfolding ease_to_point
  camera_left_to_user s {t} layout v f b known =
      let (mf, mo, mc, me) = moved s in
      let h = Background-IsLeft b mf (mo ∙ f) in
      let k = pressed t layout v h.app.following known in
      (
        h.eased ∙ me,
        h.app.camera ∙ mc,
        h.app.following,
        ap (λ (u : WebScreen R). u.app.following) k,
        ap (λ (u : WebScreen R). u.eased) k
            ∙ ap
                (λ es.
                  record {
                    lon = v.lon;
                    lat = v.lat;
                    offset = panel_aware_offset num layout;
                    duration = 500;
                  }
                  ∷ es)
                (h.eased ∙ me),
      )
