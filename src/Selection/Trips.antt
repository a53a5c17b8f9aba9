-- ===== src/Selection/Trips.antt =====
-- A selected vehicle that leaves the stream and comes back, and the refetching of its trip plan.
use ovlive_platform.Types.{Vehicle, VehicleTripPlan}
use ovlive_platform.Prelude.{
  ◌≡◌, true, false, none, some, arith, if◌then◌else◌, text_eq, Text, refl, ◌∙◌, text_eq_iff, ℕ, ◌*◌,
  ◌≤◌, ◌⊎◌, Option, min, text_eq_refl,
}
use ovlive_platform.Selection.Defs.{
  resume_tab, live_tab, gone_tab, Selected, same_trip, back_tab, on_plan, refetch, refetch_plan,
  MapApp, reported_trip, backoff,
}

-- A poll that was rate-limited or found the server not ready waits longer, up to a minute; any
-- other failure does not change the pace.
pub backoff_range :
    (status : Option ℕ) (base : ℕ)
    → base ≤ 60000
    → (base ≤ backoff status base)
      × (backoff status base ≤ 60000)
      × ((backoff status base ≡ base)
          ⊎ (((status ≡ some 429) ⊎ (status ≡ some 503))
              × (backoff status base ≡ min (base * 4) 60000)))
unfolding backoff
backoff_range none base h = ground arith
backoff_range (some status) base h = ground arith

module _ {R : Type 0} where
  -- The tab of a vehicle whose trip has ended is frozen: live frames change nothing of it.
  ended_frozen :
      (id : Text) (v : Vehicle R) (s : Selected R)
      → text_eq s.id id ≡ true
      → live_tab v (gone_tab id s) ≡ gone_tab id s
  unfolding live_tab gone_tab
  ended_frozen id v s e = rw e (ground arith)

  gone_tab_here :
      (id : Text) (s : Selected R)
      → text_eq s.id id ≡ true
      → gone_tab id s ≡ record s { ended = true }
  unfolding gone_tab
  gone_tab_here id s e = rw e refl

  tab_back :
      (v w : Vehicle R) (s : Selected R)
      → s.id ≡ v.id
      → back_tab v (live_tab w (gone_tab v.id s)) ≡ (
          if same_trip s.basic v
          then record { id = s.id; basic = some v; ended = false; replacement = none }
          else record { id = s.id; basic = s.basic; ended = true; replacement = some v })
  unfolding back_tab
  tab_back v w s e =
      let here = (text_eq_iff s.id v.id).1 e in
      rw (ended_frozen v.id w s here, gone_tab_here v.id s here, here) refl

  -- The tab of a vehicle that left the stream and is back on the same journey, with live frames
  -- between, goes on with the new state, not ended and with nothing on offer.
  pub back_same_trip :
      (v w : Vehicle R) (s : Selected R)
      → s.id ≡ v.id
      → same_trip s.basic v ≡ true
      → back_tab v (live_tab w (gone_tab v.id s))
        ≡ record { id = s.id; basic = some v; ended = false; replacement = none }
  back_same_trip v w s e j = tab_back v w s e ∙ rw j refl

  -- Back on another journey, or where either journey is not known, the tab keeps its old trip,
  -- ended, with the new one on offer; resuming takes that over.
  pub back_other_trip :
      (v w : Vehicle R) (s : Selected R)
      → s.id ≡ v.id
      → same_trip s.basic v ≡ false
      → (back_tab v (live_tab w (gone_tab v.id s))
          ≡ record { id = s.id; basic = s.basic; ended = true; replacement = some v })
        × (resume_tab v.id (back_tab v (live_tab w (gone_tab v.id s)))
            ≡ record { id = s.id; basic = some v; ended = false; replacement = none })
  unfolding resume_tab
  back_other_trip v w s e j =
      let b = tab_back v w s e ∙ rw j refl in (b, rw b (rw ((text_eq_iff s.id v.id).1 e) refl))

  refetch_reported :
      (s : MapApp R) (r : Text) → refetch s ≡ some r → reported_trip s.detail ≡ some r
  unfolding refetch
  refetch_reported s r e = ground arith

  refetch_plan_asks :
      (s : MapApp R) (r : Text)
      → refetch s ≡ some r
      → ((refetch_plan s).plan_trip ≡ some r) × ((refetch_plan s).detail ≡ s.detail)
  unfolding refetch_plan
  refetch_plan_asks s r e = rw (e, refetch_plan) (refl, refl)

  -- Once a trip has been asked for, no plan that arrives makes the same report ask again, even a
  -- plan for another trip: the refetching settles.
  pub refetch_settles :
      (s : MapApp R) (p : VehicleTripPlan R) (r : Text)
      → refetch s ≡ some r
      → refetch (on_plan p (refetch_plan s)) ≡ none
  unfolding refetch on_plan
  refetch_settles s p r e =
      let (asked, same) = refetch_plan_asks s r e in
      rw (refetch, same, refetch_reported s r e, refetch, asked, text_eq_refl r) (ground arith)
