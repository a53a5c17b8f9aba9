-- ===== src/WebMap/Stops.antt =====
-- apps/web/app/components/MapView.tsx: `loadStops` and `stopFeature`. The zoom and the boxes are
-- floating-point numbers; a request is known by its number, and its answer is an event.
use ovlive_platform.Prelude.{
  ℕ, ◌+◌, ◌<◌, ◌≡◌, Bool, true, false, ◌||◌, not, Option, none, some, List, ◌∷◌, ◌++◌, map, ◌==◌,
  if◌then◌else◌, length, is_empty, Text, refl, arith, ap, ◌∙◌,
}
use ovlive_platform.Types.{BBox, StopSummary}
use ovlive_platform.Numbers.{Numbers, NumberLaws}
use ovlive_platform.Geo.{pad_bbox, IsPaddable, covers, covers-pad_bbox}
use ovlive_platform.Trip.Defs.{short_name}

pub record StopPoint (R : Type 0) : Type 0 where
  pub lon : R
  pub lat : R
  pub stop_id : Text
  pub name : Text

pub record StopsResponse (R : Type 0) : Type 0 where
  pub truncated : Bool
  pub stops : List (StopSummary R)

pub record StopLayer (R : Type 0) : Type 0 where
  pub show_stops : Bool
  pub points : List (StopPoint R)
  pub box : Option (BBox R)
  -- The request in flight that is not aborted, with its box; the requests sent, newest first.
  pub request : Option (ℕ × BBox R)
  pub sent : List (ℕ × BBox R)

-- `${short} ${s.platform_code}`; an empty code is falsy.
unfoldable pub stop_name : Text → Option Text → Text
stop_name name none = short_name name
stop_name name (some code) =
    if is_empty code then short_name name else short_name name ++ b' ' ∷ code

unfoldable pub stop_feature : {R : Type 0} → StopSummary R → StopPoint R
stop_feature s = record {
  lon = s.lon;
  lat = s.lat;
  stop_id = s.stop_id;
  name = stop_name s.name s.platform_code;
}

module _ (num : Numbers) where
  open num use {R, literal, div, less}

  abbrev pub stops_pad : R
  stops_pad = div (literal 35) (literal 100)

  abbrev pub stops_zoom : R
  stops_zoom = literal 14

  -- Up to the request: the one before is aborted.
  unfoldable pub load_stops : R → BBox R → StopLayer R → StopLayer R
  load_stops zoom view s =
      if not s.show_stops || less zoom stops_zoom
      then s
      else if covers num s.box view
      then s
      else let box = pad_bbox num view stops_pad in
        let n = length s.sent in record s { request = some (n, box); sent = (n, box) ∷ s.sent }

module _ {R : Type 0} where
  -- The answer to request `n`; an aborted request has none.
  unfoldable pub on_stops : ℕ → StopsResponse R → StopLayer R → StopLayer R
  on_stops n res s = elim s.request [
    | none ↦ s
    | some (m, box) ↦
        if m == n
        then record s {
          points = map stop_feature res.stops;
          box = if res.truncated then none else some box;
          request = none;
        }
        else s
  ]

  -- A request has failed: what is drawn is kept.
  unfoldable pub on_stops_failed : ℕ → StopLayer R → StopLayer R
  on_stops_failed n s = elim s.request [
    | none ↦ s
    | some (m, box) ↦ if m == n then record s { request = none } else s
  ]

length_same : {A : Type 0} (xs : List A) → (length xs == length xs) ≡ true
length_same xs = ground arith

module _ (num : Numbers) where
  open num use {R, less}

  -- Asking for a view that is not covered, at a zoom at which stops are shown.
  abbrev asked_for : BBox R → StopLayer R → StopLayer R
  asked_for view s = record s {
    request = some (length s.sent, pad_bbox num view (stops_pad num));
    sent = (length s.sent, pad_bbox num view (stops_pad num)) ∷ s.sent;
  }

  load_stops-asks :
      (zoom : R) (view : BBox R) (s : StopLayer R)
      → (not s.show_stops || less zoom (stops_zoom num)) ≡ false
      → covers num s.box view ≡ false
      → load_stops num zoom view s ≡ asked_for view s
  unfolding load_stops
  load_stops-asks zoom view s c out = rw (c, out) refl

  load_stops-covered :
      (zoom : R) (view : BBox R) (s : StopLayer R)
      → (not s.show_stops || less zoom (stops_zoom num)) ≡ false
      → covers num s.box view ≡ true
      → load_stops num zoom view s ≡ s
  unfolding load_stops
  load_stops-covered zoom view s c within = rw (c, within) refl

  -- The layer with the answer to its request.
  abbrev answered_by : StopsResponse R → BBox R → StopLayer R → StopLayer R
  answered_by res view s = record (asked_for view s) {
    points = map stop_feature res.stops;
    box = if res.truncated then none else some (pad_bbox num view (stops_pad num));
    request = none;
  }

  on_stops-answered :
      (res : StopsResponse R) (view : BBox R) (s : StopLayer R)
      → on_stops (length s.sent) res (asked_for view s) ≡ answered_by res view s
  unfolding on_stops
  on_stops-answered res view s = rw (length_same s.sent) refl

  on_stops_failed-asked :
      (view : BBox R) (s : StopLayer R)
      → on_stops_failed (length s.sent) (asked_for view s)
        ≡ record (asked_for view s) { request = none }
  unfolding on_stops_failed
  on_stops_failed-asked view s = rw (length_same s.sent) refl

  on_stops-stale :
      (old : ℕ) (res : StopsResponse R) (view : BBox R) (s : StopLayer R)
      → old < length s.sent
      → on_stops old res (asked_for view s) ≡ asked_for view s
  unfolding on_stops
  on_stops-stale old res view s late =
      let e : (length s.sent == old) ≡ false = ground arith in rw e refl

  load_again :
      (zoom : R) (view : BBox R) (s : StopLayer R) (res : StopsResponse R) (cut : Bool)
      → res.truncated ≡ cut
      → (not s.show_stops || less zoom (stops_zoom num)) ≡ false
      → covers num (some (pad_bbox num view (stops_pad num))) view ≡ true
      → length (load_stops num zoom view (answered_by res view s)).sent
        ≡ (if res.truncated then length s.sent + 2 else length s.sent + 1)
  unfolding covers
  load_again zoom view s res true cut c again =
      ap (λ l. length l.sent) (load_stops-asks zoom view (answered_by res view s) c (rw cut refl))
      ∙ rw cut (omega arith)
  load_again zoom view s res false whole c again =
      ap (λ l. length l.sent)
        (load_stops-covered zoom view (answered_by res view s) c (rw whole again))
      ∙ rw whole (omega arith)

  -- A view is asked for once: after the whole answer, the same view asks for nothing, and after a
  -- truncated or a failed one it is asked for again; an answer that a newer request has overtaken
  -- changes nothing. This is for a zoom at which stops are shown, a view that is not covered yet,
  -- and boxes whose padding is finite.
  pub view_asked_once :
      (laws : NumberLaws num) (zoom : R) (view : BBox R) (s : StopLayer R) (res : StopsResponse R)
      (old : ℕ)
      → IsPaddable num view (stops_pad num)
      → s.show_stops ≡ true
      → less zoom (stops_zoom num) ≡ false
      → covers num s.box view ≡ false
      → old < length s.sent
      → let asked = load_stops num zoom view s in
        let answered = on_stops (length s.sent) res asked in
        (length (load_stops num zoom view answered).sent
          ≡ (if res.truncated then length s.sent + 2 else length s.sent + 1))
        × (answered.points ≡ map stop_feature res.stops)
        × (length (load_stops num zoom view (on_stops_failed (length s.sent) asked)).sent
            ≡ length s.sent + 2)
        × (on_stops old res asked ≡ asked)
  unfolding load_stops on_stops on_stops_failed
  view_asked_once laws zoom view s res old p shown near out late =
      let c : (not s.show_stops || less zoom (stops_zoom num)) ≡ false = ground arith in
      let again = covers-pad_bbox num laws view (stops_pad num) p in
      rw
        (
          load_stops-asks zoom view s c out,
          on_stops-answered res view s,
          on_stops_failed-asked view s,
        )
        (
          load_again zoom view s res res.truncated refl c again,
          refl,
          ap (λ l. length l.sent)
                (load_stops-asks zoom view (record (asked_for view s) { request = none }) c out)
              ∙ omega arith,
          on_stops-stale old res view s late,
        )
