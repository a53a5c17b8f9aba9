-- ===== src/Sheet/Defs.antt =====
-- apps/web/app/components/Sheet.tsx: the snap heights and the handlers of the gesture. Coordinates
-- and heights are floating-point numbers that are not NaN; the height of the window stays the same
-- during a run. Between two events the component has rendered. The calls of `onClose` are counted.
use ovlive_platform.Prelude.{
  ℕ, suc, ◌+◌, ◌-◌, Bool, true, false, ◌&&◌, ◌||◌, not, Option, none, some, List, [], ◌∷◌, min,
  if◌then◌else◌, leb, ◌==◌, get_elem?, length, drop,
}
use ovlive_platform.Numbers.{Numbers}

-- Per cent of the height of the window.
abbrev pub snaps : List ℕ
snaps = 32 ∷ 56 ∷ 92 ∷ []

abbrev pub default_snap : ℕ
default_snap = 1

abbrev pub last_snap : ℕ
last_snap = length snaps - 1

-- `SNAPS[i]`, for an index within.
abbrev pub snap_at : ℕ → ℕ
snap_at i = elim (get_elem? snaps i) [ none ↦ 0 | some p ↦ p ]

-- `clampSnap`; `snap - 1` at the smallest is clamped by the subtraction already.
unfoldable pub clamp_snap : ℕ → ℕ
clamp_snap i = min i last_snap

-- What `e.target.closest` finds: the scrolling body, the grip, a button, link or input.
pub record Target : Type 0 where
  pub in_body : Bool
  pub on_grip : Bool
  pub on_control : Bool

pub record Drag (R : Type 0) : Type 0 where
  pub x : R
  pub y : R
  pub h : R
  pub active : Bool
  pub scroller : Bool

pub record Sheet (R : Type 0) : Type 0 where
  pub mobile : Bool
  pub snap : ℕ
  pub drag_h : Option R
  pub drag : Option (Drag R)
  pub suppress_click : Bool
  pub closes : ℕ

unfoldable pub new_sheet : {R : Type 0} → Bool → Sheet R
new_sheet mobile = record {
  mobile = mobile;
  snap = default_snap;
  drag_h = none;
  drag = none;
  suppress_click = false;
  closes = 0;
}

module _ {R : Type 0} where
  -- The media query has changed: the effects on `mobile`.
  unfoldable pub set_mobile : Bool → Sheet R → Sheet R
  set_mobile mobile s =
      if mobile
      then record s { mobile = true }
      else record s { mobile = false; snap = default_snap; drag_h = none; drag = none }

  unfoldable pub pointer_down : Target → R → R → R → Sheet R → Sheet R
  pointer_down t x y height s =
      let s' = record s { suppress_click = false } in
      if not s.mobile
      then s'
      else if not t.in_body && not t.on_grip && t.on_control
      then record s' { drag = none }
      else record s' {
        drag = some (record { x = x; y = y; h = height; active = false; scroller = t.in_body });
      }

  -- `drag.current?.active`.
  abbrev pub is_dragging : Option (Drag R) → Bool
  is_dragging none = false
  is_dragging (some d) = d.active

  unfoldable pub pointer_cancel : Sheet R → Sheet R
  pointer_cancel s = record s {
    suppress_click = is_dragging s.drag || s.suppress_click;
    drag = none;
    drag_h = none;
  }

  -- A click on the grip.
  unfoldable pub cycle : Sheet R → Sheet R
  cycle s =
      if s.suppress_click
      then record s { suppress_click = false }
      else record s { snap = if leb last_snap s.snap then 0 else s.snap + 1 }

module _ (num : Numbers) where
  open num use {R, literal, sub, mul, div, add, less, at_most}

  abbrev pub abs : R → R
  abs a = if less a (literal 0) then sub (literal 0) a else a

  -- `Math.min` and `Math.max`.
  abbrev pub least : R → R → R
  least a b = if less b a then b else a

  abbrev pub greatest : R → R → R
  greatest a b = if less a b then b else a

  abbrev pub drag_slop : R
  drag_slop = literal 8

  abbrev pub flick_px : R
  flick_px = literal 55

  abbrev pub dismiss_at : R
  dismiss_at = div (literal 62) (literal 100)

  -- The distance of a snap from a height, in per cent.
  abbrev pub off_snap : R → ℕ → R
  off_snap percent p = abs (sub (literal p) percent)

  -- The rounds of the loop from index `i`, with the best index so far and its height.
  unfoldable pub nearest_from : R → ℕ → ℕ → ℕ → List ℕ → ℕ
  nearest_from percent best p i [] = best
  nearest_from percent best p i (q ∷ qs) =
      let nearer = less (off_snap percent q) (off_snap percent p) in
      nearest_from percent (if nearer then i else best) (if nearer then q else p) (suc i) qs

  unfoldable pub nearest_snap : R → ℕ
  unfolding nearest_from
  nearest_snap percent = nearest_from percent 0 (snap_at 0) 1 (drop 1 snaps)

  -- The early returns: in the body, below the slop, or more across than down.
  abbrev pub is_no_drag : Drag R → R → R → Bool
  is_no_drag d dx dy = d.scroller || less (abs dy) drag_slop || at_most (abs dy) (abs dx)

  module _ (inner_height : R) where
    abbrev pub snap_px : ℕ → R
    snap_px i = mul (div (literal (snap_at i)) (literal 100)) inner_height

    abbrev pub dismiss_px : R
    dismiss_px = mul (snap_px 0) dismiss_at

    -- `Math.min(Math.max(d.h - dy, dismissPx()), snapPx(SNAPS.length - 1))`.
    unfoldable pub clamp_height : R → R
    clamp_height h = least (greatest h dismiss_px) (snap_px last_snap)

    unfoldable pub drag_to : Drag R → R → Sheet R → Sheet R
    unfolding clamp_height
    drag_to d dy s = record s {
      drag = some (record d { active = true });
      drag_h = some (clamp_height (sub d.h dy));
    }

    unfoldable pub pointer_move_from : Option (Drag R) → R → R → Sheet R → Sheet R
    unfolding drag_to
    pointer_move_from none x y s = s
    pointer_move_from (some d) x y s =
        if not d.active && is_no_drag d (sub x d.x) (sub y d.y) then s else drag_to d (sub y d.y) s

    unfoldable pub pointer_move : R → R → Sheet R → Sheet R
    unfolding pointer_move_from
    pointer_move x y s = pointer_move_from s.drag x y s

    -- The snap that a release at height `h` chooses, `dy` below the start of the drag.
    unfoldable pub release_snap : R → R → ℕ → ℕ
    unfolding nearest_snap clamp_snap
    release_snap h dy snap =
        let next = nearest_snap (mul (div h inner_height) (literal 100)) in
        if next == snap && less flick_px (abs dy)
        then clamp_snap (if less dy (literal 0) then snap + 1 else snap - 1)
        else next

    unfoldable pub release : R → R → Sheet R → Sheet R
    unfolding release_snap
    release h dy s =
        if less h (add dismiss_px (literal 1))
        then record s { suppress_click = true; closes = s.closes + 1 }
        else record s { suppress_click = true; snap = release_snap h dy s.snap }

    -- `if (!d?.active || h == null) return`.
    unfoldable pub release_from : Option (Drag R) → Option R → R → Sheet R → Sheet R
    unfolding release
    release_from (some d) (some h) y s = if d.active then release h (sub y d.y) s else s
    release_from _ _ y s = s

    unfoldable pub pointer_up : R → Sheet R → Sheet R
    unfolding release_from
    pointer_up y s = release_from s.drag s.drag_h y (record s { drag = none; drag_h = none })

  -- Whether a touch move is kept from the browser, with the scroll position of the body.
  unfoldable pub touch_is_prevented : ℕ → R → R → Sheet R → Bool
  touch_is_prevented touches y scroll_top s = elim s.drag [
    | none ↦ false
    | some d ↦
        s.mobile
        && touches == 1
        && (not d.scroller
            || d.active
            || (at_most scroll_top (literal 0) && less (literal 0) (sub y d.y)))
  ]
