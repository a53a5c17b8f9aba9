-- ===== src/Home/Tabs.antt =====
-- apps/web/app/routes/home.tsx: what the actions of the map screen make of its tabs.
use ovlive_platform.Types.{Vehicle}
use ovlive_platform.Prelude.{
  ℕ, suc, ◌-◌, Bool, true, false, ◌&&◌, not, Option, none, some, List, [], ◌∷◌, ◌++◌, min,
  if◌then◌else◌, keep_if, length, take_last, any, get_elem?, is_empty, Text, or_text, text_eq,
}
use ovlive_platform.Selection.Defs.{Selected, is_id}

abbrev pub max_selected : ℕ
max_selected = 8

module _ {R : Type 0} where
  -- The updater of `setSelected` in `selectVehicle`.
  unfoldable pub add_selected :
      Bool → Text → Option (Vehicle R) → List (Selected R) → List (Selected R)
  add_selected multi_select id v prev =
      let tab : Selected R = record { id = id; basic = v; ended = false; replacement = none } in
      if not multi_select
      then tab ∷ []
      else if any (λ s. text_eq s.id id) prev
      then prev
      else take_last max_selected (prev ++ tab ∷ [])

  abbrev pub text_of : (Vehicle R → Text) → Option (Vehicle R) → Text
  text_of field none = []
  text_of field (some b) = field b

  -- `{ ...v, line: v.line || s.basic?.line || "", operator: … }`.
  unfoldable pub with_known : Vehicle R → Option (Vehicle R) → Vehicle R
  with_known v basic = record v {
    line = or_text v.line (text_of (λ b. b.line) basic);
    operator = or_text v.operator (text_of (λ b. b.operator) basic);
  }

  unfoldable pub refresh : Vehicle R → Selected R → Selected R
  unfolding with_known
  refresh v s =
      if text_eq s.id v.id && not s.ended
      then record s { basic = some (with_known v s.basic) }
      else s

  unfoldable pub end_tab : Text → Selected R → Selected R
  end_tab id s = if text_eq s.id id then record s { ended = true } else s

  unfoldable pub is_same_trip : Option (Vehicle R) → Vehicle R → Bool
  is_same_trip basic v =
      let journey = text_of (λ b. b.journey) basic in
      not (is_empty journey) && not (is_empty v.journey) && text_eq journey v.journey

  unfoldable pub bring_back : Vehicle R → Selected R → Selected R
  unfolding with_known is_same_trip
  bring_back v s =
      if not (text_eq s.id v.id)
      then s
      else if not s.ended
      then record s { basic = some (with_known v s.basic) }
      else if is_same_trip s.basic v
      then record s { ended = false; replacement = none; basic = some v }
      else record s { replacement = some v }

  unfoldable pub resume : Text → Selected R → Selected R
  resume id s = elim s.replacement [
    | none ↦ s
    | some r ↦
        if text_eq s.id id
        then record s { basic = some r; ended = false; replacement = none }
        else s
  ]

  unfoldable pub backfill : Text → Text → Selected R → Selected R
  backfill id line s = elim s.basic [
    | none ↦ s
    | some b ↦ if text_eq s.id id then record s { basic = some (record b { line = line }) } else s
  ]

  -- `selected.findIndex((s) => s.id === id)`; `none` is -1.
  unfoldable pub index_of : Text → List (Selected R) → Option ℕ
  index_of id [] = none
  index_of id (s ∷ ss) =
      if text_eq s.id id
      then some 0
      else elim (index_of id ss) [ none ↦ none | some i ↦ some (suc i) ]

  abbrev pub others : Text → List (Selected R) → List (Selected R)
  others id selected = keep_if (λ s. not (text_eq s.id id)) selected

  -- `remaining[Math.min(idx, remaining.length - 1)]`, its id or null.
  unfoldable pub next_active : Option ℕ → List (Selected R) → Option Text
  next_active none remaining = none
  next_active (some idx) remaining = elim (get_elem? remaining (min idx (length remaining - 1))) [
    | none ↦ none
    | some s ↦ some s.id
  ]

  -- `prev.filter((s) => s.id === activeId)`.
  unfoldable pub only_active : Option Text → List (Selected R) → List (Selected R)
  only_active active_id prev = keep_if (λ s. is_id active_id s.id) prev
