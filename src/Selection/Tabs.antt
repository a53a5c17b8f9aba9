-- ===== src/Selection/Tabs.antt =====
-- The list of tabs of useMapApp.
use ovlive_platform.Types.{Vehicle}
use ovlive_platform.Prelude.{
  ℕ, zero, suc, ◌-◌, ◌≤◌, ◌≡◌, refl, ap, ◌∙◌, inl, inr, Bool, true, false, ◌||◌, Option, none, some,
  List, [], ◌∷◌, ◌++◌, arith, Bool-cases, length, drop, length-take_last-le, length-append,
  text_eq_iff, text_eq, text_eq_refl, Text,
}
use ovlive_platform.Selection.Defs.{Selected, update_tabs, is_selected, add_tab, fresh_tab, MapApp}

module _ {R : Type 0} where
  abbrev pub Distinct : List (Selected R) → Type 0
  Distinct [] = Unit
  Distinct (s ∷ ss) = (is_selected s.id ss ≡ false) × Distinct ss

  abbrev pub active_listed : Option Text → List (Selected R) → Bool
  active_listed none [] = true
  active_listed none (_ ∷ _) = false
  active_listed (some a) tabs = is_selected a tabs

  -- The tabs have different vehicles, there are at most eight, and the active vehicle is one of
  -- them; no vehicle is active exactly when there is no tab.
  pub record IsWellFormed (s : MapApp R) : Type 0 where
    pub distinct : Distinct s.selected
    pub bounded : length s.selected ≤ 8
    pub listed : active_listed s.active_id s.selected ≡ true

  -- Changing tabs and not their vehicles.
  module _ (f : Selected R → Selected R) (keeps : (s : Selected R) → (f s).id ≡ s.id) where
    pub is_selected-update :
        (id : Text) (tabs : List (Selected R))
        → is_selected id (update_tabs f tabs) ≡ is_selected id tabs
    is_selected-update id [] = refl
    is_selected-update id (s ∷ ss) = rw (keeps s, is_selected-update id ss) refl

    length-update : (tabs : List (Selected R)) → length (update_tabs f tabs) ≡ length tabs
    length-update [] = refl
    length-update (s ∷ ss) = ap suc (length-update ss)

    Distinct-update : (tabs : List (Selected R)) → Distinct tabs → Distinct (update_tabs f tabs)
    Distinct-update [] h = tt
    Distinct-update (s ∷ ss) (p, h) =
        (rw (keeps s, is_selected-update s.id ss) p, Distinct-update ss h)

    active-update :
        (a : Option Text) (tabs : List (Selected R))
        → active_listed a (update_tabs f tabs) ≡ active_listed a tabs
    active-update none [] = refl
    active-update none (s ∷ ss) = refl
    active-update (some a) tabs = is_selected-update a tabs

    pub update-IsWellFormed :
        (s : MapApp R)
        → IsWellFormed s
        → IsWellFormed (record s { selected = update_tabs f s.selected })
    update-IsWellFormed s h = record {
      distinct = Distinct-update s.selected h.distinct;
      bounded = omega (arith, h.bounded, length-update s.selected);
      listed = active-update s.active_id s.selected ∙ h.listed;
    }

  is_selected-append :
      (id : Text) (xs : List (Selected R)) (x : Selected R)
      → is_selected id (xs ++ x ∷ []) ≡ (is_selected id xs || text_eq x.id id)
  is_selected-append id [] x = ground arith
  is_selected-append id (y ∷ xs) x = ground (arith, is_selected-append id xs x)

  Distinct-append :
      (xs : List (Selected R)) (x : Selected R)
      → Distinct xs
      → is_selected x.id xs ≡ false
      → Distinct (xs ++ x ∷ [])
  Distinct-append [] x h p = (refl, tt)
  Distinct-append (y ∷ xs) x (q, h) p = (
    ground (arith, is_selected-append y.id xs x, text_eq_iff x.id y.id, text_eq_iff y.id x.id),
    Distinct-append xs x h (ground arith),
  )

  Distinct-drop : (n : ℕ) (xs : List (Selected R)) → Distinct xs → Distinct (drop n xs)
  Distinct-drop zero xs h = h
  Distinct-drop (suc n) [] h = tt
  Distinct-drop (suc n) (x ∷ xs) (p, h) = Distinct-drop n xs h

  is_selected-drop_last :
      (n : ℕ) (xs : List (Selected R)) (x : Selected R)
      → n ≤ length xs
      → is_selected x.id (drop n (xs ++ x ∷ [])) ≡ true
  is_selected-drop_last zero xs x h =
      ground (arith, is_selected-append x.id xs x, text_eq_iff x.id x.id)
  is_selected-drop_last (suc n) [] x h = elim h [ ]
  is_selected-drop_last (suc n) (y ∷ xs) x h = is_selected-drop_last n xs x (omega arith)

  pub add_tab_lem :
      (multi : Bool) (id : Text) (v : Option (Vehicle R)) (tabs : List (Selected R))
      → Distinct tabs
      → length tabs ≤ 8
      → Distinct (add_tab multi id v tabs)
        × (length (add_tab multi id v tabs) ≤ 8)
        × (is_selected id (add_tab multi id v tabs) ≡ true)
  unfolding add_tab
  add_tab_lem false id v tabs h b = ((refl, tt), omega arith, rw (text_eq_refl id) refl)
  add_tab_lem true id v tabs h b = elim (Bool-cases (is_selected id tabs)) [
    | inl old ↦ rw old (h, b, old)
    | inr new ↦
        let tab = fresh_tab id v in
        rw new (
          Distinct-drop _ (tabs ++ tab ∷ []) (Distinct-append tabs tab h new),
          length-take_last-le 8 (tabs ++ tab ∷ []),
          is_selected-drop_last (length (tabs ++ tab ∷ []) - 8) tabs tab
              (omega (arith, length-append tabs (tab ∷ []))),
        )
  ]
