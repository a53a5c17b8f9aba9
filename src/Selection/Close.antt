-- ===== src/Selection/Close.antt =====
-- Closing a tab, and leaving multi-select.
use ovlive_platform.Prelude.{
  ℕ, zero, suc, ◌-◌, ◌≤◌, ◌<◌, ◌≡◌, refl, ◌≢◌, inl, inr, Bool, true, false, ◌&&◌, not, Option, none,
  some, List, [], ◌∷◌, arith, Bool-cases, keep_if, length, get_elem?, text_eq_refl, text_eq, Text,
  text_eq_iff, ap, min, ltb, length-keep_if-le, ◌∙◌,
}
use ovlive_platform.Selection.Defs.{
  is_selected, id_at, MapApp, without, find_index, close_tab, Selected, neighbour, is_id, collapse,
  collapse_tabs,
}
use ovlive_platform.Selection.Tabs.{IsWellFormed, active_listed, Distinct}

module _ {R : Type 0} where
  module _ (p : Selected R → Bool) where
    is_selected-keep-false :
        (id : Text) (tabs : List (Selected R))
        → is_selected id tabs ≡ false
        → is_selected id (keep_if p tabs) ≡ false
    is_selected-keep-false id [] h = refl
    is_selected-keep-false id (s ∷ ss) h = ground (arith, is_selected-keep-false id ss)

    Distinct-keep : (tabs : List (Selected R)) → Distinct tabs → Distinct (keep_if p tabs)
    Distinct-keep [] h = tt
    Distinct-keep (s ∷ ss) (q, h) = elim (Bool-cases (p s)) [
      | inl yes' ↦ rw yes' (is_selected-keep-false s.id ss q, Distinct-keep ss h)
      | inr no' ↦ rw no' (Distinct-keep ss h)
    ]

  is_selected-without :
      (id a : Text) (tabs : List (Selected R))
      → is_selected a (without id tabs) ≡ (is_selected a tabs && not (text_eq id a))
  is_selected-without id a [] = refl
  is_selected-without id a (s ∷ ss) = ground (
    arith,
    is_selected-without id a ss,
    text_eq_iff s.id id,
    text_eq_iff s.id a,
    text_eq_iff id a,
  )

  is_selected-only :
      (a : Text) (tabs : List (Selected R))
      → is_selected a (keep_if (λ t. text_eq a t.id) tabs) ≡ is_selected a tabs
  is_selected-only a [] = refl
  is_selected-only a (s ∷ ss) =
      ground (arith, is_selected-only a ss, text_eq_iff s.id a, text_eq_iff a s.id)

  get_elem?-is_selected :
      (tabs : List (Selected R)) (i : ℕ)
      → i ≤ length tabs - 1
      → active_listed (id_at (get_elem? tabs i)) tabs ≡ true
  get_elem?-is_selected [] i h = refl
  get_elem?-is_selected (s ∷ ss) zero h = rw (text_eq_refl s.id) refl
  get_elem?-is_selected (s ∷ []) (suc i) h = absurd (omega arith)
  get_elem?-is_selected (s ∷ t ∷ ss) (suc i) h =
      weaken (id_at (get_elem? (t ∷ ss) i)) (get_elem?-is_selected (t ∷ ss) i (omega arith))
        (get_elem?-some (t ∷ ss) i (omega arith))
    where
      weaken :
          (o : Option Text)
          → active_listed o (t ∷ ss) ≡ true
          → o ≢ none
          → active_listed o (s ∷ t ∷ ss) ≡ true
      weaken none k n = absurd (n refl)
      weaken (some a) k n = ground arith

      get_elem?-some :
          (xs : List (Selected R)) (j : ℕ) → j < length xs → id_at (get_elem? xs j) ≢ none
      get_elem?-some [] j k = absurd (omega arith)
      get_elem?-some (x ∷ xs) zero k = λ e. cc
      get_elem?-some (x ∷ xs) (suc j) k = get_elem?-some xs j (omega arith)

  find_index-selected :
      (id : Text) (tabs : List (Selected R))
      → is_selected id tabs ≡ true
      → (i : ℕ) × (find_index id tabs ≡ some i)
  unfolding find_index
  find_index-selected id [] h = cc
  find_index-selected id (s ∷ ss) h = elim (Bool-cases (text_eq s.id id)) [
    | inl here ↦ (0, rw here refl)
    | inr later ↦
        let (i, e) = find_index-selected id ss (ground arith) in (suc i, rw (later, e) refl)
  ]

  listed-without :
      (o : Option Text) (id : Text) (tabs : List (Selected R))
      → active_listed o tabs ≡ true
      → is_id o id ≡ false
      → active_listed o (without id tabs) ≡ true
  listed-without none id [] h k = refl
  listed-without none id (s ∷ ss) h k = cc
  listed-without (some b) id tabs h k =
      ground (arith, is_selected-without id b tabs, text_eq_iff b id, text_eq_iff id b)

  listed-neighbour :
      (o : Option Text) (id : Text) (tabs : List (Selected R))
      → active_listed o tabs ≡ true
      → is_id o id ≡ true
      → active_listed (id_at (neighbour (find_index id tabs) (without id tabs))) (without id tabs)
        ≡ true
  unfolding neighbour
  listed-neighbour none id tabs h k = cc
  listed-neighbour (some b) id tabs h k =
      let (i, e) = find_index-selected id tabs (rw ((text_eq_iff b id).0 k) at h) in
      rw (e, neighbour)
        (get_elem?-is_selected (without id tabs) (min i (length (without id tabs) - 1))
          (omega arith))

  close_tab_selected :
      (id : Text) (s : MapApp R) → (close_tab id s).selected ≡ without id s.selected
  unfolding close_tab
  close_tab_selected id s = elim (Bool-cases (is_id s.active_id id)) [
    | inl active ↦ rw active refl
    | inr other ↦ rw other refl
  ]

  close_tab_listed :
      (id : Text) (s : MapApp R)
      → active_listed s.active_id s.selected ≡ true
      → active_listed (close_tab id s).active_id (without id s.selected) ≡ true
  unfolding close_tab
  close_tab_listed id s h = elim (Bool-cases (is_id s.active_id id)) [
    | inl active ↦ rw active (listed-neighbour s.active_id id s.selected h active)
    | inr other ↦ rw other (listed-without s.active_id id s.selected h other)
  ]

  -- Closing a tab takes away that vehicle and no other, and leaves the tabs well formed: if it was
  -- the active one, another tab is active after it, and none only if no tab is left.
  pub close_tab_lem :
      (id a : Text) (s : MapApp R)
      → IsWellFormed s
      → (is_selected a (close_tab id s).selected ≡ (is_selected a s.selected && not (text_eq id a)))
        × IsWellFormed (close_tab id s)
  close_tab_lem id a s h =
      let e = close_tab_selected id s in
      (
        rw e (is_selected-without id a s.selected),
        record {
          distinct = rw e (Distinct-keep (λ t. not (text_eq t.id id)) s.selected h.distinct);
          bounded = omega (
            arith,
            h.bounded,
            ap length e,
            length-keep_if-le (λ t. not (text_eq t.id id)) s.selected,
          );
          listed = rw e (close_tab_listed id s h.listed);
        },
      )

  collapse_tabs_lem :
      (multi : Bool) (o : Option Text) (tabs : List (Selected R))
      → Distinct tabs
      → active_listed o tabs ≡ true
      → Distinct (collapse_tabs multi o tabs)
        × (length (collapse_tabs multi o tabs) ≤ length tabs)
        × (active_listed o (collapse_tabs multi o tabs) ≡ true)
  unfolding collapse_tabs
  collapse_tabs_lem true o tabs h k = (h, omega arith, k)
  collapse_tabs_lem false none [] h k = (h, omega arith, k)
  collapse_tabs_lem false none (s ∷ ss) h k = cc
  collapse_tabs_lem false (some a) tabs h k = elim (Bool-cases (ltb 1 (length tabs))) [
    | inl many ↦ rw many (
      Distinct-keep (λ t. text_eq a t.id) tabs h,
      length-keep_if-le (λ t. text_eq a t.id) tabs,
      is_selected-only a tabs ∙ k,
    )
    | inr few ↦ rw few (h, omega arith, k)
  ]

  pub collapse-IsWellFormed : (s : MapApp R) → IsWellFormed s → IsWellFormed (collapse s)
  unfolding collapse
  collapse-IsWellFormed s h =
      let (d, b, l) = collapse_tabs_lem s.multi_select s.active_id s.selected h.distinct h.listed in
      record { distinct = d; bounded = omega (arith, b, h.bounded); listed = l }
