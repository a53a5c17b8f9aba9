-- ===== src/Settings/Roundtrip.antt =====
-- Writing and reading back the settings.
use ovlive_platform.Prelude.Dict
use ovlive_platform.Prelude.Dict.{lookup-insert, lookup-erase, lookup, insert, erase}
use ovlive_platform.Prelude.{
  ℕ, zero, suc, ◌^◌, ◌≤◌, ◌<◌, ◌≡◌, refl, ap, Bool, true, false, some, List, [], ◌∷◌, map, arith,
  leb, All, length, any, take, text_eq, Text, codes, text_eq_refl, ◌∙◌, not, sym, ◌&&◌, Option,
  none, ◌==◌, if◌then◌else◌, is_empty, inl, inr, Bool-cases,
}
use ovlive_platform.Numbers.{Numbers}
use ovlive_platform.Settings.Json.{text, items-array_of, number, property, Json}
use ovlive_platform.Settings.Defs.{
  filters_json, Appearance, get_saved_show_stops, types_in, unique_after, get_saved_stop_numbers,
  type_of_number, set_saved_appearance, get_saved_appearance, is_owner, owner_of_json, filter_map,
  owners_in, type_of_json, SavedFilters, get_saved_multi_select, system, list_of,
  set_saved_show_stops, set_saved_stop_numbers, set_saved_multi_select, Store, key_appearance,
  key_stops, key_stop_numbers, holds, key_multi, flag_text, light, dark, out_of_range,
  get_saved_filters, view_json, is_nil, read_json, get_web_view, get_saved_view, set_saved_view,
  set_saved_filters, get_web_filters, SavedView, view_of, web_filters_of, view_in, key_view,
  filters_of, key_filters,
}
use ovlive_platform.Settings.Valid.{IsOwner, IsType, IsValid, IsUnique}

-- Numeric literals below 2^53 are exact: they are in the order of the numbers that they name.
abbrev pub IsExact : Numbers → Type 0
IsExact num =
    (a b : ℕ) → a < 2 ^ 53 → b < 2 ^ 53 → num.at_most (num.literal a) (num.literal b) ≡ leb a b

take-all : {A : Type 0} (n : ℕ) (xs : List A) → length xs ≤ n → take n xs ≡ xs
take-all zero [] h = refl
take-all zero (x ∷ xs) h = absurd (omega arith)
take-all (suc n) [] h = refl
take-all (suc n) (x ∷ xs) h = ap (λ ys. x ∷ ys) (take-all n xs (omega arith))

add_seen :
    {A : Type 0} (same : A → A → Bool) (x : A) (seen xs : List A)
    → All (λ z. any (λ y. same y z) seen ≡ false) xs
    → any (λ y. same x y) xs ≡ false
    → All (λ z. any (λ y. same y z) (x ∷ seen) ≡ false) xs
add_seen same x seen [] h p = tt
add_seen same x seen (z ∷ xs) (q, h) p = (ground arith, add_seen same x seen xs h (ground arith))

-- Elements that differ from all that was seen, and from each other, all stay.
unique_after-same :
    {A : Type 0} (same : A → A → Bool) (seen xs : List A)
    → All (λ x. any (λ y. same y x) seen ≡ false) xs
    → IsUnique same xs
    → unique_after same seen xs ≡ xs
unfolding unique_after
unique_after-same same seen [] h u = refl
unique_after-same same seen (x ∷ xs) (new, h) (p, u) =
    rw new
      (ap (λ ys. x ∷ ys) (unique_after-same same (x ∷ seen) xs (add_seen same x seen xs h p) u))

none_seen :
    {A : Type 0} (same : A → A → Bool) (xs : List A) → All (λ x. any (λ y. same y x) [] ≡ false) xs
none_seen same [] = tt
none_seen same (x ∷ xs) = (refl, none_seen same xs)

holds-same : (key w v : Text) (kv : Store) → holds key v (Dict.insert key w kv) ≡ text_eq w v
holds-same key w v kv = ground (arith, lookup-insert key key w kv, text_eq_refl key)

holds-other :
    (k key w v : Text) (kv : Store)
    → text_eq k key ≡ false
    → holds key v (Dict.insert k w kv) ≡ holds key v kv
holds-other k key w v kv e = ground (arith, lookup-insert k key w kv)

-- A flag is stored as one of two texts.
flag_one : (on : Bool) → text_eq (flag_text on) (codes "1") ≡ on
unfolding text_eq
flag_one true = refl
flag_one false = refl

flag_zero : (on : Bool) → not (text_eq (flag_text on) (codes "0")) ≡ on
unfolding text_eq
flag_zero true = refl
flag_zero false = refl

appearance_back :
    (a : Appearance) (kv : Store) → get_saved_appearance (set_saved_appearance a kv) ≡ a
unfolding get_saved_appearance set_saved_appearance text_eq
appearance_back system kv =
    rw
      (
        holds-same key_appearance (codes "system") (codes "light") kv,
        holds-same key_appearance (codes "system") (codes "dark") kv,
      )
      refl
appearance_back light kv = rw (holds-same key_appearance (codes "light") (codes "light") kv) refl
appearance_back dark kv =
    rw
      (
        holds-same key_appearance (codes "dark") (codes "light") kv,
        holds-same key_appearance (codes "dark") (codes "dark") kv,
      )
      refl

-- Three writes under other keys are not seen.
holds-three :
    (i j k key u w x v : Text) (kv : Store)
    → text_eq i key ≡ false
    → text_eq j key ≡ false
    → text_eq k key ≡ false
    → holds key v (Dict.insert i u (Dict.insert j w (Dict.insert k x kv))) ≡ holds key v kv
holds-three i j k key u w x v kv ei ej ek =
    holds-other i key u v _ ei ∙ holds-other j key w v _ ej ∙ holds-other k key x v kv ek

-- Each preference is read back as it was set, setting the others does not change it, and it has
-- its default in an empty store.
pub preferences_apart :
    (kv : Store) (on : Bool) (a : Appearance)
    → ((get_saved_multi_select (set_saved_multi_select on kv) ≡ on)
        × (get_saved_show_stops (set_saved_show_stops on kv) ≡ on)
        × (get_saved_stop_numbers (set_saved_stop_numbers on kv) ≡ on)
        × (get_saved_appearance (set_saved_appearance a kv) ≡ a))
      × ((get_saved_multi_select
              (set_saved_show_stops on (set_saved_stop_numbers on (set_saved_appearance a kv)))
            ≡ get_saved_multi_select kv)
          × (get_saved_show_stops
                (set_saved_multi_select on (set_saved_stop_numbers on (set_saved_appearance a kv)))
              ≡ get_saved_show_stops kv)
          × (get_saved_stop_numbers
                (set_saved_show_stops on (set_saved_multi_select on (set_saved_appearance a kv)))
              ≡ get_saved_stop_numbers kv)
          × (get_saved_appearance
                (set_saved_show_stops on (set_saved_multi_select on (set_saved_stop_numbers on kv)))
              ≡ get_saved_appearance kv))
      × ((get_saved_multi_select [] ≡ false)
          × (get_saved_show_stops [] ≡ true)
          × (get_saved_stop_numbers [] ≡ true)
          × (get_saved_appearance [] ≡ system))
unfolding text_eq Dict.lookup get_saved_multi_select set_saved_multi_select get_saved_show_stops
    set_saved_show_stops get_saved_stop_numbers set_saved_stop_numbers get_saved_appearance
    set_saved_appearance
preferences_apart kv on a = (
  (
    holds-same key_multi (flag_text on) (codes "1") kv ∙ flag_one on,
    rw (holds-same key_stops (flag_text on) (codes "0") kv) (flag_zero on),
    rw (holds-same key_stop_numbers (flag_text on) (codes "0") kv) (flag_zero on),
    appearance_back a kv,
  ),
  (
    holds-three key_stops key_stop_numbers key_appearance key_multi _ _ _ (codes "1") kv refl refl
        refl,
    ap not (
        holds-three key_multi key_stop_numbers key_appearance key_stops _ _ _ (codes "0") kv refl
          refl refl),
    ap not (
        holds-three key_stops key_multi key_appearance key_stop_numbers _ _ _ (codes "0") kv refl
          refl refl),
    rw
        (
          holds-three key_stops key_multi key_stop_numbers key_appearance (flag_text on)
              (flag_text on) (flag_text on) (codes "light") kv refl refl refl,
          holds-three key_stops key_multi key_stop_numbers key_appearance (flag_text on)
              (flag_text on) (flag_text on) (codes "dark") kv refl refl refl,
        )
        refl,
  ),
  (refl, refl, refl, refl),
)

not_empty :
    {A : Type 0} (s : Text) (o : A) (none_ : A)
    → (s ≡ [] → none_ ≡ o)
    → (if is_empty s then none_ else o) ≡ o
not_empty [] o none_ h = h refl
not_empty (c ∷ s) o none_ h = refl

module _ (num : Numbers) where
  open num use {R}

  view_in-written : (v : SavedView R) → view_in num (view_json num v) ≡ some v
  unfolding view_in view_json view_of property text_eq
  view_in-written v = refl

  module _ (parse : Text → Option (Json R)) (stringify : Json R → Text) where
    -- What is stored is read, where the text of the value parses back to it.
    read-stored :
        (key : Text) (v : Json R) (kv : Store)
        → parse [] ≡ none
        → parse (stringify v) ≡ some v
        → read_json num parse stringify key (Dict.insert key (stringify v) kv) ≡ some v
    unfolding read_json
    read-stored key v kv p e =
        rw (read_json, lookup-insert key key (stringify v) kv, text_eq_refl key)
          (not_empty (stringify v) (parse (stringify v)) none (λ q. sym p ∙ ap parse (sym q)) ∙ e)

    read-erased :
        (key : Text) (kv : Store) → read_json num parse stringify key (Dict.erase key kv) ≡ none
    unfolding read_json
    read-erased key kv = rw (read_json, lookup-erase key key kv, text_eq_refl key) refl

    -- A view is read back as it was saved by the web, and by the mobile app exactly if its numbers
    -- are in range.
    saved_view_kept :
        (v : SavedView R) (kv : Store)
        → parse [] ≡ none
        → parse (stringify (view_json num v)) ≡ some (view_json num v)
        → (get_web_view num parse stringify (set_saved_view num parse stringify v kv) ≡ some v)
          × (get_saved_view num parse stringify (set_saved_view num parse stringify v kv)
              ≡ (if out_of_range num v then none else some v))
    unfolding get_saved_view get_web_view set_saved_view
    saved_view_kept v kv p e =
        let r = read-stored key_view (view_json num v) kv p e in
        (
          rw (get_web_view, r) (view_in-written v),
          rw (get_saved_view, get_web_view, r, view_in-written v) refl,
        )

module _ (num : Numbers) (exact : IsExact num) where
  open num use {R, literal}

  type_of_number-literal : (t : ℕ) → IsType t → type_of_number num (literal t) ≡ some t
  unfolding type_of_number
  type_of_number-literal t h = ground (
    arith,
    exact t 1 (omega arith) (omega arith),
    exact 1 t (omega arith) (omega arith),
    exact t 2 (omega arith) (omega arith),
    exact 2 t (omega arith) (omega arith),
    exact t 3 (omega arith) (omega arith),
    exact 3 t (omega arith) (omega arith),
    exact t 4 (omega arith) (omega arith),
    exact 4 t (omega arith) (omega arith),
    exact t 5 (omega arith) (omega arith),
    exact 5 t (omega arith) (omega arith),
  )

  types_back :
      (ts : List ℕ)
      → All IsType ts
      → filter_map (type_of_json num) (map (λ t. number (literal t)) ts) ≡ ts
  unfolding type_of_json
  types_back [] h = refl
  types_back (t ∷ ts) (p, h) =
      rw (filter_map, type_of_number-literal t p) (ap (λ us. t ∷ us) (types_back ts h))

  owners_back :
      (os : List Text) → All IsOwner os → filter_map (owner_of_json num) (map text os) ≡ os
  unfolding owner_of_json
  owners_back [] h = refl
  owners_back (o ∷ os) (p, h) =
      let e : is_owner o ≡ true = ground arith in
      rw (filter_map, e) (ap (λ us. o ∷ us) (owners_back os h))

  types_in-filters_json :
      (f : SavedFilters) → IsValid f → types_in num (filters_json num f) ≡ f.types
  unfolding types_in filters_json list_of property text_eq
  types_in-filters_json f (ts, os, n) =
      rw (items-array_of (map (λ t. number (literal t)) f.types)) (types_back f.types ts)

  owners_in-filters_json :
      (f : SavedFilters) → IsValid f → owners_in num (filters_json num f) ≡ f.owners
  unfolding owners_in filters_json list_of property text_eq
  owners_in-filters_json f (ts, os, n) =
      rw (items-array_of (map text f.owners)) (owners_back f.owners os)

  filters_of-written : (f : SavedFilters) → IsValid f → filters_of num (filters_json num f) ≡ some f
  unfolding filters_of filters_json
  filters_of-written f (ts, os, n) =
      ap (λ xs. some (record { types = xs; owners = take 64 (owners_in num (filters_json num f)) }))
        (types_in-filters_json f (ts, os, n))
      ∙ ap (λ ys. some (record { types = f.types; owners = take 64 ys }))
          (owners_in-filters_json f (ts, os, n))
      ∙ ap (λ ys. some (record { types = f.types; owners = ys })) (take-all 64 f.owners n)

  web_filters_of-written :
      (f : SavedFilters)
      → IsValid f
      → IsUnique (λ a b. a == b) f.types
      → IsUnique text_eq f.owners
      → (is_nil f.types && is_nil f.owners) ≡ false
      → web_filters_of num (filters_json num f) ≡ some f
  unfolding web_filters_of
  web_filters_of-written f (ts, os, n) ut uo some_ =
      rw (types_in-filters_json f (ts, os, n), owners_in-filters_json f (ts, os, n), some_)
        (ap
            (λ xs.
              some (record { types = xs; owners = take 64 (unique_after text_eq [] f.owners) }))
            (unique_after-same (λ a b. a == b) [] f.types (none_seen (λ a b. a == b) f.types) ut)
          ∙ ap (λ ys. some (record { types = f.types; owners = take 64 ys }))
              (unique_after-same text_eq [] f.owners (none_seen text_eq f.owners) uo)
          ∙ ap (λ ys. some (record { types = f.types; owners = ys })) (take-all 64 f.owners n))

  module _ (parse : Text → Option (Json R)) (stringify : Json R → Text) where
    -- Filters that are valid and select something are read back as they were saved: by the mobile
    -- app always, by the web if they have no duplicates; filters that select nothing are read back
    -- as none by both. This is where their text parses back to the value that was written, and the
    -- empty text does not parse.
    pub saved_filters_kept :
        (f : SavedFilters) (kv : Store)
        → parse [] ≡ none
        → parse (stringify (filters_json num f)) ≡ some (filters_json num f)
        → IsValid f
        → IsUnique (λ a b. a == b) f.types
        → IsUnique text_eq f.owners
        → (get_saved_filters num parse stringify (set_saved_filters num parse stringify f kv)
            ≡ (if is_nil f.types && is_nil f.owners then none else some f))
          × (get_web_filters num parse stringify (set_saved_filters num parse stringify f kv)
              ≡ (if is_nil f.types && is_nil f.owners then none else some f))
    unfolding get_saved_filters get_web_filters set_saved_filters
    saved_filters_kept f kv p e v ut uo = elim (Bool-cases (is_nil f.types && is_nil f.owners)) [
      | inl nothing ↦
          let r = read-erased num parse stringify key_filters kv in
          (rw (nothing, get_saved_filters, r) refl, rw (nothing, get_web_filters, r) refl)
      | inr some_ ↦
          let r = read-stored num parse stringify key_filters (filters_json num f) kv p e in
          (
            rw (some_, get_saved_filters, r) (filters_of-written f v),
            rw (some_, get_web_filters, r) (web_filters_of-written f v ut uo some_),
          )
    ]
