-- ===== src/Settings/Valid.antt =====
-- The filters that are read back from the store.
use ovlive_platform.Prelude.{
  ℕ, zero, suc, ◌≤◌, ◌<◌, ◌≡◌, refl, inl, inr, Bool, true, false, Option, some, List, [], ◌∷◌,
  arith, Bool-cases, ◌==◌, Option-cases, take, any, All, length, text_eq, Text, codes,
}
use ovlive_platform.Numbers.{Numbers}
use ovlive_platform.Settings.Json.{Json, array, boolean, text, property, null, object, number}
use ovlive_platform.Settings.Defs.{
  get_web_filters, Store, filters_of, type_of_number, owner_of_json, owners_in, get_saved_filters,
  filter_map, types_in, web_filters_of, unique_after, type_of_json, SavedFilters, key_filters,
  list_of, read_json,
}

-- A code of a vehicle type that has a chip.
abbrev pub IsType : ℕ → Type 0
IsType t = (1 ≤ t) × (t ≤ 5)

abbrev pub IsOwner : Text → Type 0
IsOwner o = (0 < length o) × (length o ≤ 16)

-- Only known types, and at most 64 operators of 1 to 16 characters.
abbrev pub IsValid : SavedFilters → Type 0
IsValid f = All IsType f.types × All IsOwner f.owners × (length f.owners ≤ 64)

-- No element comes twice, by a test of equality.
abbrev pub IsUnique : {A : Type 0} → (A → A → Bool) → List A → Type 0
IsUnique same [] = Unit
IsUnique same (x ∷ xs) = (any (λ y. same x y) xs ≡ false) × IsUnique same xs

All-filter_map :
    {A B : Type 0} (P : B → Type 0) (f : A → Option B) (xs : List A)
    → ((a : A) (b : B) → f a ≡ some b → P b)
    → All P (filter_map f xs)
All-filter_map P f [] h = tt
All-filter_map P f (a ∷ xs) h = elim (Option-cases (f a)) [
  | inl out ↦ rw (All, out) (All-filter_map P f xs h)
  | inr (b, kept) ↦ rw (All, kept) (h a b kept, All-filter_map P f xs h)
]

All-take : {A : Type 0} (P : A → Type 0) (n : ℕ) (xs : List A) → All P xs → All P (take n xs)
All-take P zero xs h = tt
All-take P (suc n) [] h = tt
All-take P (suc n) (x ∷ xs) (p, h) = (p, All-take P n xs h)

length-take-le : {A : Type 0} (n : ℕ) (xs : List A) → length (take n xs) ≤ n
length-take-le zero xs = omega arith
length-take-le (suc n) [] = omega arith
length-take-le (suc n) (x ∷ xs) = omega (arith, length-take-le n xs)

All-unique_after :
    {A : Type 0} (P : A → Type 0) (same : A → A → Bool) (seen xs : List A)
    → All P xs
    → All P (unique_after same seen xs)
unfolding unique_after
All-unique_after P same seen [] h = tt
All-unique_after P same seen (x ∷ xs) (p, h) = elim (Bool-cases (any (λ y. same y x) seen)) [
  | inl again ↦ rw again (All-unique_after P same seen xs h)
  | inr new ↦ rw new (p, All-unique_after P same (x ∷ seen) xs h)
]

-- An element that was seen is not in what is left.
any-unique_after :
    {A : Type 0} (same : A → A → Bool) (x : A) (seen xs : List A)
    → ((y : A) → same x y ≡ true → any (λ z. same z y) seen ≡ true)
    → any (λ y. same x y) (unique_after same seen xs) ≡ false
unfolding unique_after
any-unique_after same x seen [] h = refl
any-unique_after same x seen (y ∷ xs) h = elim (Bool-cases (any (λ z. same z y) seen)) [
  | inl again ↦ rw again (any-unique_after same x seen xs h)
  | inr new ↦
      ground (arith, h y, any-unique_after same x (y ∷ seen) xs (λ w e. ground (arith, h w)))
]

IsUnique-unique_after :
    {A : Type 0} (same : A → A → Bool) (seen xs : List A)
    → IsUnique same (unique_after same seen xs)
unfolding unique_after
IsUnique-unique_after same seen [] = tt
IsUnique-unique_after same seen (x ∷ xs) = elim (Bool-cases (any (λ y. same y x) seen)) [
  | inl again ↦ rw again (IsUnique-unique_after same seen xs)
  | inr new ↦ rw new (
    any-unique_after same x (x ∷ seen) xs (λ y e. ground arith),
    IsUnique-unique_after same (x ∷ seen) xs,
  )
]

any-take :
    {A : Type 0} (p : A → Bool) (n : ℕ) (xs : List A) → any p xs ≡ false → any p (take n xs) ≡ false
any-take p zero xs h = refl
any-take p (suc n) [] h = refl
any-take p (suc n) (x ∷ xs) h = ground (arith, any-take p n xs)

IsUnique-take :
    {A : Type 0} (same : A → A → Bool) (n : ℕ) (xs : List A)
    → IsUnique same xs
    → IsUnique same (take n xs)
IsUnique-take same zero xs h = tt
IsUnique-take same (suc n) [] h = tt
IsUnique-take same (suc n) (x ∷ xs) (p, h) =
    (any-take (λ y. same x y) n xs p, IsUnique-take same n xs h)

module _ (num : Numbers) where
  open num use {R}

  type_of_json-IsType : (v : Json R) (t : ℕ) → type_of_json num v ≡ some t → IsType t
  unfolding type_of_json type_of_number
  type_of_json-IsType null t e = cc
  type_of_json-IsType (boolean b) t e = cc
  type_of_json-IsType (number r) t e = ground arith
  type_of_json-IsType (text s) t e = cc
  type_of_json-IsType (array vs) t e = cc
  type_of_json-IsType (object ms) t e = cc

  owner_of_json-IsOwner : (v : Json R) (o : Text) → owner_of_json num v ≡ some o → IsOwner o
  unfolding owner_of_json
  owner_of_json-IsOwner null o e = cc
  owner_of_json-IsOwner (boolean b) o e = cc
  owner_of_json-IsOwner (number r) o e = cc
  owner_of_json-IsOwner (text s) o e = ground arith
  owner_of_json-IsOwner (array vs) o e = cc
  owner_of_json-IsOwner (object ms) o e = cc

  types_in-All : (v : Json R) → All IsType (types_in num v)
  unfolding types_in
  types_in-All v =
      All-filter_map IsType (type_of_json num) (list_of num (property (codes "types") v))
        type_of_json-IsType

  owners_in-All : (v : Json R) → All IsOwner (owners_in num v)
  unfolding owners_in
  owners_in-All v =
      All-filter_map IsOwner (owner_of_json num) (list_of num (property (codes "owners") v))
        owner_of_json-IsOwner

  module _ (parse : Text → Option (Json R)) (stringify : Json R → Text) where
    read-IsValid :
        (v : Json R) (f : SavedFilters)
        → f ≡ record { types = types_in num v; owners = take 64 (owners_in num v) }
        → IsValid f
    read-IsValid v f e = rw e (
      types_in-All v,
      All-take IsOwner 64 (owners_in num v) (owners_in-All v),
      length-take-le 64 (owners_in num v),
    )

    filters_of-IsValid : (v : Json R) (f : SavedFilters) → filters_of num v ≡ some f → IsValid f
    unfolding filters_of
    filters_of-IsValid null f e = absurd (ground arith)
    filters_of-IsValid (boolean b) f e = read-IsValid (boolean b) f (ground arith)
    filters_of-IsValid (number r) f e = read-IsValid (number r) f (ground arith)
    filters_of-IsValid (text s) f e = read-IsValid (text s) f (ground arith)
    filters_of-IsValid (array vs) f e = read-IsValid (array vs) f (ground arith)
    filters_of-IsValid (object ms) f e = read-IsValid (object ms) f (ground arith)

    web-IsUnique :
        (v : Json R) (f : SavedFilters)
        → f ≡ record {
          types = unique_after (λ a b. a == b) [] (types_in num v);
          owners = take 64 (unique_after text_eq [] (owners_in num v));
        }
        → IsValid f × IsUnique (λ a b. a == b) f.types × IsUnique text_eq f.owners
    web-IsUnique v f e =
        let os = unique_after text_eq [] (owners_in num v) in
        rw e (
          (
            All-unique_after IsType (λ a b. a == b) [] (types_in num v) (types_in-All v),
            All-take IsOwner 64 os
                (All-unique_after IsOwner text_eq [] (owners_in num v) (owners_in-All v)),
            length-take-le 64 os,
          ),
          IsUnique-unique_after (λ a b. a == b) [] (types_in num v),
          IsUnique-take text_eq 64 os (IsUnique-unique_after text_eq [] (owners_in num v)),
        )

    web_filters_of-IsValid :
        (v : Json R) (f : SavedFilters)
        → web_filters_of num v ≡ some f
        → IsValid f × IsUnique (λ a b. a == b) f.types × IsUnique text_eq f.owners
    unfolding web_filters_of
    web_filters_of-IsValid v f e = web-IsUnique v f (ground arith)

    -- Whatever text the store holds under the filters' key, the filters that the mobile app reads
    -- back have only the five known vehicle types, and at most 64 operators of 1 to 16 characters;
    -- those that the web reads back have no duplicates either.
    pub read_filters-IsValid :
        (kv : Store) (f g : SavedFilters)
        → get_saved_filters num parse stringify kv ≡ some f
        → get_web_filters num parse stringify kv ≡ some g
        → IsValid f × (IsValid g × IsUnique (λ a b. a == b) g.types × IsUnique text_eq g.owners)
    unfolding get_saved_filters get_web_filters
    read_filters-IsValid kv f g e k =
        elim (Option-cases (read_json num parse stringify key_filters kv)) [
          | inl nothing ↦ absurd (ground (arith, nothing))
          | inr (v, read) ↦ (
            filters_of-IsValid v f (ground (arith, read)),
            web_filters_of-IsValid v g (ground (arith, read)),
          )
        ]
