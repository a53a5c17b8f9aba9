-- ===== src/MobileMap/Baked.antt =====
-- apps/mobile/hooks/useMarkerImages.ts: the images that are there after `ensure`.
use ovlive_platform.Prelude.Dict
use ovlive_platform.Prelude.Dict.{lookup-insert}
use ovlive_platform.Prelude.{
  ℕ, ◌+◌, ◌≤◌, ◌≡◌, refl, sym, subst, inl, inr, Bool, true, false, ◌||◌, none, some, List, [], ◌∷◌,
  ◌++◌, arith, All, length, Text, Option-cases, text_eq, text_eq_refl, if◌then◌else◌, codes,
}
use ovlive_platform.Split.{split_on, extend}
use ovlive_platform.Rest.Defs.{MarkerKey, marker_key, parse_marker_key, key_of_parts, is_sel}
use ovlive_platform.MobileMap.Images.{
  Drawn, drawn, Images, spread, bake_marker, ensure_from, ensure,
}

-- `k in have`.
abbrev pub has : {I : Type 0} → Text → List (Text × I) → Bool
has k have = elim (Dict.lookup k have) [ none ↦ false | some _ ↦ true ]

-- The key is one that can be read back.
abbrev pub IsKey : Text → Type 0
IsKey k = (p : MarkerKey) × (parse_marker_key k ≡ some p)

length-extend : (c : ℕ) (ps : List Text) → length ps ≤ length (extend c ps)
length-extend c [] = omega arith
length-extend c (p ∷ ps) = omega arith

split_on-part-le :
    (sep : ℕ) (xs ys : Text) → length (split_on sep ys) + 1 ≤ length (split_on sep (xs ++ sep ∷ ys))
unfolding split_on
split_on-part-le sep [] ys = ground arith
split_on-part-le sep (x ∷ xs) ys =
    ground (arith, split_on-part-le sep xs ys, length-extend x (split_on sep (xs ++ sep ∷ ys)))

split_on-pos : (sep : ℕ) (xs : Text) → 1 ≤ length (split_on sep xs)
unfolding split_on
split_on-pos sep [] = omega arith
split_on-pos sep (x ∷ xs) = ground (arith, split_on-pos sep xs, length-extend x (split_on sep xs))

key_of_parts-some :
    (ps : List Text) → 3 ≤ length ps → (p : MarkerKey) × (key_of_parts (codes "m" ∷ ps) ≡ some p)
unfolding key_of_parts text_eq
key_of_parts-some [] h = absurd (omega arith)
key_of_parts-some (a ∷ []) h = absurd (omega arith)
key_of_parts-some (a ∷ b ∷ []) h = absurd (omega arith)
key_of_parts-some (a ∷ b ∷ c ∷ ps) h =
    (record { owner = a; line = b; dark = text_eq c (codes "d"); selected = is_sel ps }, refl)

-- Every key that is made can be read back, also where the operator or the line has a bar.
pub marker_key-IsKey :
    (owner line : Text) (dark selected : Bool) → IsKey (marker_key owner line dark selected)
unfolding marker_key parse_marker_key
marker_key-IsKey owner line dark selected =
    let sel : Text = if selected then codes "|sel" else [] in
    let tone : Text = (if dark then b'd' else b'l') ∷ sel in
    let tail = line ++ b'|' ∷ tone in
    let whole : split_on b'|' (b'm' ∷ b'|' ∷ (owner ++ b'|' ∷ tail))
        ≡ codes "m" ∷ split_on b'|' (owner ++ b'|' ∷ tail) =
      unfold split_on in refl in
    let (p, e) = key_of_parts-some (split_on b'|' (owner ++ b'|' ∷ tail)) (
      omega (
        arith,
        split_on-part-le b'|' owner tail,
        split_on-part-le b'|' line tone,
        split_on-pos b'|' tone,
      )) in
    (p, rw whole e)

module _ {I : Type 0} where
  has-insert :
      (j k : Text) (i : I) (m : List (Text × I))
      → has j (Dict.insert k i m) ≡ (text_eq k j || has j m)
  has-insert j k i m = ground (arith, lookup-insert k j i m)

  has-cons :
      (j k : Text) (i : I) (m : List (Text × I)) → has j ((k, i) ∷ m) ≡ (text_eq k j || has j m)
  unfolding Dict.lookup
  has-cons j k i m = ground arith

  has-spread :
      (j : Text) (added have : List (Text × I))
      → (has j added || has j have) ≡ true
      → has j (spread added have) ≡ true
  unfolding spread Dict.lookup
  has-spread j [] have h = h
  has-spread j ((k, i) ∷ added) have h =
      has-spread j added (Dict.insert k i have) (ground (arith, has-insert j k i have))

  module _ (draw : MarkerKey → Drawn I)
      (works : (p : MarkerKey) → (i : I) × (draw p ≡ drawn i)) where
    bake_marker-drawn :
        (k : Text) (cache : List (Text × I))
        → IsKey k
        → (i : I) × ((bake_marker draw k cache).0 ≡ drawn i)
    unfolding bake_marker
    bake_marker-drawn k cache (p, e) = elim (Option-cases (Dict.lookup k cache)) [
      | inr (hit, f) ↦ (hit, rw (f, bake_marker) refl)
      | inl new ↦
          let (i, g) = works p in (i, rw (new, bake_marker, e, bake_marker, g, bake_marker) refl)
    ]

    ensure_from-hit :
        (k : Text) (ks : List Text) (added : List (Text × I)) (m : Images I) (hit : I)
        → Dict.lookup k m.have ≡ some hit
        → ensure_from draw (k ∷ ks) added m ≡ ensure_from draw ks added m
    unfolding ensure_from
    ensure_from-hit k ks added m hit f = rw (f, ensure_from) refl

    ensure_from-bakes :
        (k : Text) (ks : List Text) (added : List (Text × I)) (m : Images I)
        → IsKey k
        → Dict.lookup k m.have ≡ none
        → (i : I) × (ensure_from draw (k ∷ ks) added m
            ≡ ensure_from draw ks
                ((k, i) ∷ added)
                (record m { cache = (bake_marker draw k m.cache).1 }))
    unfolding ensure_from
    ensure_from-bakes k ks added m v new =
        let (i, g) = bake_marker-drawn k m.cache v in
        (i, rw (new, ensure_from, g, ensure_from) refl)

    -- What was there or has been added stays.
    ensure_from-keeps :
        (j : Text) (ks : List Text) (added : List (Text × I)) (m : Images I)
        → All IsKey ks
        → (has j added || has j m.have) ≡ true
        → has j (ensure_from draw ks added m).have ≡ true
    unfolding ensure_from
    ensure_from-keeps j [] added m v h = has-spread j added m.have h
    ensure_from-keeps j (k ∷ ks) added m (v, vs) h = elim (Option-cases (Dict.lookup k m.have)) [
      | inr (hit, f) ↦ rw (ensure_from-hit k ks added m hit f) (ensure_from-keeps j ks added m vs h)
      | inl new ↦
          let (i, e) = ensure_from-bakes k ks added m v new in
          let m' = record m { cache = (bake_marker draw k m.cache).1 } in
          rw e
            (ensure_from-keeps j ks ((k, i) ∷ added) m' vs (ground (arith, has-cons j k i added)))
    ]

    -- The images `r` have the key and the rest of them.
    abbrev HaveAll : Text → List Text → Images I → Type 0
    HaveAll k ks r = (has k r.have ≡ true) × All (λ l. has l r.have ≡ true) ks

    ensure_from-All :
        (ks : List Text) (added : List (Text × I)) (m : Images I)
        → All IsKey ks
        → All (λ k. has k (ensure_from draw ks added m).have ≡ true) ks
    ensure_from-All [] added m v = tt
    ensure_from-All (k ∷ ks) added m (v, vs) = elim (Option-cases (Dict.lookup k m.have)) [
      | inr (hit, f) ↦
          subst (HaveAll k ks) (sym (ensure_from-hit k ks added m hit f))
            (ensure_from-keeps k ks added m vs (ground (arith, f)), ensure_from-All ks added m vs)
      | inl new ↦
          let (i, e) = ensure_from-bakes k ks added m v new in
          let m' = record m { cache = (bake_marker draw k m.cache).1 } in
          subst (HaveAll k ks) (sym e) (
            ensure_from-keeps k ks ((k, i) ∷ added) m' vs
                (ground (arith, has-cons k k i added, text_eq_refl k)),
            ensure_from-All ks ((k, i) ∷ added) m' vs,
          )
    ]

    -- Where every marker can be drawn, all keys that are asked for have their image.
    pub ensure-All :
        (ks : List Text) (m : Images I)
        → All IsKey ks
        → All (λ k. has k (ensure draw ks m).have ≡ true) ks
    unfolding ensure
    ensure-All ks m v = ensure_from-All ks [] m v
