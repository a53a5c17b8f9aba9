-- ===== src/Translation/Agreement.antt =====
-- The two dictionaries side by side.
use ovlive_platform.Prelude.Dict
use ovlive_platform.Prelude.{
  ◌≡◌, refl, Bool, true, false, ◌&&◌, Option, none, some, List, [], ◌∷◌, ◌++◌, ◌==◌, if◌then◌else◌,
  any, text_eq, Text, inl, inr, arith, Bool-cases, subst, Option-cases, text_eq_iff,
}
use ovlive_platform.Prelude.Dict.{lookup}
use ovlive_platform.Translation.Defs.{dicts, english, dutch, texts, Lang, template}

-- The names in braces of a template; `name` is what stands after an open brace so far.
names_from : Option Text → Text → List Text
names_from name [] = []
names_from none (c ∷ s) = if c == 123 then names_from (some []) s else names_from none s
names_from (some name) (c ∷ s) =
    if c == 125 then name ∷ names_from none s else names_from (some (name ++ c ∷ [])) s

names_in : Text → List Text
unfolding names_from
names_in s = names_from none s

-- Each name of the one list is in the other.
all_in : List Text → List Text → Bool
all_in [] ys = true
all_in (x ∷ xs) ys = any (λ y. text_eq x y) ys && all_in xs ys

-- Two templates have the same variables.
unfoldable pub same_names : Text → Text → Bool
unfolding names_in all_in
same_names s t = all_in (names_in s) (names_in t) && all_in (names_in t) (names_in s)

-- Each key of the one dictionary is in the other, with a template of the same variables.
agree_with : List (Text × Text) → List (Text × Text) → Bool
unfolding same_names Dict.lookup
agree_with [] n = true
agree_with ((k, s) ∷ m) n =
    elim (Dict.lookup k n) [ none ↦ false | some t ↦ same_names s t ] && agree_with m n

dicts-agree :
    (agree_with (dicts dutch) (dicts english) ≡ true)
    × (agree_with (dicts english) (dicts dutch) ≡ true)
unfolding agree_with dicts texts text_eq
dicts-agree = (refl, refl)

agree_with-lookup :
    (m n : List (Text × Text)) (key s : Text)
    → agree_with m n ≡ true
    → Dict.lookup key m ≡ some s
    → (t : Text) × (Dict.lookup key n ≡ some t) × (same_names s t ≡ true)
unfolding agree_with Dict.lookup
agree_with-lookup [] n key s a h = cc
agree_with-lookup ((k, r) ∷ m) n key s a h = elim (Bool-cases (text_eq k key)) [
  | inl here ↦
      let e : k ≡ key = (text_eq_iff k key).0 here in
      let q : r ≡ s = ground (arith, here) in
      elim (Option-cases (Dict.lookup k n)) [
        | inl out ↦ absurd (ground (arith, out))
        | inr (t, found) ↦ (
          t,
          subst (λ j. Dict.lookup j n ≡ some t) e found,
          subst (λ x. same_names x t ≡ true) q (ground (arith, found)),
        )
      ]
  | inr there ↦ agree_with-lookup m n key s (ground arith) (ground (arith, there))
]

abbrev pub other : Lang → Lang
other dutch = english
other english = dutch

-- A key that one language has is in the other one too, with a text of the same variables: the
-- translator of either language uses its own text, and never falls back.
known_in_both :
    (lang : Lang) (key s : Text)
    → Dict.lookup key (dicts lang) ≡ some s
    → (template lang key ≡ s)
      × ((t : Text) × (Dict.lookup key (dicts (other lang)) ≡ some t)
          × (template (other lang) key ≡ t)
          × (same_names s t ≡ true))
unfolding template
known_in_both dutch key s h =
    let (t, e, q) = agree_with-lookup (dicts dutch) (dicts english) key s dicts-agree.0 h in
    (rw (template, h) refl, (t, e, rw (template, e) refl, q))
known_in_both english key s h =
    let (t, e, q) = agree_with-lookup (dicts english) (dicts dutch) key s dicts-agree.1 h in
    (rw (template, h) refl, (t, e, rw (template, e) refl, q))
