-- ===== src/Settings/Json.antt =====
-- The values of `JSON.parse` and `JSON.stringify`, which are parameters of the settings.
use ovlive_platform.Prelude.{
  ◌≡◌, refl, ap, Bool, Option, none, some, List, [], ◌∷◌, if◌then◌else◌, text_eq, Text,
}

mutual
  pub data Json (R : Type 0) : Type 0 where
    null : Json R
    boolean : Bool → Json R
    number : R → Json R
    text : Text → Json R
    array : Jsons R → Json R
    object : Members R → Json R

  pub data Jsons (R : Type 0) : Type 0 where
    no_items : Jsons R
    item : Json R → Jsons R → Jsons R

  pub data Members (R : Type 0) : Type 0 where
    no_members : Members R
    member : Text → Json R → Members R → Members R

module _ {R : Type 0} where
  unfoldable pub items : Jsons R → List (Json R)
  items no_items = []
  items (item v vs) = v ∷ items vs

  unfoldable pub array_of : List (Json R) → Jsons R
  array_of [] = no_items
  array_of (v ∷ vs) = item v (array_of vs)

  pub items-array_of : (vs : List (Json R)) → items (array_of vs) ≡ vs
  unfolding items array_of
  items-array_of [] = refl
  items-array_of (v ∷ vs) = ap (λ ws. v ∷ ws) (items-array_of vs)

  unfoldable pub member_of : Text → Members R → Option (Json R)
  member_of name no_members = none
  member_of name (member k v ms) = if text_eq k name then some v else member_of name ms

  -- `v.name` of a value that is not null; `none` is undefined.
  unfoldable pub property : Text → Json R → Option (Json R)
  unfolding member_of
  property name (object ms) = member_of name ms
  property name _ = none
