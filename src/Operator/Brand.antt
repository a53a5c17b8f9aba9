-- ===== src/Operator/Brand.antt =====
-- Which brand a vehicle is shown under: resolveOperator of packages/shared/src/format.ts.
use ovlive_platform.Prelude.Dict
use mathlib.Core.List.{append-nil}
use ovlive_platform.Prelude.{
  ◌≡◌, refl, some, List, [], ◌∷◌, All, text_eq, Text, false, is_empty, true, none, ℕ, ap, ◌≢◌, inl,
  inr, ◌++◌, arith, Bool-cases, if◌then◌else◌,
}
use ovlive_platform.Prelude.Dict.{lookup, insert}
use ovlive_platform.Operator.Defs.{
  add_operators, OpDef, Operator, by_alias, operators, add_aliases, clean_name, known_or_made,
  resolve_operator, is_space, drop_group, is_group, closes_group, trim, skip_space,
}

-- The operator that a row of the table stands for.
abbrev pub row_operator : Text × OpDef → Operator
row_operator row = record { key = row.0; label = row.1.label; style = row.1.style }

-- Every alias of the table is a text that the upper-casing keeps.
abbrev pub KeepsNames : (Text → Text) → List (Text × OpDef) → Type 0
KeepsNames to_upper [] = Unit
KeepsNames to_upper ((key, def) ∷ defs) =
    All (λ a. to_upper a ≡ a) (key ∷ def.aliases) × KeepsNames to_upper defs

abbrev same : Text → Text
same s = s

add_aliases-same :
    (to_upper : Text → Text) (op : Operator) (names : List Text) (m : List (Text × Operator))
    → All (λ a. to_upper a ≡ a) names
    → add_aliases to_upper op names m ≡ add_aliases same op names m
unfolding add_aliases
add_aliases-same to_upper op [] m h = refl
add_aliases-same to_upper op (a ∷ names) m (e, h) =
    rw e (add_aliases-same to_upper op names (Dict.insert a op m) h)

add_operators-same :
    (to_upper : Text → Text) (defs : List (Text × OpDef)) (m : List (Text × Operator))
    → KeepsNames to_upper defs
    → add_operators to_upper defs m ≡ add_operators same defs m
unfolding add_operators
add_operators-same to_upper [] m h = refl
add_operators-same to_upper ((key, def) ∷ defs) m (e, h) =
    rw (add_aliases-same to_upper _ (key ∷ def.aliases) m e) (add_operators-same to_upper defs _ h)

by_alias-same :
    (to_upper : Text → Text) → KeepsNames to_upper operators → by_alias to_upper ≡ by_alias same
unfolding by_alias
by_alias-same to_upper h = add_operators-same to_upper operators [] h

-- With upper-casing that keeps the names, each name finds its own row.
table_lookup :
    All
      (λ row.
        All (λ a. Dict.lookup a (by_alias same) ≡ some (row_operator row)) (row.0 ∷ row.1.aliases))
      operators
unfolding by_alias Dict.lookup Dict.insert text_eq
table_lookup = (
  (refl, (refl, tt)),
  (
    (refl, (refl, tt)),
    (
      (refl, tt),
      (
        (refl, tt),
        (
          (refl, (refl, tt)),
          (
            (refl, tt),
            (
              (refl, tt),
              (
                (refl, (refl, tt)),
                (
                  (refl, (refl, tt)),
                  ((refl, (refl, (refl, (refl, tt)))), ((refl, (refl, tt)), tt)),
                ),
              ),
            ),
          ),
        ),
      ),
    ),
  ),
)

found_row :
    (to_upper : Text → Text) (dataowner a : Text) (op : Operator)
    → KeepsNames to_upper operators
    → to_upper a ≡ a
    → clean_name a ≡ a
    → is_empty a ≡ false
    → Dict.lookup a (by_alias same) ≡ some op
    → resolve_operator to_upper dataowner (some a) ≡ op
unfolding resolve_operator known_or_made
found_row to_upper dataowner a op k u c e f =
    rw (c, e, known_or_made, u, by_alias-same to_upper k, f) refl

names_clean :
    All
      (λ row. All (λ a. (clean_name a ≡ a) × (is_empty a ≡ false)) (row.0 ∷ row.1.aliases))
      operators
unfolding clean_name is_space
names_clean = (
  ((refl, refl), ((refl, refl), tt)),
  (
    ((refl, refl), ((refl, refl), tt)),
    (
      ((refl, refl), tt),
      (
        ((refl, refl), tt),
        (
          ((refl, refl), ((refl, refl), tt)),
          (
            ((refl, refl), tt),
            (
              ((refl, refl), tt),
              (
                ((refl, refl), ((refl, refl), tt)),
                (
                  ((refl, refl), ((refl, refl), tt)),
                  (
                    ((refl, refl), ((refl, refl), ((refl, refl), ((refl, refl), tt)))),
                    (((refl, refl), ((refl, refl), tt)), tt),
                  ),
                ),
              ),
            ),
          ),
        ),
      ),
    ),
  ),
)

rows_resolve :
    (to_upper : Text → Text) (dataowner : Text) (op : Operator) (names : List Text)
    → KeepsNames to_upper operators
    → All (λ a. to_upper a ≡ a) names
    → All (λ a. (clean_name a ≡ a) × (is_empty a ≡ false)) names
    → All (λ a. Dict.lookup a (by_alias same) ≡ some op) names
    → All (λ a. resolve_operator to_upper dataowner (some a) ≡ op) names
rows_resolve to_upper dataowner op [] k u c f = tt
rows_resolve to_upper dataowner op (a ∷ names) k (u, us) (c, cs) (f, fs) = (
  found_row to_upper dataowner a op k u c.0 c.1 f,
  rows_resolve to_upper dataowner op names k us cs fs,
)

table_rows_resolve :
    (to_upper : Text → Text) (dataowner : Text) (rows : List (Text × OpDef))
    → KeepsNames to_upper operators
    → KeepsNames to_upper rows
    → All (λ row. All (λ a. (clean_name a ≡ a) × (is_empty a ≡ false)) (row.0 ∷ row.1.aliases)) rows
    → All
        (λ row.
          All
            (λ a. Dict.lookup a (by_alias same) ≡ some (row_operator row))
            (row.0 ∷ row.1.aliases))
        rows
    → All
        (λ row.
          All
            (λ a. resolve_operator to_upper dataowner (some a) ≡ row_operator row)
            (row.0 ∷ row.1.aliases))
        rows
table_rows_resolve to_upper dataowner [] k us cs fs = tt
table_rows_resolve to_upper dataowner ((key, def) ∷ rows) k (u, us) (c, cs) (f, fs) = (
  rows_resolve to_upper dataowner (row_operator (key, def)) (key ∷ def.aliases) k u c f,
  table_rows_resolve to_upper dataowner rows k us cs fs,
)

-- Every key and every alias of the curated table, given as the GTFS brand, is shown as the
-- operator of its own row, whatever the operational dataowner code is, where upper-casing keeps
-- the names of the table.
table_resolves :
    (to_upper : Text → Text) (dataowner : Text)
    → KeepsNames to_upper operators
    → All
        (λ row.
          All
            (λ a. resolve_operator to_upper dataowner (some a) ≡ row_operator row)
            (row.0 ∷ row.1.aliases))
        operators
table_resolves to_upper dataowner k =
    table_rows_resolve to_upper dataowner operators k k names_clean table_lookup

clean_nil : clean_name [] ≡ []
unfolding clean_name
clean_nil = refl

-- A brand that is left after cleaning decides the operator alone, as if there were no dataowner
-- code; a brand that is blank leaves the decision to the code, as if there were no brand.
pub brand_over_code :
    (to_upper : Text → Text) (code brand' : Text)
    → resolve_operator to_upper code (some brand') ≡ (
        if is_empty (clean_name brand')
        then resolve_operator to_upper code none
        else resolve_operator to_upper [] (some brand'))
unfolding resolve_operator
brand_over_code to_upper code brand' = elim (Bool-cases (is_empty (clean_name brand'))) [
  | inl blank ↦ rw (blank, clean_nil) refl
  | inr named ↦ rw named refl
]

-- No parenthesis stands in the text.
abbrev pub IsPlain : Text → Type 0
IsPlain s = All (λ c. (c ≢ b'(') × (c ≢ b')')) s

-- The last character, if there is one, is no space.
abbrev pub EndsSolid : Text → Type 0
EndsSolid [] = Unit
EndsSolid (c ∷ []) = is_space c ≡ false
EndsSolid (c ∷ d ∷ s) = EndsSolid (d ∷ s)

closes_plain : (x : Text) → IsPlain x → closes_group (x ++ b')' ∷ []) ≡ true
unfolding closes_group
closes_plain [] h = refl
closes_plain (c ∷ x) ((p, q), h) = ground (arith, closes_plain x h)

-- Before the name ends there is no group: a character that is no space and no parenthesis comes
-- first.
is_group_solid :
    (c : ℕ) (s rest : Text) → IsPlain (c ∷ s) → EndsSolid (c ∷ s) → is_group (c ∷ s ++ rest) ≡ false
unfolding is_group skip_space
is_group_solid c [] rest ((p, q), h) e = ground arith
is_group_solid c (d ∷ s) rest ((p, q), h) e = ground (arith, is_group_solid d s rest h e)

drop_group_solid :
    (s rest : Text) → IsPlain s → EndsSolid s → drop_group (s ++ rest) ≡ s ++ drop_group rest
unfolding drop_group
drop_group_solid [] rest h e = refl
drop_group_solid (c ∷ []) rest h e = rw (is_group_solid c [] rest h e) refl
drop_group_solid (c ∷ d ∷ s) rest h e =
    rw (is_group_solid c (d ∷ s) rest h e) (ap (◌∷◌ c) (drop_group_solid (d ∷ s) rest h.1 e))

is_group_space : (x : Text) → IsPlain x → is_group (b' ' ∷ b'(' ∷ x ++ b')' ∷ []) ≡ true
unfolding is_group is_space skip_space
is_group_space x h = closes_plain x h

-- A trailing group in parentheses, such as "(Keolis)" after "allGo", is dropped with the space
-- before it: only the name of the concession is left, trimmed.
pub clean_name-group :
    (name note : Text)
    → IsPlain name
    → EndsSolid name
    → IsPlain note
    → clean_name (name ++ (b' ' ∷ b'(' ∷ note ++ b')' ∷ [])) ≡ trim name
unfolding clean_name
clean_name-group name note h e k =
    rw (drop_group_solid name (b' ' ∷ b'(' ∷ note ++ b')' ∷ []) h e, drop_group)
      (rw (is_group_space note k, append-nil) refl)
