-- ===== src/Rest/Readback.antt =====
-- What a server and the app read from the texts that the clients build.
use ovlive_platform.Prelude.{
  ◌≡◌, refl, ◌≢◌, Bool, Option, some, List, [], ◌∷◌, ◌++◌, map, arith, ◌==◌, if◌then◌else◌,
  All-append, All, Text, ap, ◌∙◌, true, false, codes, text_eq, not, is_empty, keep_if, none,
}
use ovlive_platform.Split.{split_on, Lacks, split_on-join_with, join_with}
use ovlive_platform.Rest.Defs.{
  query, parse_marker_key, marker_key, present, query_of, encode_pair, is_sel, key_of_parts,
}

-- The text before and after the first `=`.
abbrev pub cut_pair : Text → Text × Text
cut_pair [] = ([], [])
cut_pair (c ∷ s) = if c == b'=' then ([], s) else ((c ∷ (cut_pair s).0), (cut_pair s).1)

cut_pair-append : (k v : Text) → Lacks b'=' k → cut_pair (k ++ b'=' ∷ v) ≡ (k, v)
cut_pair-append [] v h = refl
cut_pair-append (c ∷ k) v (n, h) = ground (arith, cut_pair-append k v h)

-- The value of a parameter, empty where it has none.
abbrev pub text_of : Option Text → Text
text_of none = []
text_of (some v) = v

present_lem :
    (params : List (Text × Option Text))
    → present params
      ≡ map (λ p. (p.0, text_of p.1)) (keep_if (λ p. not (is_empty (text_of p.1))) params)
unfolding present
present_lem [] = refl
present_lem ((k, none) ∷ params) = present_lem params
present_lem ((k, some []) ∷ params) = present_lem params
present_lem ((k, some (c ∷ v)) ∷ params) = ap (λ ps. (k, c ∷ v) ∷ ps) (present_lem params)

-- What a percent-encoding is documented to do: it can be undone, and it leaves no separator.
pub record IsEncoding (encode decode : Text → Text) : Type 0 where
  pub undone : (s : Text) → decode (encode s) ≡ s
  pub no_ampersand : (s : Text) → Lacks b'&' (encode s)
  pub no_equals : (s : Text) → Lacks b'=' (encode s)

module _ (encode decode : Text → Text) where
  abbrev pub read_pair : Text → Text × Text
  read_pair s = (decode (cut_pair s).0, decode (cut_pair s).1)

  -- The parameters that a server reads from a query.
  abbrev pub read_query : Text → List (Text × Text)
  read_query [] = []
  read_query (c ∷ s) = map read_pair (split_on b'&' s)

  module _ (law : IsEncoding encode decode) where
    pair_back : (k v : Text) → read_pair (encode_pair encode (k, v)) ≡ (k, v)
    pair_back k v =
        ap (λ c. (decode c.0, decode c.1)) (cut_pair-append (encode k) (encode v) (law.no_equals k))
        ∙ rw (law.undone k, law.undone v) refl

    pairs_back : (ps : List (Text × Text)) → map read_pair (map (encode_pair encode) ps) ≡ ps
    pairs_back [] = refl
    pairs_back ((k, v) ∷ ps) =
        ap (λ p. p ∷ map read_pair (map (encode_pair encode) ps)) (pair_back k v)
        ∙ ap (λ qs. (k, v) ∷ qs) (pairs_back ps)

    pairs-Lacks : (ps : List (Text × Text)) → All (Lacks b'&') (map (encode_pair encode) ps)
    pairs-Lacks [] = tt
    pairs-Lacks ((k, v) ∷ ps) = (
      All-append (λ d. d ≢ b'&') (encode k) (b'=' ∷ encode v) (law.no_ampersand k)
          ((ground arith), law.no_ampersand v),
      pairs-Lacks ps,
    )

    present_read_back :
        (ps : List (Text × Text)) → read_query (query_of encode (map (encode_pair encode) ps)) ≡ ps
    present_read_back [] = refl
    present_read_back (p ∷ ps) =
        ap (map read_pair) (
          split_on-join_with b'&' (encode_pair encode p) (map (encode_pair encode) ps)
            (pairs-Lacks (p ∷ ps)))
        ∙ pairs_back (p ∷ ps)

    -- From the query that the client builds, a server reads the parameters that have a value which is
    -- not empty, and no others, in their order, whatever characters their values have.
    pub query_read_back :
        (params : List (Text × Option Text))
        → read_query (query encode params)
          ≡ map (λ p. (p.0, text_of p.1)) (keep_if (λ p. not (is_empty (text_of p.1))) params)
    unfolding query
    query_read_back params = present_read_back (present params) ∙ present_lem params

key_dark :
    (owner line : Text) (dark : Bool) (rest : List Text)
    → key_of_parts (codes "m" ∷ owner ∷ line ∷ ((if dark then b'd' else b'l') ∷ []) ∷ rest)
      ≡ some (record { owner = owner; line = line; dark = dark; selected = is_sel rest })
unfolding key_of_parts text_eq
key_dark owner line true rest = refl
key_dark owner line false rest = refl

-- The parts of a key.
abbrev tail_parts : Bool → List Text
tail_parts true = codes "sel" ∷ []
tail_parts false = []

key_joined :
    (owner line : Text) (dark selected : Bool)
    → marker_key owner line dark selected
      ≡ join_with b'|'
          (codes "m" ∷ owner ∷ line ∷ ((if dark then b'd' else b'l') ∷ []) ∷ tail_parts selected)
unfolding marker_key join_with
key_joined owner line dark true = refl
key_joined owner line dark false = refl

tail-Lacks :
    (dark selected : Bool)
    → All (Lacks b'|') (((if dark then b'd' else b'l') ∷ []) ∷ tail_parts selected)
tail-Lacks dark true = (ground arith, (ground arith, tt))
tail-Lacks dark false = (ground arith, tt)

tail_sel : (selected : Bool) → is_sel (tail_parts selected) ≡ selected
unfolding text_eq
tail_sel true = refl
tail_sel false = refl

-- The key of a marker's image gives back what it was made from, where neither the operator nor
-- the line has a bar.
marker_key_back :
    (owner line : Text) (dark selected : Bool)
    → Lacks b'|' owner
    → Lacks b'|' line
    → parse_marker_key (marker_key owner line dark selected)
      ≡ some (record { owner = owner; line = line; dark = dark; selected = selected })
unfolding parse_marker_key
marker_key_back owner line dark selected ho hl =
    rw (parse_marker_key, key_joined owner line dark selected)
      (ap key_of_parts (
          split_on-join_with b'|' (codes "m")
            (owner ∷ line ∷ ((if dark then b'd' else b'l') ∷ []) ∷ tail_parts selected)
            (ground arith, (ho, (hl, tail-Lacks dark selected))))
        ∙ key_dark owner line dark (tail_parts selected)
        ∙ ap (λ b. some (record { owner = owner; line = line; dark = dark; selected = b }))
            (tail_sel selected))
