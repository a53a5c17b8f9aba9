-- ===== src/Rest/Examples.antt =====
-- The theorems on queries and requests at a query of two parameters and at a slow body.
use ovlive_platform.Prelude.{
  map, keep_if, not, is_empty, ℕ, ◌≡◌, refl, false, Option, none, some, List, [], ◌∷◌, arith, ◌==◌,
  if◌then◌else◌, codes, Text, inl, inr, Bool-cases,
}
use ovlive_platform.Split.{Lacks}
use ovlive_platform.Rest.Request.{
  RestClient, RequestEvent, new_rest_client, options, options_of, responds, deadline, decodes,
  caller_aborts, on_events, on_event, start_get, sent_request, respond_in, decode_in, on_deadline,
  abort, reject_in, finish, is_ok, aborted,
}
use ovlive_platform.Rest.Settled.{run-IsTidy, IsReleased, IsTidy}
use ovlive_platform.Rest.Defs.{query}
use ovlive_platform.Rest.Readback.{read_query, query_read_back, text_of}

-- An encoding that escapes the separators, and the percent sign, by a letter after `%`.
abbrev escape : Text → Text
escape [] = []
escape (c ∷ s) =
    if c == b'%'
    then b'%' ∷ b'p' ∷ escape s
    else if c == b'&'
    then b'%' ∷ b'a' ∷ escape s
    else if c == b'='
    then b'%' ∷ b'e' ∷ escape s
    else c ∷ escape s

abbrev unescape : Text → Text
unescape [] = []
unescape (c ∷ []) = c ∷ []
unescape (c ∷ d ∷ s) =
    let rest = unescape s in
    let next = unescape (d ∷ s) in
    if c == b'%'
    then (if d == b'a' then b'&' ∷ rest else if d == b'e' then b'=' ∷ rest else b'%' ∷ rest)
    else c ∷ next

unescape-plain : (c : ℕ) (s : Text) → (c == b'%') ≡ false → unescape (c ∷ s) ≡ c ∷ unescape s
unescape-plain c [] h = refl
unescape-plain c (d ∷ s) h = rw h refl

unescape-escape : (s : Text) → unescape (escape s) ≡ s
unescape-escape [] = refl
unescape-escape (c ∷ s) = ground (arith, unescape-escape s, unescape-plain c (escape s))

escape-Lacks-ampersand : (s : Text) → Lacks b'&' (escape s)
escape-Lacks-ampersand [] = tt
escape-Lacks-ampersand (c ∷ s) = elim (Bool-cases (c == b'%')) [
  | inl p ↦ rw p (ground arith, (ground arith, escape-Lacks-ampersand s))
  | inr np ↦ elim (Bool-cases (c == b'&')) [
    | inl a ↦ rw (np, a) (ground arith, (ground arith, escape-Lacks-ampersand s))
    | inr na ↦ elim (Bool-cases (c == b'=')) [
      | inl e ↦ rw (np, na, e) (ground arith, (ground arith, escape-Lacks-ampersand s))
      | inr ne ↦ rw (np, na, ne) (ground arith, escape-Lacks-ampersand s)
    ]
  ]
]

escape-Lacks-equals : (s : Text) → Lacks b'=' (escape s)
escape-Lacks-equals [] = tt
escape-Lacks-equals (c ∷ s) = elim (Bool-cases (c == b'%')) [
  | inl p ↦ rw p (ground arith, (ground arith, escape-Lacks-equals s))
  | inr np ↦ elim (Bool-cases (c == b'&')) [
    | inl a ↦ rw (np, a) (ground arith, (ground arith, escape-Lacks-equals s))
    | inr na ↦ elim (Bool-cases (c == b'=')) [
      | inl e ↦ rw (np, na, e) (ground arith, (ground arith, escape-Lacks-equals s))
      | inr ne ↦ rw (np, na, ne) (ground arith, escape-Lacks-equals s)
    ]
  ]
]

abbrev two_params : List (Text × Option Text)
two_params =
    (codes "search", some (codes "a&b=c"))
    ∷ (codes "types", none)
    ∷ (codes "limit", some (codes "25"))
    ∷ []

query_read_back_example :
    read_query escape unescape (query escape two_params)
    ≡ map (λ p. (p.0, text_of p.1)) (keep_if (λ p. not (is_empty (text_of p.1))) two_params)
query_read_back_example =
    query_read_back escape unescape
      (record {
        undone = unescape-escape;
        no_ampersand = escape-Lacks-ampersand;
        no_equals = escape-Lacks-equals;
      })
      two_params

abbrev keyed_client : RestClient
keyed_client =
    new_rest_client (codes "https://api")
      (some (options (record { api_key = some (codes "k"); timeout_ms = none })))

-- The deadline ends while the body is read; what comes later finds the request settled.
abbrev slow_body : List (RequestEvent ℕ)
slow_body = responds 200 ∷ deadline ∷ decodes (some 7) ∷ caller_aborts ∷ []

run-IsTidy_example :
    IsReleased (on_events slow_body (start_get keyed_client (codes "/v1/lines") (some false)))
unfolding on_events on_event start_get sent_request new_rest_client options_of respond_in decode_in
    on_deadline abort reject_in finish is_ok IsTidy
run-IsTidy_example = run-IsTidy keyed_client (codes "/v1/lines") (some false) slow_body aborted refl
