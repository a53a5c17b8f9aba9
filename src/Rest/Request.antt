-- ===== src/Rest/Request.antt =====
-- packages/api-types/src/rest.ts: the constructor of RestClient and `get`, as steps on the state
-- of one request: its deadline, its listener on the signal of the caller, and its promise.
use ovlive_platform.Prelude.{
  ℕ, Bool, true, false, ◌&&◌, Option, none, some, List, [], ◌∷◌, ◌++◌, if◌then◌else◌, leb, Text,
  is_empty, codes,
}

pub record RestOptions : Type 0 where
  pub api_key : Option Text
  pub timeout_ms : Option ℕ

-- The second argument of the constructor, when there is one.
pub data RestArgument : Type 0 where
  key : Text → RestArgument
  options : RestOptions → RestArgument

pub record RestClient : Type 0 where
  pub base_url : Text
  pub api_key : Option Text
  pub timeout_ms : ℕ

unfoldable pub options_of : Option RestArgument → RestOptions
options_of none = record { api_key = none; timeout_ms = none }
options_of (some (key k)) = record { api_key = some k; timeout_ms = none }
options_of (some (options o)) = o

abbrev pub timeout_of : Option ℕ → ℕ
timeout_of none = 10000
timeout_of (some ms) = ms

unfoldable pub new_rest_client : Text → Option RestArgument → RestClient
new_rest_client base_url opts =
    let o = options_of opts in
    record { base_url = base_url; api_key = o.api_key; timeout_ms = timeout_of o.timeout_ms }

-- The headers: an empty key is falsy.
unfoldable pub headers : Option Text → List (Text × Text)
headers none = []
headers (some k) = if is_empty k then [] else (codes "Authorization", codes "Bearer " ++ k) ∷ []

-- What the promise of `get` becomes: the value, a RestError, the rejection of an aborted fetch,
-- or that of a fetch or a body that failed.
pub data Outcome (T : Type 0) : Type 0 where
  value : T → Outcome T
  rest_error : ℕ → Text → Outcome T
  aborted : Outcome T
  failed : Outcome T

-- Where the body of the `try` stands.
pub data Phase (T : Type 0) : Type 0 where
  fetching : Phase T
  reading : Phase T
  settled : Outcome T → Phase T

pub record Request (T : Type 0) : Type 0 where
  pub url : Text
  pub path : Text
  pub sent : List (Text × Text)
  pub timer : Option ℕ
  pub listening : Bool
  pub phase : Phase T

-- What reaches a request: the abort of the caller's signal, the end of the deadline, the status
-- of the response, its decoded body (`none`: not JSON), and a failure of the network.
pub data RequestEvent (T : Type 0) : Type 0 where
  caller_aborts : RequestEvent T
  deadline : RequestEvent T
  responds : ℕ → RequestEvent T
  decodes : Option T → RequestEvent T
  breaks : RequestEvent T

-- The `finally`: the timer is cleared and the listener is removed.
unfoldable pub finish : {T : Type 0} → Outcome T → Request T → Request T
finish r q = record q { timer = none; listening = false; phase = settled r }

-- The request as it is sent, with its deadline running.
unfoldable pub sent_request : {T : Type 0} → RestClient → Text → Request T
sent_request c path = record {
  url = c.base_url ++ path;
  path = path;
  sent = headers c.api_key;
  timer = some c.timeout_ms;
  listening = false;
  phase = fetching;
}

-- The code up to the first `await`, with `signal?.aborted` of the caller's signal, if any. The
-- fetch of a signal that is aborted already rejects.
unfoldable pub start_get : {T : Type 0} → RestClient → Text → Option Bool → Request T
start_get c path none = sent_request c path
start_get c path (some is_aborted) =
    if is_aborted
    then finish aborted (sent_request c path)
    else record (sent_request c path) { listening = true }

-- `res.ok`.
unfoldable pub is_ok : ℕ → Bool
is_ok status = leb 200 status && leb status 299

unfoldable pub body_of : {T : Type 0} → Option T → Outcome T
body_of none = failed
body_of (some t) = value t

-- A rejection of what is awaited in a phase.
unfoldable pub reject_in : {T : Type 0} → Phase T → Outcome T → Request T → Request T
reject_in fetching r q = finish r q
reject_in reading r q = finish r q
reject_in (settled _) r q = q

-- `ac.abort()`, whose signal rejects the fetch or the reading of its body.
unfoldable pub abort : {T : Type 0} → Request T → Request T
abort q = reject_in q.phase aborted q

unfoldable pub respond_in : {T : Type 0} → Phase T → ℕ → Request T → Request T
respond_in fetching status q =
    if is_ok status then record q { phase = reading } else finish (rest_error status q.path) q
respond_in reading status q = q
respond_in (settled _) status q = q

unfoldable pub decode_in : {T : Type 0} → Phase T → Option T → Request T → Request T
decode_in fetching body q = q
decode_in reading body q = finish (body_of body) q
decode_in (settled _) body q = q

unfoldable pub on_deadline : {T : Type 0} → Option ℕ → Request T → Request T
on_deadline none q = q
on_deadline (some _) q = abort q

unfoldable pub on_event : {T : Type 0} → RequestEvent T → Request T → Request T
on_event caller_aborts q = if q.listening then abort q else q
on_event deadline q = on_deadline q.timer q
on_event (responds status) q = respond_in q.phase status q
on_event (decodes body) q = decode_in q.phase body q
on_event breaks q = reject_in q.phase failed q

unfoldable pub on_events : {T : Type 0} → List (RequestEvent T) → Request T → Request T
on_events [] q = q
on_events (e ∷ es) q = on_events es (on_event e q)

-- The paths of the two lists of metadata.
abbrev pub operators_path : Text
operators_path = codes "/v1/operators"

abbrev pub lines_path : Text
lines_path = codes "/v1/lines"
