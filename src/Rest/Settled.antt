-- ===== src/Rest/Settled.antt =====
-- What a request of RestClient leaves behind.
use ovlive_platform.Prelude.{
  ℕ, if◌then◌else◌, ◌≡◌, refl, Bool, true, false, Option, none, some, List, [], ◌∷◌, Text,
}
use ovlive_platform.Rest.Request.{
  Request, RequestEvent, Phase, Outcome, RestClient, start_get, sent_request, on_event, on_events,
  finish, abort, reject_in, respond_in, decode_in, on_deadline, body_of, aborted, failed,
  rest_error, fetching, reading, settled, caller_aborts, deadline, responds, decodes, breaks, is_ok,
}

-- No timer and no listener is left.
unfoldable pub IsReleased : {T : Type 0} → Request T → Type 0
IsReleased q = (q.timer ≡ none) × (q.listening ≡ false)

-- A request whose promise is settled is released.
unfoldable pub IsTidy : {T : Type 0} → Request T → Type 0
IsTidy {T} q = (r : Outcome T) → q.phase ≡ settled r → IsReleased q

finish-IsTidy : {T : Type 0} → (r : Outcome T) → (q : Request T) → IsTidy (finish r q)
unfolding IsTidy IsReleased finish
finish-IsTidy r q s e = (refl, refl)

if-IsTidy :
    {T : Type 0}
    → (b : Bool) → (q p : Request T) → IsTidy q
    → IsTidy p
    → IsTidy (if b then q else p)
if-IsTidy true q p t u = t
if-IsTidy false q p t u = u

reject_in-IsTidy :
    {T : Type 0}
    → (p : Phase T) → (r : Outcome T) → (q : Request T) → IsTidy q
    → IsTidy (reject_in p r q)
unfolding reject_in
reject_in-IsTidy fetching r q t = finish-IsTidy r q
reject_in-IsTidy reading r q t = finish-IsTidy r q
reject_in-IsTidy (settled _) r q t = t

reading-IsTidy : {T : Type 0} → (q : Request T) → IsTidy (record q { phase = reading })
unfolding IsTidy
reading-IsTidy q r e = absurd cc

respond_in-IsTidy :
    {T : Type 0}
    → (p : Phase T) → (status : ℕ) → (q : Request T) → IsTidy q
    → IsTidy (respond_in p status q)
unfolding respond_in
respond_in-IsTidy fetching status q t =
    if-IsTidy (is_ok status) _ _ (reading-IsTidy q) (finish-IsTidy (rest_error status q.path) q)
respond_in-IsTidy reading status q t = t
respond_in-IsTidy (settled _) status q t = t

decode_in-IsTidy :
    {T : Type 0}
    → (p : Phase T) → (body : Option T) → (q : Request T) → IsTidy q
    → IsTidy (decode_in p body q)
unfolding decode_in
decode_in-IsTidy fetching body q t = t
decode_in-IsTidy reading body q t = finish-IsTidy (body_of body) q
decode_in-IsTidy (settled _) body q t = t

abort-IsTidy : {T : Type 0} → (q : Request T) → IsTidy q → IsTidy (abort q)
unfolding abort
abort-IsTidy q t = reject_in-IsTidy q.phase aborted q t

on_deadline-IsTidy :
    {T : Type 0} → (o : Option ℕ) → (q : Request T) → IsTidy q → IsTidy (on_deadline o q)
unfolding on_deadline
on_deadline-IsTidy none q t = t
on_deadline-IsTidy (some _) q t = abort-IsTidy q t

on_event-IsTidy :
    {T : Type 0} → (e : RequestEvent T) → (q : Request T) → IsTidy q → IsTidy (on_event e q)
unfolding on_event
on_event-IsTidy caller_aborts q t = if-IsTidy q.listening (abort q) q (abort-IsTidy q t) t
on_event-IsTidy deadline q t = on_deadline-IsTidy q.timer q t
on_event-IsTidy (responds status) q t = respond_in-IsTidy q.phase status q t
on_event-IsTidy (decodes body) q t = decode_in-IsTidy q.phase body q t
on_event-IsTidy breaks q t = reject_in-IsTidy q.phase failed q t

sent-IsTidy :
    (T : Type 0)
    → (c : RestClient) → (path : Text) → (b : Bool)
    → IsTidy {T = T} (record (sent_request c path) { listening = b })
unfolding IsTidy sent_request
sent-IsTidy T c path b r e = absurd cc

start_get-IsTidy :
    (T : Type 0)
    → (c : RestClient) → (path : Text) → (signal : Option Bool)
    → IsTidy {T = T} (start_get c path signal)
unfolding start_get sent_request
start_get-IsTidy T c path none = sent-IsTidy T c path false
start_get-IsTidy T c path (some b) =
    if-IsTidy b _ _ (finish-IsTidy aborted (sent_request c path)) (sent-IsTidy T c path true)

on_events-IsTidy :
    {T : Type 0}
    → (es : List (RequestEvent T)) → (q : Request T) → IsTidy q
    → IsTidy (on_events es q)
unfolding on_events
on_events-IsTidy [] q t = t
on_events-IsTidy (e ∷ es) q t = on_events-IsTidy es (on_event e q) (on_event-IsTidy e q t)

-- In every run of a request, with or without a signal of the caller and whatever arrives in
-- whatever order, a promise that is settled leaves neither the deadline's timer nor the
-- listener on the caller's signal behind.
pub run-IsTidy :
    {T : Type 0}
    → (c : RestClient) → (path : Text) → (signal : Option Bool) → (es : List (RequestEvent T))
    → IsTidy (on_events es (start_get c path signal))
run-IsTidy c path signal es = on_events-IsTidy es _ (start_get-IsTidy _ c path signal)
