-- ===== src/Live/Defs.antt =====
-- packages/api-types/src/ws.ts: the class `LiveClient`. A socket and a timer are numbers, handed
-- out in order; what the browser keeps about them (`readyState`, the frames sent, the pending
-- timers) is part of the state. A call of a handler is recorded, newest first.
use ovlive_platform.Types.{BBox, FilterState, NormalizedUpdate}
use ovlive_platform.Prelude.{
  ℕ, suc, ◌*◌, Bool, true, false, Option, none, some, List, [], ◌∷◌, min, ◌==◌, if◌then◌else◌, Text,
}

pub data ConnStatus : Type 0 where
  connecting opened closed : ConnStatus

-- `WebSocket.readyState`.
pub data ReadyState : Type 0 where
  connecting opened closing closed : ReadyState

pub record ViewportMsg (R : Type 0) : Type 0 where
  pub viewport : BBox R
  pub zoom : ℕ
  pub filters : FilterState
  pub pinned : List Text

pub data Frame (R : Type 0) : Type 0 where
  subscribe : ViewportMsg R → Frame R
  update_viewport : ViewportMsg R → Frame R
  ping : Frame R

-- Frames sent, newest first.
pub record Socket (R : Type 0) : Type 0 where
  pub state : ReadyState
  pub sent : List (Frame R)

-- The callbacks that the class hands to `setTimeout`.
pub data Task : Type 0 where
  reopen : Task
  heartbeat_idle : Task
  heartbeat_grace : ℕ → Task

pub record View (R : Type 0) : Type 0 where
  pub bbox : BBox R
  pub zoom : ℕ
  pub filters : FilterState

pub record LiveClient (R : Type 0) : Type 0 where
  pub ws : Option ℕ
  pub view : Option (View R)
  pub pinned : List Text
  pub closed_by_user : Bool
  pub retry : ℕ
  pub retry_timer : Option ℕ
  pub heartbeat_timer : Option ℕ
  pub heartbeat_ms : ℕ
  pub socket : ℕ → Socket R
  pub next_socket : ℕ
  pub timer : ℕ → Option (ℕ × Task)
  pub next_timer : ℕ
  pub statuses : List ConnStatus
  pub updates : List (NormalizedUpdate R)

abbrev pub heartbeat_grace_ms : ℕ
heartbeat_grace_ms = 10000

abbrev pub retry_max_ms : ℕ
retry_max_ms = 30000

abbrev pub is_open : ReadyState → Bool
is_open ReadyState.opened = true
is_open _ = false

-- A map with one place changed.
abbrev pub put_at {ℓ} : {A : Type ℓ} → ℕ → A → (ℕ → A) → ℕ → A
put_at i x f j = if j == i then x else f j

-- What `ws.close()` does to the state.
abbrev pub close_state : ReadyState → ReadyState
close_state ReadyState.closed = ReadyState.closed
close_state _ = ReadyState.closing

-- `this.ws === ws`.
abbrev pub is_ws : Option ℕ → ℕ → Bool
is_ws none i = false
is_ws (some j) i = j == i

module _ {R : Type 0} where
  abbrev pub viewport_msg : View R → List Text → ViewportMsg R
  viewport_msg v pinned = record {
    viewport = v.bbox;
    zoom = v.zoom;
    filters = v.filters;
    pinned = pinned;
  }

  -- `setTimeout(task, delay)`: the number of the timer is `next_timer`.
  abbrev pub set_timeout : ℕ → Task → LiveClient R → LiveClient R
  set_timeout delay task c = record c {
    timer = put_at c.next_timer (some (delay, task)) c.timer;
    next_timer = suc c.next_timer;
  }

  -- `if (t) clearTimeout(t)`.
  abbrev pub clear_timeout : Option ℕ → LiveClient R → LiveClient R
  clear_timeout none c = c
  clear_timeout (some t) c = record c { timer = put_at t none c.timer }

  -- `ws.send(frame)` on a socket that is open.
  abbrev pub send_on : ℕ → Frame R → LiveClient R → LiveClient R
  send_on i frame c = record c {
    socket =
        put_at i (record { state = (c.socket i).state; sent = frame ∷ (c.socket i).sent }) c.socket;
  }

  abbrev pub set_state : ℕ → ReadyState → LiveClient R → LiveClient R
  set_state i s c = record c {
    socket = put_at i (record { state = s; sent = (c.socket i).sent }) c.socket;
  }

  -- `ws.close()`: the close event comes later.
  abbrev pub close_socket : ℕ → LiveClient R → LiveClient R
  close_socket i c = set_state i (close_state (c.socket i).state) c

  abbrev pub on_status : ConnStatus → LiveClient R → LiveClient R
  on_status s c = record c { statuses = s ∷ c.statuses }

  -- `new LiveClient(…)`; no socket and no timer exists.
  unfoldable pub new_client : ℕ → LiveClient R
  new_client heartbeat_ms = record {
    ws = none;
    view = none;
    pinned = [];
    closed_by_user = false;
    retry = 500;
    retry_timer = none;
    heartbeat_timer = none;
    heartbeat_ms = heartbeat_ms;
    socket = λ i. record { state = ReadyState.closed; sent = [] };
    next_socket = 0;
    timer = λ t. none;
    next_timer = 0;
    statuses = [];
    updates = [];
  }

  unfoldable pub open_socket : LiveClient R → LiveClient R
  open_socket c = record (on_status ConnStatus.connecting c) {
    ws = some c.next_socket;
    socket = put_at c.next_socket (record { state = ReadyState.connecting; sent = [] }) c.socket;
    next_socket = suc c.next_socket;
  }

  unfoldable pub connect : BBox R → ℕ → FilterState → LiveClient R → LiveClient R
  unfolding open_socket
  connect bbox zoom filters c = open_socket (record c {
    view = some (record { bbox = bbox; zoom = zoom; filters = filters });
    closed_by_user = false;
  })

  unfoldable pub clear_heartbeat : LiveClient R → LiveClient R
  clear_heartbeat c = record (clear_timeout c.heartbeat_timer c) { heartbeat_timer = none }

  unfoldable pub arm_heartbeat : LiveClient R → LiveClient R
  unfolding clear_heartbeat
  arm_heartbeat c =
      let cleared = clear_heartbeat c in
      if c.heartbeat_ms == 0
      then cleared
      else record (set_timeout c.heartbeat_ms heartbeat_idle cleared) {
        heartbeat_timer = some cleared.next_timer;
      }

  -- The callback of the heartbeat's first timer.
  unfoldable pub on_idle : LiveClient R → LiveClient R
  on_idle c = elim c.ws [
    | none ↦ c
    | some i ↦
        if is_open (c.socket i).state
        then record (set_timeout heartbeat_grace_ms (heartbeat_grace i) (send_on i ping c)) {
          heartbeat_timer = some c.next_timer;
        }
        else c
  ]

  -- `ws.onopen` of socket `i`.
  unfoldable pub on_open : ℕ → LiveClient R → LiveClient R
  unfolding arm_heartbeat
  on_open i c =
      let armed = on_status ConnStatus.opened (arm_heartbeat (record c { retry = 500 })) in
      elim c.view [ none ↦ armed | some v ↦ send_on i (subscribe (viewport_msg v c.pinned)) armed ]

  -- `ws.onmessage`; `none` is a frame with no update (a pong or a server error).
  unfoldable pub on_message : Option (NormalizedUpdate R) → LiveClient R → LiveClient R
  unfolding arm_heartbeat
  on_message none c = arm_heartbeat c
  on_message (some u) c = record (arm_heartbeat c) { updates = u ∷ c.updates }

  -- `ws.onclose` of socket `i`.
  unfoldable pub on_close : ℕ → LiveClient R → LiveClient R
  unfolding clear_heartbeat
  on_close i c =
      let cleared = clear_heartbeat c in
      if is_ws c.ws i
      then (if c.closed_by_user
          then on_status ConnStatus.closed cleared
          else record (set_timeout c.retry reopen (on_status ConnStatus.closed cleared)) {
            retry_timer = some cleared.next_timer;
            retry = min (c.retry * 2) retry_max_ms;
          })
      else cleared

  -- `ws.onerror` of socket `i`.
  unfoldable pub on_error : ℕ → LiveClient R → LiveClient R
  on_error i c = close_socket i c

  unfoldable pub send : LiveClient R → LiveClient R
  send c = elim c.view [
    | none ↦ c
    | some v ↦ elim c.ws [
      | none ↦ c
      | some i ↦
          if is_open (c.socket i).state
          then send_on i (update_viewport (viewport_msg v c.pinned)) c
          else c
    ]
  ]

  unfoldable pub update : BBox R → ℕ → FilterState → LiveClient R → LiveClient R
  unfolding send
  update bbox zoom filters c =
      send (record c { view = some (record { bbox = bbox; zoom = zoom; filters = filters }) })

  unfoldable pub set_pinned : List Text → LiveClient R → LiveClient R
  unfolding send
  set_pinned ids c = send (record c { pinned = ids })

  abbrev pub close_ws : Option ℕ → LiveClient R → LiveClient R
  close_ws none c = c
  close_ws (some i) c = close_socket i c

  unfoldable pub suspend : LiveClient R → LiveClient R
  unfolding clear_heartbeat
  suspend c = on_status ConnStatus.closed (
      close_ws c.ws
        (record (clear_heartbeat (record (clear_timeout c.retry_timer c) { retry_timer = none })) {
          closed_by_user = true;
          ws = none;
        }))

  unfoldable pub resume : LiveClient R → LiveClient R
  unfolding open_socket
  resume c = elim c.ws [
    | some _ ↦ c
    | none ↦ elim c.view [
      | none ↦ c
      | some _ ↦ open_socket (record c { closed_by_user = false; retry = 500 })
    ]
  ]

  unfoldable pub close : LiveClient R → LiveClient R
  unfolding suspend
  close c = suspend c

  unfoldable pub run_task : Task → LiveClient R → LiveClient R
  unfolding open_socket on_idle
  run_task reopen c = open_socket c
  run_task heartbeat_idle c = on_idle c
  run_task (heartbeat_grace i) c = close_socket i c
