-- ===== src/Live/Step.antt =====
-- The runs of a live client: calls of its methods by the application, and events that the browser
-- delivers, in any order that it can deliver them.
use ovlive_platform.Live.Defs.{
  LiveClient, ReadyState, Task, run_task, on_close, resume, update, set_state, on_error, set_pinned,
  put_at, connect, new_client, on_open, on_message, suspend,
}
use ovlive_platform.Prelude.{ℕ, ◌≡◌, ◌≢◌, Option, none, some, List, Text}
use ovlive_platform.Types.{BBox, NormalizedUpdate, FilterState}

-- A step of a run. The application connects only when it holds no connection. A socket opens only
-- while it is connecting, delivers messages only while it is open, and closes once; a timer fires
-- only while it is pending, and once.
pub data Step {R : Type 0} : LiveClient R → LiveClient R → Type 0 where
  connects :
      (c : LiveClient R) (b : BBox R) (zoom : ℕ) (f : FilterState)
      → c.ws ≡ none
      → Step c (connect b zoom f c)
  updates :
      (c : LiveClient R) (b : BBox R) (zoom : ℕ) (f : FilterState) → Step c (update b zoom f c)
  pins : (c : LiveClient R) (ids : List Text) → Step c (set_pinned ids c)
  suspends : (c : LiveClient R) → Step c (suspend c)
  resumes : (c : LiveClient R) → Step c (resume c)
  opens :
      (c : LiveClient R) (i : ℕ)
      → (c.socket i).state ≡ ReadyState.connecting
      → Step c (on_open i (set_state i ReadyState.opened c))
  receives :
      (c : LiveClient R) (i : ℕ) (u : Option (NormalizedUpdate R))
      → (c.socket i).state ≡ ReadyState.opened
      → Step c (on_message u c)
  closes :
      (c : LiveClient R) (i : ℕ)
      → (c.socket i).state ≢ ReadyState.closed
      → Step c (on_close i (set_state i ReadyState.closed c))
  fails : (c : LiveClient R) (i : ℕ) → Step c (on_error i c)
  fires :
      (c : LiveClient R) (t delay : ℕ) (task : Task)
      → c.timer t ≡ some (delay, task)
      → Step c (run_task task (record c { timer = put_at t none c.timer }))

-- The states that a new client can get to.
pub data Reach {R : Type 0} (heartbeat_ms : ℕ) : LiveClient R → Type 0 where
  start : Reach heartbeat_ms (new_client heartbeat_ms)
  next : {c d : LiveClient R} → Reach heartbeat_ms c → Step c d → Reach heartbeat_ms d
