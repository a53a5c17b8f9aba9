-- ===== src/Live/Silence.antt =====
-- packages/api-types/src/ws.ts: a connection on which nothing comes in any more.
use ovlive_platform.Prelude.{ℕ, suc, ◌+◌, ◌≤◌, ◌<◌, ◌≡◌, ◌≢◌, Option, some, List, ◌∷◌, arith}
use ovlive_platform.Types.{NormalizedUpdate}
use ovlive_platform.Live.Defs.{
  LiveClient, ReadyState, Frame, reopen, heartbeat_idle, heartbeat_grace, ping, run_task, on_close,
  on_message, connect, update, set_pinned, send, suspend, resume, on_open, on_error, new_client,
}
use ovlive_platform.Live.Heartbeat.{Reach-IsWatched}
use ovlive_platform.Live.Stages.{Silence, Stage, fire-Stage, close-Stage}
use ovlive_platform.Live.Step as LiveRun

module _ {R : Type 0} where
  module _ {ms i idle r n : ℕ} {frames : List (Frame R)} (other : i ≢ n) where
    Silence-Stage :
        {c d : LiveClient R} {k wait : ℕ}
        → Silence i c k wait d
        → k ≤ 4
        → Stage ms i idle r n frames 0 0 c
        → Stage ms i idle r n frames k wait d
    Silence-Stage Silence.begins b h = h
    Silence-Stage (Silence.fires t w task s q) b h =
        fire-Stage other t w task (Silence-Stage s (omega (arith, b)) h) (omega (arith, b)) q
    Silence-Stage (Silence.closes s q) b h =
        close-Stage other (Silence-Stage s (omega (arith, b)) h) (omega (arith, b)) q

  -- A stage before the last has an event.
  goes_on :
      {ms i idle r n : ℕ} {frames : List (Frame R)} {c d : LiveClient R} {k wait : ℕ}
      → Silence i c k wait d
      → Stage ms i idle r n frames k wait d
      → k < 4
      → (wait' : ℕ) × (e : LiveClient R) × Silence i c (suc k) wait' e
  goes_on {d = d} s (Stage.listens t h e p) b = (_, _, Silence.fires t _ _ s p)
  goes_on s (Stage.asks t h e p) b = (_, _, Silence.fires t _ _ s p)
  goes_on s (Stage.gives_up t h e p) b = (_, _, Silence.closes s h.state)
  goes_on s (Stage.waits t u h e p) b = (_, _, Silence.fires t _ _ s p)
  goes_on s (Stage.reconnects h e p) b = absurd (omega arith)

  abbrev IsNumbered : LiveClient R → Type 0
  IsNumbered c = (i : ℕ) → c.ws ≡ some i → i < c.next_socket

  Step-IsNumbered : {c d : LiveClient R} → LiveRun.Step c d → IsNumbered c → IsNumbered d
  unfolding connect update set_pinned send suspend resume on_open on_message on_close on_error
  Step-IsNumbered (LiveRun.Step.connects c b zoom f e) h i k = ground arith
  Step-IsNumbered (LiveRun.Step.updates c b zoom f) h i k = ground (arith, h i)
  Step-IsNumbered (LiveRun.Step.pins c ids) h i k = ground (arith, h i)
  Step-IsNumbered (LiveRun.Step.suspends c) h i k = ground (arith, h i)
  Step-IsNumbered (LiveRun.Step.resumes c) h i k = ground (arith, h i)
  Step-IsNumbered (LiveRun.Step.opens c j e) h i k = ground (arith, h i)
  Step-IsNumbered (LiveRun.Step.receives c j u e) h i k = ground (arith, h i)
  Step-IsNumbered (LiveRun.Step.closes c j e) h i k = ground (arith, h i)
  Step-IsNumbered (LiveRun.Step.fails c j) h i k = ground (arith, h i)
  Step-IsNumbered (LiveRun.Step.fires c t delay reopen e) h i k = unfold run_task in ground arith
  Step-IsNumbered (LiveRun.Step.fires c t delay heartbeat_idle e) h i k =
      unfold run_task in ground (arith, h i)
  Step-IsNumbered (LiveRun.Step.fires c t delay (heartbeat_grace j) e) h i k =
      unfold run_task in ground (arith, h i)

  Reach-IsNumbered : {ms : ℕ} {c : LiveClient R} → LiveRun.Reach ms c → IsNumbered c
  unfolding new_client
  Reach-IsNumbered LiveRun.Reach.start i k = ground arith
  Reach-IsNumbered (LiveRun.Reach.next r s) i k = Step-IsNumbered s (Reach-IsNumbered r) i k

  -- A message has just come in.
  heard :
      {ms : ℕ} {c : LiveClient R} (i : ℕ) (u : Option (NormalizedUpdate R))
      → LiveRun.Reach ms c
      → 0 < c.heartbeat_ms
      → c.ws ≡ some i
      → (c.socket i).state ≡ ReadyState.opened
      → Stage ms i c.heartbeat_ms c.retry c.next_socket (c.socket i).sent 0 0 (on_message u c)
  unfolding on_message
  heard {c = c} i u r on e o =
      Stage.listens c.next_timer
        (record {
          reach = LiveRun.Reach.next r (LiveRun.Step.receives c i u o);
          ws = ground (arith, e);
          state = ground (arith, o);
          sent = ground arith;
          retry = ground arith;
          fresh = ground arith;
        })
        (ground (arith, on)) (ground (arith, on))

  stage_of :
      {ms i idle r n : ℕ} {frames : List (Frame R)} {d : LiveClient R} {wait : ℕ}
      → Stage ms i idle r n frames 4 wait d
      → (d.ws ≡ some n)
        × ((d.socket n).state ≡ ReadyState.connecting)
        × ((d.socket i).sent ≡ ping ∷ frames)
        × (wait ≡ idle + 10000 + r)
  stage_of (Stage.reconnects h e p) = (h, e, p, omega arith)

  -- In every run with the watchdog on, after a message on the client's open socket, while nothing else
  -- comes in: at each of the first four events there is one to come, a timer that is pending or the
  -- close of the socket that the client has closed; and whichever timers fire, after four events the
  -- client has sent a ping and holds a new socket, which is connecting. The timers waited for are the
  -- idle time, 10000 ms, and the delay of a reconnect, of at most 30000 ms.
  pub quiet_socket_reconnects :
      {ms : ℕ} {c d e : LiveClient R} {k v w : ℕ} (i : ℕ) (u : Option (NormalizedUpdate R))
      → LiveRun.Reach ms c
      → 0 < c.heartbeat_ms
      → c.ws ≡ some i
      → (c.socket i).state ≡ ReadyState.opened
      → k < 4
      → Silence i (on_message u c) k v d
      → Silence i (on_message u c) 4 w e
      → ((v' : ℕ) × (d' : LiveClient R) × Silence i (on_message u c) (suc k) v' d')
        × ((e.socket i).sent ≡ ping ∷ (c.socket i).sent)
        × (e.ws ≡ some c.next_socket)
        × ((e.socket c.next_socket).state ≡ ReadyState.connecting)
        × (w ≡ c.heartbeat_ms + 10000 + c.retry)
        × (w ≤ c.heartbeat_ms + 40000)
  quiet_socket_reconnects {c = c} i u r on x o b s t =
      let h = heard i u r on x o in
      let known = Reach-IsNumbered r i x in
      let other : i ≢ c.next_socket = λ z. ground (arith, known, z) in
      let (ws, new, asked, waited) = stage_of (Silence-Stage other t (omega arith) h) in
      (
        goes_on s (Silence-Stage other s (omega (arith, b)) h) b,
        asked,
        ws,
        new,
        waited,
        omega (arith, waited, (Reach-IsWatched r).capped),
      )
