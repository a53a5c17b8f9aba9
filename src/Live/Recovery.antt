-- ===== src/Live/Recovery.antt =====
-- Losing a connection, and the watchdog on a connection that has gone silent.
use ovlive_platform.Live.Defs.{
  LiveClient, ConnStatus, Task, on_open, heartbeat_idle, on_close, reopen, on_message,
  heartbeat_grace, clear_heartbeat,
}
use ovlive_platform.Prelude.{
  ℕ, ◌*◌, ◌≤◌, ◌<◌, ◌≡◌, ◌≢◌, ◌↔◌, true, Option, some, ◌∷◌, arith, min, if◌then◌else◌,
}
use ovlive_platform.Types.{NormalizedUpdate}
use ovlive_platform.Live.Step.{Reach}
use ovlive_platform.Live.Connection.{Reach-IsSingle}
use ovlive_platform.Live.Heartbeat.{is_watch, Reach-IsWatched, watch_of}

module _ {R : Type 0} where
  -- In every run, a reconnect that is pending was given a delay between 500 and 30000 ms, and its
  -- timer is the one that the client can still cancel.
  pub reopen_in_order :
      {ms : ℕ} {c : LiveClient R} (t d : ℕ)
      → Reach ms c
      → c.timer t ≡ some (d, reopen)
      → (500 ≤ d) × (d ≤ 30000) × (c.retry_timer ≡ some t)
  reopen_in_order t d r e =
      let (lo, hi) = (Reach-IsWatched r).delay_range t d e in
      (lo, hi, (Reach-IsSingle r).reopen_retry t d e)

  -- In every run, at most one timer of the watchdog is pending, and it is the one that the client
  -- can still cancel.
  pub one_watch :
      {ms : ℕ} {c : LiveClient R} (t u d e : ℕ) (task task' : Task)
      → Reach ms c
      → c.timer t ≡ some (d, task)
      → is_watch task ≡ true
      → c.timer u ≡ some (e, task')
      → is_watch task' ≡ true
      → (t ≡ u) × (c.heartbeat_timer ≡ some t)
  one_watch t u d e task task' r p a q b =
      let w = Reach-IsWatched r in ground (arith, w.own_watch t d task, w.own_watch u e task')

  -- When the client's own socket closes, the application is told; unless it asked for the close,
  -- one reconnect is scheduled after the present delay, and the next delay is twice as long, up
  -- to 30000 ms. After a close that it asked for, no timer is added and the delay stays.
  pub on_close_own :
      (c : LiveClient R) (i : ℕ)
      → c.ws ≡ some i
      → ((on_close i c).statuses ≡ ConnStatus.closed ∷ c.statuses)
        × ((on_close i c).retry ≡ (if c.closed_by_user then c.retry else min (2 * c.retry) 30000))
        × ((on_close i c).retry_timer
            ≡ (if c.closed_by_user then c.retry_timer else some c.next_timer))
        × ((on_close i c).timer c.next_timer ≡ (
            if c.closed_by_user
            then (clear_heartbeat c).timer c.next_timer
            else some (c.retry, reopen)))
  unfolding on_close
  on_close_own c i e = (ground arith, ground arith, ground arith, ground arith)

  -- The close of a stale socket, one that the client has replaced, schedules no reconnect and
  -- tells the application nothing, but it takes away the watchdog of the current socket: in every
  -- run no timer of the watchdog is pending after it.
  pub stale_close_disarms :
      {ms : ℕ} {c : LiveClient R} (i j t d k : ℕ)
      → Reach ms c
      → c.ws ≡ some j
      → j ≢ i
      → (on_close i c).ws ≡ some j
        × ((on_close i c).statuses ≡ c.statuses)
        × (((on_close i c).timer t ≡ some (d, reopen)) ↔ (c.timer t ≡ some (d, reopen)))
        × ((on_close i c).timer t ≢ some (d, heartbeat_idle))
        × ((on_close i c).timer t ≢ some (d, heartbeat_grace k))
  unfolding on_close
  stale_close_disarms {c} i j t d k r e n =
      let w = Reach-IsWatched r in
      (
        ground arith,
        ground arith,
        ground (arith, w.apart t d),
        λ z. ground (arith, w.own_watch t d heartbeat_idle),
        λ z. ground (arith, w.own_watch t d (heartbeat_grace k)),
      )

  -- With the watchdog on, every frame (and the opening of the socket) starts it afresh: the timer
  -- that is pending is the idle timer, with the whole idle time.
  pub frame_rearms :
      (c : LiveClient R) (i : ℕ) (u : Option (NormalizedUpdate R))
      → 0 < c.heartbeat_ms
      → (watch_of (on_message u c).heartbeat_timer (on_message u c).timer
          ≡ some (c.heartbeat_ms, heartbeat_idle))
        × (watch_of (on_open i c).heartbeat_timer (on_open i c).timer
            ≡ some (c.heartbeat_ms, heartbeat_idle))
  unfolding on_message on_open
  frame_rearms c i u h = (ground arith, ground arith)
