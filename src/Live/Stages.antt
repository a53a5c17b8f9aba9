-- ===== src/Live/Stages.antt =====
-- packages/api-types/src/ws.ts: the stages of a connection on which nothing comes in any more.
use ovlive_platform.Prelude.{
  ℕ, suc, ◌+◌, ◌<◌, ◌≡◌, ◌≢◌, refl, sym, ap, subst, ◌∙◌, Option, none, some, List, ◌∷◌, arith,
}
use ovlive_platform.Live.Defs.{
  LiveClient, ReadyState, Task, Frame, reopen, heartbeat_idle, heartbeat_grace, ping, put_at,
  set_state, run_task, on_close,
}
use ovlive_platform.Live.Connection.{Reach-IsSingle}
use ovlive_platform.Live.Heartbeat.{Reach-IsWatched}
use ovlive_platform.Live.Step as LiveRun

abbrev set_for : Option (ℕ × Task) → ℕ × Task
set_for none = (0, reopen)
set_for (some s) = s

module _ {R : Type 0} where
  -- The state after timer `t` has fired.
  abbrev pub fire : ℕ → Task → LiveClient R → LiveClient R
  fire t task c = run_task task (record c { timer = put_at t none c.timer })

  -- `n` events in which nothing comes in on socket `i`: pending timers fire, whichever they are, and
  -- the close of the socket itself ends. `wait` adds up the delays of the timers.
  pub data Silence (i : ℕ) (c : LiveClient R) : (n wait : ℕ) → LiveClient R → Type 0 where
    begins : Silence i c 0 0 c
    fires :
        {n wait : ℕ} {d : LiveClient R} (t delay : ℕ) (task : Task)
        → Silence i c n wait d
        → d.timer t ≡ some (delay, task)
        → Silence i c (suc n) (wait + delay) (fire t task d)
    closes :
        {n wait : ℕ} {d : LiveClient R}
        → Silence i c n wait d
        → (d.socket i).state ≡ ReadyState.closing
        → Silence i c (suc n) wait (on_close i (set_state i ReadyState.closed d))

  -- In a run the client holds socket `i`, in state `st`, with `frames` sent on it; `r` is the delay of
  -- the next reconnect, and `n` the number of the next socket.
  pub record Holds (ms i : ℕ) (st : ReadyState) (frames : List (Frame R)) (r n : ℕ)
      (d : LiveClient R) : Type 0 where
    pub reach : LiveRun.Reach ms d
    pub ws : d.ws ≡ some i
    pub state : (d.socket i).state ≡ st
    pub sent : (d.socket i).sent ≡ frames
    pub retry : d.retry ≡ r
    pub fresh : d.next_socket ≡ n

  -- How far the silence has come, after so many events and so long a wait.
  pub data Stage (ms i idle r n : ℕ) (frames : List (Frame R)) : ℕ → ℕ → LiveClient R → Type 0 where
    listens :
        {d : LiveClient R} (t : ℕ)
        → Holds ms i ReadyState.opened frames r n d
        → d.heartbeat_timer ≡ some t
        → d.timer t ≡ some (idle, heartbeat_idle)
        → Stage ms i idle r n frames 0 0 d
    asks :
        {d : LiveClient R} (t : ℕ)
        → Holds ms i ReadyState.opened (ping ∷ frames) r n d
        → d.heartbeat_timer ≡ some t
        → d.timer t ≡ some (10000, heartbeat_grace i)
        → Stage ms i idle r n frames 1 (0 + idle) d
    gives_up :
        {d : LiveClient R} (t : ℕ)
        → Holds ms i ReadyState.closing (ping ∷ frames) r n d
        → d.heartbeat_timer ≡ some t
        → d.timer t ≡ none
        → Stage ms i idle r n frames 2 (0 + idle + 10000) d
    waits :
        {d : LiveClient R} (t q : ℕ)
        → Holds ms i ReadyState.closed (ping ∷ frames) q n d
        → d.heartbeat_timer ≡ none
        → d.timer t ≡ some (r, reopen)
        → Stage ms i idle r n frames 3 (0 + idle + 10000) d
    reconnects :
        {d : LiveClient R}
        → d.ws ≡ some n
        → (d.socket n).state ≡ ReadyState.connecting
        → (d.socket i).sent ≡ ping ∷ frames
        → Stage ms i idle r n frames 4 (0 + idle + 10000 + r) d

  -- While the socket is not closed, no reconnect is pending, and the watchdog has one timer.
  watch_alone :
      {ms i r n : ℕ} {st : ReadyState} {frames : List (Frame R)} {d : LiveClient R} (t x w : ℕ)
      (task : Task)
      → Holds ms i st frames r n d
      → st ≢ ReadyState.closed
      → d.heartbeat_timer ≡ some t
      → d.timer x ≡ some (w, task)
      → x ≡ t
  watch_alone t x w reopen h k e p =
      absurd (ground (arith, (Reach-IsSingle h.reach).reopen_closed x w p, h.ws, h.state))
  watch_alone t x w heartbeat_idle h k e p =
      ground (arith, (Reach-IsWatched h.reach).own_watch x w heartbeat_idle p refl)
  watch_alone t x w (heartbeat_grace j) h k e p =
      ground (arith, (Reach-IsWatched h.reach).own_watch x w (heartbeat_grace j) p refl)

  -- While the socket is closed, and the watchdog off, the reconnect has the one timer.
  reopen_alone :
      {ms i q n : ℕ} {st : ReadyState} {frames : List (Frame R)} {d : LiveClient R} (t x r w : ℕ)
      (task : Task)
      → Holds ms i st frames q n d
      → d.heartbeat_timer ≡ none
      → d.timer t ≡ some (r, reopen)
      → d.timer x ≡ some (w, task)
      → x ≡ t
  reopen_alone t x r w reopen h e p q = ground (
    arith,
    (Reach-IsSingle h.reach).reopen_retry x w q,
    (Reach-IsSingle h.reach).reopen_retry t r p,
  )
  reopen_alone t x r w heartbeat_idle h e p q =
      absurd (ground (arith, (Reach-IsWatched h.reach).own_watch x w heartbeat_idle q refl))
  reopen_alone t x r w (heartbeat_grace j) h e p q =
      absurd (ground (arith, (Reach-IsWatched h.reach).own_watch x w (heartbeat_grace j) q refl))

  -- What is known of the timer that fires, from the one that is pending.
  same_timer :
      {x t : ℕ} {a b : ℕ × Task} (d : LiveClient R)
      → x ≡ t
      → d.timer x ≡ some a
      → d.timer t ≡ some b
      → b ≡ a
  same_timer d e p q = ap set_for (sym q ∙ ap d.timer (sym e) ∙ p)

  module _ {ms i idle r n : ℕ} {frames : List (Frame R)} {d : LiveClient R} (x : ℕ) where
    ask :
        Holds ms i ReadyState.opened frames r n d
        → d.timer x ≡ some (idle, heartbeat_idle)
        → Stage ms i idle r n frames 1 (0 + idle) (fire x heartbeat_idle d)
    unfolding run_task
    ask h q =
        Stage.asks d.next_timer
          (record {
            reach = LiveRun.Reach.next h.reach (LiveRun.Step.fires d x idle heartbeat_idle q);
            ws = ground (arith, h.ws);
            state = ground (arith, h.ws, h.state);
            sent = ground (arith, h.ws, h.state, h.sent);
            retry = ground (arith, h.retry);
            fresh = ground (arith, h.fresh);
          })
          (ground (arith, h.ws, h.state)) (ground (arith, h.ws, h.state))

    give_up :
        (t : ℕ)
        → Holds ms i ReadyState.opened (ping ∷ frames) r n d
        → d.heartbeat_timer ≡ some t
        → x ≡ t
        → d.timer x ≡ some (10000, heartbeat_grace i)
        → Stage ms i idle r n frames 2 (0 + idle + 10000) (fire x (heartbeat_grace i) d)
    unfolding run_task
    give_up t h e same q =
        Stage.gives_up t
          (record {
            reach = LiveRun.Reach.next h.reach (LiveRun.Step.fires d x 10000 (heartbeat_grace i) q);
            ws = h.ws;
            state = ground (arith, h.state);
            sent = ground (arith, h.sent);
            retry = h.retry;
            fresh = h.fresh;
          })
          e (ground (arith, same))

    come_back :
        {q : ℕ}
        → Holds ms i ReadyState.closed (ping ∷ frames) q n d
        → i ≢ n
        → Stage ms i idle r n frames 4 (0 + idle + 10000 + r) (fire x reopen d)
    unfolding run_task
    come_back h other =
        Stage.reconnects (ground (arith, h.fresh)) (ground (arith, h.fresh))
          (ground (arith, h.fresh, h.sent))

  module _ {ms i idle r n : ℕ} {frames : List (Frame R)} (other : i ≢ n) where
    -- From each stage a timer that fires leads to the next one.
    pub fire-Stage :
        {k wait : ℕ} {d : LiveClient R} (x w : ℕ) (task : Task)
        → Stage ms i idle r n frames k wait d
        → k < 4
        → d.timer x ≡ some (w, task)
        → Stage ms i idle r n frames (suc k) (wait + w) (fire x task d)
    fire-Stage {d = d} x w task (Stage.listens t h e p) b q =
        let same = watch_alone t x w task h (ground arith) e q in
        subst (λ s. Stage ms i idle r n frames 1 (0 + s.0) (fire x s.1 d)) (same_timer d same q p)
          (ask x h (ap d.timer same ∙ p))
    fire-Stage {d = d} x w task (Stage.asks t h e p) b q =
        let same = watch_alone t x w task h (ground arith) e q in
        subst (λ s. Stage ms i idle r n frames 2 (0 + idle + s.0) (fire x s.1 d))
          (same_timer d same q p) (give_up x t h e same (ap d.timer same ∙ p))
    fire-Stage x w task (Stage.gives_up t h e p) b q =
        absurd (ground (arith, watch_alone t x w task h (ground arith) e q))
    fire-Stage {d = d} x w task (Stage.waits t u h e p) b q =
        let same = reopen_alone t x r w task h e p q in
        subst (λ s. Stage ms i idle r n frames 4 (0 + idle + 10000 + s.0) (fire x s.1 d))
          (same_timer d same q p) (come_back x h other)
    fire-Stage x w task (Stage.reconnects h e p) b q = absurd (omega arith)

    pub close-Stage :
        {k wait : ℕ} {d : LiveClient R}
        → Stage ms i idle r n frames k wait d
        → k < 4
        → (d.socket i).state ≡ ReadyState.closing
        → Stage ms i idle r n frames (suc k) wait (on_close i (set_state i ReadyState.closed d))
    unfolding on_close
    close-Stage (Stage.listens t h e p) b q = absurd (ground (arith, h.state))
    close-Stage (Stage.asks t h e p) b q = absurd (ground (arith, h.state))
    close-Stage {d = d} (Stage.gives_up t h e p) b q =
        let up = (Reach-IsSingle h.reach).suspended in
        Stage.waits d.next_timer _
          (record {
            reach = LiveRun.Reach.next h.reach (LiveRun.Step.closes d i (ground (arith, q)));
            ws = ground (arith, h.ws);
            state = ground (arith, h.state);
            sent = ground (arith, h.sent);
            retry = refl;
            fresh = ground (arith, h.fresh);
          })
          (ground (arith, h.ws, up)) (ground (arith, h.ws, h.retry, up))
    close-Stage (Stage.waits t u h e p) b q = absurd (ground (arith, h.state))
    close-Stage (Stage.reconnects h e p) b q = absurd (omega arith)
