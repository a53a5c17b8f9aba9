-- ===== src/Live/Heartbeat.antt =====
-- The reconnect delay and the liveness watchdog, in every run.
use ovlive_platform.Live.Defs.{
  LiveClient, ReadyState, Task, arm_heartbeat, heartbeat_idle, put_at, on_close, heartbeat_grace,
  new_client, on_idle, reopen, suspend, on_error, update, connect, resume, on_open, send,
  set_pinned, set_state, on_message, run_task,
}
use ovlive_platform.Prelude.{
  ℕ, ◌≤◌, ◌<◌, ◌≡◌, refl, ap, ◌≢◌, ◌⊎◌, Bool, true, false, Option, none, some, arith, ◌∙◌, inl, inr,
}
use ovlive_platform.Types.{NormalizedUpdate}
use ovlive_platform.Live.Step.{
  suspends, resumes, receives, Step, pins, next, start, updates, closes, fails, fires, opens, Reach,
  connects,
}

-- The timers of the watchdog.
abbrev pub is_watch : Task → Bool
is_watch reopen = false
is_watch heartbeat_idle = true
is_watch (heartbeat_grace i) = true

-- What the watchdog will do, if one of its timers is pending.
abbrev pub watch_of : Option ℕ → (ℕ → Option (ℕ × Task)) → Option (ℕ × Task)
watch_of none timer = none
watch_of (some t) timer = timer t

module _ {R : Type 0} where
  pub record IsWatched (c : LiveClient R) : Type 0 where
    pub slow : 500 ≤ c.retry
    pub capped : c.retry ≤ 30000
    pub pending_fresh : (t : ℕ) → c.next_timer ≤ t → c.timer t ≡ none
    pub delay_range : (t d : ℕ) → c.timer t ≡ some (d, reopen) → (500 ≤ d) × (d ≤ 30000)
    pub own_watch :
        (t d : ℕ) (task : Task)
        → c.timer t ≡ some (d, task)
        → is_watch task ≡ true
        → c.heartbeat_timer ≡ some t
    pub watch_known : (t : ℕ) → c.heartbeat_timer ≡ some t → t < c.next_timer
    pub apart : (t d : ℕ) → c.timer t ≡ some (d, reopen) → c.heartbeat_timer ≢ some t

  new_client-IsWatched : (ms : ℕ) → IsWatched (new_client {R = R} ms)
  unfolding new_client
  new_client-IsWatched ms = record {
    slow = omega arith;
    capped = omega arith;
    pending_fresh = λ t h. refl;
    delay_range = λ t d h. ground arith;
    own_watch = λ t d task h k. ground arith;
    watch_known = λ t h. ground arith;
    apart = λ t d h. ground arith;
  }

  module _ (c : LiveClient R) (h : IsWatched c) where
    -- A step that leaves the timers alone, with the retry delay unchanged or reset.
    same_timers :
        (d : LiveClient R)
        → d.timer ≡ c.timer
        → d.next_timer ≡ c.next_timer
        → d.heartbeat_timer ≡ c.heartbeat_timer
        → ((d.retry ≡ c.retry) ⊎ (d.retry ≡ 500))
        → IsWatched d
    same_timers d et en eh er = record {
      slow = ground (arith, h.slow);
      capped = ground (arith, h.capped);
      pending_fresh = λ t k. ground (arith, h.pending_fresh t, ap (λ f. f t) et);
      delay_range = λ t w k. ground (arith, h.delay_range t w, ap (λ f. f t) et);
      own_watch = λ t w task k z. ground (arith, h.own_watch t w task, ap (λ f. f t) et);
      watch_known = λ t k. ground (arith, h.watch_known t);
      apart = λ t w k. ground (arith, h.apart t w, ap (λ f. f t) et);
    }

    arm_heartbeat-IsWatched : IsWatched (arm_heartbeat c)
    unfolding arm_heartbeat
    arm_heartbeat-IsWatched = record {
      slow = ground (arith, h.slow);
      capped = ground (arith, h.capped);
      pending_fresh = λ t k. ground (arith, h.pending_fresh t);
      delay_range = λ t w k. ground (arith, h.delay_range t w);
      own_watch = λ t w task k z. ground (arith, h.own_watch t w task);
      watch_known = λ t k. ground (arith, h.watch_known t);
      apart = λ t w k. ground (arith, h.apart t w, h.pending_fresh c.next_timer);
    }

    on_close-IsWatched : (i : ℕ) → IsWatched (on_close i c)
    unfolding on_close
    on_close-IsWatched i = record {
      slow = ground (arith, h.slow);
      capped = ground (arith, h.capped);
      pending_fresh = λ t k. ground (arith, h.pending_fresh t);
      delay_range = λ t w k. ground (arith, h.delay_range t w, h.slow, h.capped);
      own_watch = λ t w task k z. ground (arith, h.own_watch t w task);
      watch_known = λ t k. ground (arith, h.watch_known t);
      apart = λ t w k. ground (arith, h.apart t w);
    }

    suspend-IsWatched : IsWatched (suspend c)
    unfolding suspend
    suspend-IsWatched = record {
      slow = ground (arith, h.slow);
      capped = ground (arith, h.capped);
      pending_fresh = λ t k. ground (arith, h.pending_fresh t);
      delay_range = λ t w k. ground (arith, h.delay_range t w);
      own_watch = λ t w task k z. ground (arith, h.own_watch t w task);
      watch_known = λ t k. ground (arith, h.watch_known t);
      apart = λ t w k. ground (arith, h.apart t w);
    }

    fired-IsWatched : (t : ℕ) → IsWatched (record c { timer = put_at t none c.timer })
    fired-IsWatched t = record {
      slow = h.slow;
      capped = h.capped;
      pending_fresh = λ u k. ground (arith, h.pending_fresh u);
      delay_range = λ u w k. ground (arith, h.delay_range u w);
      own_watch = λ u w task k z. ground (arith, h.own_watch u w task);
      watch_known = h.watch_known;
      apart = λ u w k. ground (arith, h.apart u w);
    }

  -- The idle timer has fired, so none of the watchdog's is pending.
  on_idle-IsWatched :
      (c : LiveClient R)
      → IsWatched c
      → ((t d : ℕ) (task : Task) → c.timer t ≡ some (d, task) → is_watch task ≡ false)
      → IsWatched (on_idle c)
  unfolding on_idle
  on_idle-IsWatched c h q = record {
    slow = ground (arith, h.slow);
    capped = ground (arith, h.capped);
    pending_fresh = λ t k. ground (arith, h.pending_fresh t);
    delay_range = λ t w k. ground (arith, h.delay_range t w);
    own_watch = λ t w task k z. ground (arith, q t w task);
    watch_known = λ t k. ground (arith, h.watch_known t);
    apart = λ t w k. ground (arith, h.apart t w, h.pending_fresh c.next_timer);
  }

module _ {R : Type 0} where
  run_task-IsWatched :
      (c : LiveClient R) (t delay : ℕ) (task : Task)
      → IsWatched c
      → c.timer t ≡ some (delay, task)
      → IsWatched (run_task task (record c { timer = put_at t none c.timer }))
  unfolding run_task
  run_task-IsWatched c t delay reopen h e =
      same_timers (record c { timer = put_at t none c.timer }) (fired-IsWatched c h t) _ refl refl
        refl (inl refl)
  run_task-IsWatched c t delay heartbeat_idle h e =
      on_idle-IsWatched (record c { timer = put_at t none c.timer }) (fired-IsWatched c h t)
        (λ u w task k. ground (arith, h.own_watch u w task, h.own_watch t delay heartbeat_idle))
  run_task-IsWatched c t delay (heartbeat_grace i) h e =
      same_timers (record c { timer = put_at t none c.timer }) (fired-IsWatched c h t) _ refl refl
        refl (inl refl)

  send_same :
      (c : LiveClient R)
      → ((send c).timer ≡ c.timer)
        × ((send c).next_timer ≡ c.next_timer)
        × ((send c).heartbeat_timer ≡ c.heartbeat_timer)
        × ((send c).retry ≡ c.retry)
  unfolding send
  send_same c = ground arith

  send-IsWatched :
      (c d : LiveClient R)
      → IsWatched c
      → d.timer ≡ c.timer
      → d.next_timer ≡ c.next_timer
      → d.heartbeat_timer ≡ c.heartbeat_timer
      → d.retry ≡ c.retry
      → IsWatched (send d)
  send-IsWatched c d h et en eh er =
      let (st, sn, sh, sr) = send_same d in
      same_timers c h (send d) (st ∙ et) (sn ∙ en) (sh ∙ eh) (inl (sr ∙ er))

  resume_same :
      (c : LiveClient R)
      → ((resume c).timer ≡ c.timer)
        × ((resume c).next_timer ≡ c.next_timer)
        × ((resume c).heartbeat_timer ≡ c.heartbeat_timer)
        × (((resume c).retry ≡ c.retry) ⊎ ((resume c).retry ≡ 500))
  unfolding resume
  resume_same c = ground arith

  on_message_same :
      (u : Option (NormalizedUpdate R)) (c : LiveClient R)
      → ((on_message u c).timer ≡ (arm_heartbeat c).timer)
        × ((on_message u c).next_timer ≡ (arm_heartbeat c).next_timer)
        × ((on_message u c).heartbeat_timer ≡ (arm_heartbeat c).heartbeat_timer)
        × ((on_message u c).retry ≡ (arm_heartbeat c).retry)
  unfolding on_message
  on_message_same none c = (refl, refl, refl, refl)
  on_message_same (some u) c = (refl, refl, refl, refl)

  on_open_same :
      (i : ℕ) (c : LiveClient R)
      → ((on_open i c).timer ≡ (arm_heartbeat c).timer)
        × ((on_open i c).next_timer ≡ (arm_heartbeat c).next_timer)
        × ((on_open i c).heartbeat_timer ≡ (arm_heartbeat c).heartbeat_timer)
        × ((on_open i c).retry ≡ 500)
  unfolding on_open
  on_open_same i c = ground arith

  Step-IsWatched : {c d : LiveClient R} → Step c d → IsWatched c → IsWatched d
  unfolding connect update set_pinned on_error
  Step-IsWatched (connects c b zoom f e) h = same_timers c h _ refl refl refl (inl refl)
  Step-IsWatched (updates c b zoom f) h =
      send-IsWatched c (record c { view = some (record { bbox = b; zoom = zoom; filters = f }) }) h
        refl refl refl refl
  Step-IsWatched (pins c ids) h = send-IsWatched c (record c { pinned = ids }) h refl refl refl refl
  Step-IsWatched (suspends c) h = suspend-IsWatched c h
  Step-IsWatched (resumes c) h =
      let (et, en, eh, er) = resume_same c in same_timers c h (resume c) et en eh er
  Step-IsWatched (opens c i e) h =
      let c' = set_state i ReadyState.opened c in
      let (et, en, eh, er) = on_open_same i c' in
      same_timers (arm_heartbeat c')
        (arm_heartbeat-IsWatched c' (same_timers c h c' refl refl refl (inl refl))) (on_open i c')
        et en eh (inr er)
  Step-IsWatched (receives c i u e) h =
      let (et, en, eh, er) = on_message_same u c in
      same_timers (arm_heartbeat c) (arm_heartbeat-IsWatched c h) (on_message u c) et en eh (inl er)
  Step-IsWatched (closes c i e) h =
      on_close-IsWatched (set_state i ReadyState.closed c)
        (same_timers c h _ refl refl refl (inl refl)) i
  Step-IsWatched (fails c i) h = same_timers c h _ refl refl refl (inl refl)
  Step-IsWatched (fires c t delay task e) h = run_task-IsWatched c t delay task h e

  pub Reach-IsWatched : {ms : ℕ} {c : LiveClient R} → Reach ms c → IsWatched c
  Reach-IsWatched {ms} start = new_client-IsWatched ms
  Reach-IsWatched (next r s) = Step-IsWatched s (Reach-IsWatched r)
