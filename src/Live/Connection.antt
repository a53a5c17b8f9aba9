-- ===== src/Live/Connection.antt =====
-- The sockets and the reconnect timer in every run.
use ovlive_platform.Live.Defs.{
  LiveClient, ReadyState, Task, connect, on_close, new_client, reopen, set_state, put_at,
  on_message, suspend, run_task, heartbeat_grace, arm_heartbeat, send, close_socket, on_open,
  resume, heartbeat_idle, set_pinned, on_error, update,
}
use ovlive_platform.Prelude.{ℕ, ◌≤◌, ◌≡◌, refl, ◌≢◌, Bool, true, false, none, some, arith, Option}
use ovlive_platform.Types.{BBox, FilterState, NormalizedUpdate}
use ovlive_platform.Live.Step.{
  updates, receives, opens, fails, fires, Step, start, closes, Reach, pins, resumes, next, suspends,
  connects,
}

-- A socket that is connecting or open.
abbrev pub is_live : ReadyState → Bool
is_live ReadyState.connecting = true
is_live ReadyState.opened = true
is_live _ = false

module _ {R : Type 0} where
  -- `some true` when the client holds a socket that has closed.
  abbrev pub ws_closed : LiveClient R → Bool
  ws_closed c = elim c.ws [
    | none ↦ false
    | some i ↦ elim (c.socket i).state [ ReadyState.closed ↦ true | _ ↦ false ]
  ]

  pub record IsSingle (c : LiveClient R) : Type 0 where
    pub only_ws : (i : ℕ) → c.ws ≢ some i → is_live (c.socket i).state ≡ false
    pub pending_fresh : (t : ℕ) → c.next_timer ≤ t → c.timer t ≡ none
    pub reopen_retry : (t d : ℕ) → c.timer t ≡ some (d, reopen) → c.retry_timer ≡ some t
    pub reopen_closed : (t d : ℕ) → c.timer t ≡ some (d, reopen) → ws_closed c ≡ true
    pub suspended : c.closed_by_user ≡ true → c.ws ≡ none

  new_client-IsSingle : (ms : ℕ) → IsSingle (new_client {R = R} ms)
  unfolding new_client
  new_client-IsSingle ms = record {
    only_ws = λ i h. refl;
    pending_fresh = λ t h. refl;
    reopen_retry = λ t d h. ground arith;
    reopen_closed = λ t d h. ground arith;
    suspended = λ h. refl;
  }

  module _ (c : LiveClient R) (h : IsSingle c) where
    connect-IsSingle :
        (b : BBox R) (zoom : ℕ) (f : FilterState) → c.ws ≡ none → IsSingle (connect b zoom f c)
    unfolding connect
    connect-IsSingle b zoom f e = record {
      only_ws = λ i k. ground (arith, h.only_ws i);
      pending_fresh = h.pending_fresh;
      reopen_retry = h.reopen_retry;
      reopen_closed = λ t d k. ground (arith, h.reopen_closed t d);
      suspended = λ k. ground arith;
    }

    on_close-IsSingle :
        (i : ℕ)
        → (c.socket i).state ≢ ReadyState.closed
        → IsSingle (on_close i (set_state i ReadyState.closed c))
    unfolding on_close
    on_close-IsSingle i e = record {
      only_ws = λ j k. ground (arith, h.only_ws j);
      pending_fresh = λ t k. ground (arith, h.pending_fresh t);
      reopen_retry = λ t d k. ground (arith, h.reopen_retry t d, h.reopen_closed t d);
      reopen_closed = λ t d k. ground (arith, h.reopen_closed t d);
      suspended = λ k. ground (arith, h.suspended);
    }

    arm_heartbeat-IsSingle : IsSingle (arm_heartbeat c)
    unfolding arm_heartbeat
    arm_heartbeat-IsSingle = record {
      only_ws = λ j k. ground (arith, h.only_ws j);
      pending_fresh = λ t k. ground (arith, h.pending_fresh t);
      reopen_retry = λ t d k. ground (arith, h.reopen_retry t d);
      reopen_closed = λ t d k. ground (arith, h.reopen_closed t d);
      suspended = λ k. ground (arith, h.suspended);
    }

    on_message-IsSingle : (u : Option (NormalizedUpdate R)) → IsSingle (on_message u c)
    unfolding on_message
    on_message-IsSingle none = arm_heartbeat-IsSingle
    on_message-IsSingle (some u) = record {
      only_ws = arm_heartbeat-IsSingle.only_ws;
      pending_fresh = arm_heartbeat-IsSingle.pending_fresh;
      reopen_retry = arm_heartbeat-IsSingle.reopen_retry;
      reopen_closed = arm_heartbeat-IsSingle.reopen_closed;
      suspended = arm_heartbeat-IsSingle.suspended;
    }

    on_open-IsSingle :
        (i : ℕ)
        → (c.socket i).state ≡ ReadyState.connecting
        → IsSingle (on_open i (set_state i ReadyState.opened c))
    unfolding on_open
    on_open-IsSingle i e = record {
      only_ws = λ j k. ground (arith, h.only_ws j);
      pending_fresh = λ t k. ground (arith, h.pending_fresh t);
      reopen_retry = λ t d k. ground (arith, h.reopen_retry t d);
      reopen_closed = λ t d k. ground (arith, h.reopen_closed t d);
      suspended = λ k. ground (arith, h.suspended);
    }

    close_socket-IsSingle : (i : ℕ) → IsSingle (close_socket i c)
    close_socket-IsSingle i = record {
      only_ws = λ j k. ground (arith, h.only_ws j);
      pending_fresh = h.pending_fresh;
      reopen_retry = h.reopen_retry;
      reopen_closed = λ t d k. ground (arith, h.reopen_closed t d);
      suspended = h.suspended;
    }

    send-IsSingle : IsSingle (send c)
    unfolding send
    send-IsSingle = record {
      only_ws = λ j k. ground (arith, h.only_ws j);
      pending_fresh = λ t k. ground (arith, h.pending_fresh t);
      reopen_retry = λ t d k. ground (arith, h.reopen_retry t d);
      reopen_closed = λ t d k. ground (arith, h.reopen_closed t d);
      suspended = λ k. ground (arith, h.suspended);
    }

    suspend-IsSingle : IsSingle (suspend c)
    unfolding suspend
    suspend-IsSingle = record {
      only_ws = λ j k. ground (arith, h.only_ws j);
      pending_fresh = λ t k. ground (arith, h.pending_fresh t);
      reopen_retry = λ t d k. ground (arith, h.reopen_retry t d);
      reopen_closed = λ t d k. ground (arith, h.reopen_retry t d);
      suspended = λ k. ground arith;
    }

    resume-IsSingle : IsSingle (resume c)
    unfolding resume
    resume-IsSingle = record {
      only_ws = λ j k. ground (arith, h.only_ws j);
      pending_fresh = λ t k. ground (arith, h.pending_fresh t);
      reopen_retry = λ t d k. ground (arith, h.reopen_retry t d);
      reopen_closed = λ t d k. ground (arith, h.reopen_closed t d);
      suspended = λ k. ground (arith, h.suspended);
    }

    run_task-IsSingle :
        (t delay : ℕ) (task : Task)
        → c.timer t ≡ some (delay, task)
        → IsSingle (run_task task (record c { timer = put_at t none c.timer }))
    unfolding run_task
    run_task-IsSingle t delay reopen e = record {
      only_ws = λ j k. ground (arith, h.only_ws j, h.reopen_closed t delay);
      pending_fresh = λ u k. ground (arith, h.pending_fresh u);
      reopen_retry = λ u d k. ground (arith, h.reopen_retry u d);
      reopen_closed = λ u d k. ground (arith, h.reopen_retry u d, h.reopen_retry t delay);
      suspended = λ k. ground (arith, h.suspended, h.reopen_closed t delay);
    }
    run_task-IsSingle t delay heartbeat_idle e = record {
      only_ws = λ j k. ground (arith, h.only_ws j);
      pending_fresh = λ u k. ground (arith, h.pending_fresh u);
      reopen_retry = λ u d k. ground (arith, h.reopen_retry u d);
      reopen_closed = λ u d k. ground (arith, h.reopen_closed u d);
      suspended = λ k. ground (arith, h.suspended);
    }
    run_task-IsSingle t delay (heartbeat_grace i) e = record {
      only_ws = λ j k. ground (arith, h.only_ws j);
      pending_fresh = λ u k. ground (arith, h.pending_fresh u);
      reopen_retry = λ u d k. ground (arith, h.reopen_retry u d);
      reopen_closed = λ u d k. ground (arith, h.reopen_closed u d);
      suspended = λ k. ground (arith, h.suspended);
    }

module _ {R : Type 0} where
  Step-IsSingle : {c d : LiveClient R} → Step c d → IsSingle c → IsSingle d
  unfolding update set_pinned on_error
  Step-IsSingle (connects c b zoom f e) h = connect-IsSingle c h b zoom f e
  Step-IsSingle (updates c b zoom f) h =
      send-IsSingle (record c { view = some (record { bbox = b; zoom = zoom; filters = f }) })
        (record {
          only_ws = h.only_ws;
          pending_fresh = h.pending_fresh;
          reopen_retry = h.reopen_retry;
          reopen_closed = h.reopen_closed;
          suspended = h.suspended;
        })
  Step-IsSingle (pins c ids) h =
      send-IsSingle (record c { pinned = ids })
        (record {
          only_ws = h.only_ws;
          pending_fresh = h.pending_fresh;
          reopen_retry = h.reopen_retry;
          reopen_closed = h.reopen_closed;
          suspended = h.suspended;
        })
  Step-IsSingle (suspends c) h = suspend-IsSingle c h
  Step-IsSingle (resumes c) h = resume-IsSingle c h
  Step-IsSingle (opens c i e) h = on_open-IsSingle c h i e
  Step-IsSingle (receives c i u e) h = on_message-IsSingle c h u
  Step-IsSingle (closes c i e) h = on_close-IsSingle c h i e
  Step-IsSingle (fails c i) h = (close_socket-IsSingle c h i)
  Step-IsSingle (fires c t delay task e) h = run_task-IsSingle c h t delay task e

  pub Reach-IsSingle : {ms : ℕ} {c : LiveClient R} → Reach ms c → IsSingle c
  Reach-IsSingle {ms} start = new_client-IsSingle ms
  Reach-IsSingle (next r s) = Step-IsSingle s (Reach-IsSingle r)

  -- In every run at most one socket is connecting or open at a time, and it is the client's own.
  pub one_connection :
      {ms : ℕ} {c : LiveClient R} (i j : ℕ)
      → Reach ms c
      → is_live (c.socket i).state ≡ true
      → is_live (c.socket j).state ≡ true
      → (i ≡ j) × (c.ws ≡ some i)
  one_connection {c} i j r a b =
      let h = Reach-IsSingle r in ground (arith, h.only_ws i, h.only_ws j)

  -- In every run, a client that the application has suspended holds no socket that is connecting
  -- or open, and no reconnect is pending, so that it stays off the network until it is resumed.
  pub suspended_is_quiet :
      {ms : ℕ} {c : LiveClient R} (i t d : ℕ)
      → Reach ms c
      → c.closed_by_user ≡ true
      → (c.ws ≡ none) × (is_live (c.socket i).state ≡ false) × (c.timer t ≢ some (d, reopen))
  suspended_is_quiet {c} i t d r e =
      let h = Reach-IsSingle r in
      (
        h.suspended e,
        ground (arith, h.only_ws i, h.suspended),
        λ p. ground (arith, h.reopen_closed t d, h.suspended),
      )
