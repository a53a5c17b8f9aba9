-- ===== src/Live/Subscription.antt =====
-- What the server has been told: the frames on the open socket, in every run.
use ovlive_platform.Live.Defs.{
  LiveClient, ReadyState, Task, Frame, on_message, close_socket, update_viewport, viewport_msg,
  ping, heartbeat_grace, suspend, set_state, reopen, ViewportMsg, send, heartbeat_idle, run_task,
  on_open, on_close, new_client, resume, connect, subscribe, put_at, set_pinned, on_error, update,
}
use ovlive_platform.Prelude.{
  ℕ, ◌≡◌, refl, ap, Bool, true, false, Option, none, some, List, [], ◌∷◌, arith, ◌≢◌,
}
use ovlive_platform.Types.{BBox, NormalizedUpdate, FilterState}
use ovlive_platform.Live.Connection.{IsSingle, Reach-IsSingle}
use ovlive_platform.Live.Step.{
  resumes, connects, fails, start, fires, opens, receives, next, pins, closes, Step, Reach, updates,
  suspends,
}

module _ {R : Type 0} where
  -- The viewport message that the server has last received, from the frames sent (newest first).
  abbrev pub last_viewport : List (Frame R) → Option (ViewportMsg R)
  last_viewport [] = none
  last_viewport (subscribe m ∷ fs) = some m
  last_viewport (update_viewport m ∷ fs) = some m
  last_viewport (ping ∷ fs) = last_viewport fs

  -- The oldest frame is a Subscribe, and it is the only one.
  abbrev pub begins_subscribed : List (Frame R) → Bool
  begins_subscribed [] = false
  begins_subscribed (subscribe m ∷ fs) = elim fs [ [] ↦ true | _ ∷ _ ↦ false ]
  begins_subscribed (update_viewport m ∷ fs) = begins_subscribed fs
  begins_subscribed (ping ∷ fs) = begins_subscribed fs

  -- The message that the client's own view and pinned vehicles make.
  abbrev pub current_msg : LiveClient R → Option (ViewportMsg R)
  current_msg c = elim c.view [ none ↦ none | some v ↦ some (viewport_msg v c.pinned) ]

  pub record IsSubscribed (c : LiveClient R) : Type 0 where
    pub silent : (i : ℕ) → (c.socket i).state ≡ ReadyState.connecting → (c.socket i).sent ≡ []
    pub has_view : c.view ≡ none → c.ws ≡ none
    pub first :
        (i : ℕ)
        → (c.socket i).state ≡ ReadyState.opened
        → begins_subscribed (c.socket i).sent ≡ true
    pub agrees :
        (i : ℕ)
        → (c.socket i).state ≡ ReadyState.opened
        → last_viewport (c.socket i).sent ≡ current_msg c

  new_client-IsSubscribed : (ms : ℕ) → IsSubscribed (new_client {R = R} ms)
  unfolding new_client
  new_client-IsSubscribed ms = record {
    silent = λ i h. refl;
    has_view = λ h. refl;
    first = λ i h. ground arith;
    agrees = λ i h. ground arith;
  }

  module _ (c : LiveClient R) (s : IsSingle c) (h : IsSubscribed c) where
    connect-IsSubscribed :
        (b : BBox R) (zoom : ℕ) (f : FilterState) → c.ws ≡ none → IsSubscribed (connect b zoom f c)
    unfolding connect
    connect-IsSubscribed b zoom f e = record {
      silent = λ i k. ground (arith, h.silent i);
      has_view = λ k. ground arith;
      first = λ i k. ground (arith, h.first i);
      agrees = λ i k. ground (arith, s.only_ws i);
    }

    on_open-IsSubscribed :
        (i : ℕ)
        → (c.socket i).state ≡ ReadyState.connecting
        → IsSubscribed (on_open i (set_state i ReadyState.opened c))
    unfolding on_open
    on_open-IsSubscribed i e = record {
      silent = λ j k. ground (arith, h.silent j);
      has_view = λ k. ground (arith, h.has_view);
      first = λ j k. ground (arith, h.first j, h.silent i, h.has_view, s.only_ws i);
      agrees = λ j k. ground (arith, s.only_ws i, s.only_ws j, h.has_view);
    }

    on_close-IsSubscribed : (i : ℕ) → IsSubscribed (on_close i (set_state i ReadyState.closed c))
    unfolding on_close
    on_close-IsSubscribed i = record {
      silent = λ j k. ground (arith, h.silent j);
      has_view = λ k. ground (arith, h.has_view);
      first = λ j k. ground (arith, h.first j);
      agrees = λ j k. ground (arith, h.agrees j);
    }

    close_socket-IsSubscribed : (i : ℕ) → IsSubscribed (close_socket i c)
    close_socket-IsSubscribed i = record {
      silent = λ j k. ground (arith, h.silent j);
      has_view = h.has_view;
      first = λ j k. ground (arith, h.first j);
      agrees = λ j k. ground (arith, h.agrees j);
    }

    on_message-IsSubscribed : (u : Option (NormalizedUpdate R)) → IsSubscribed (on_message u c)
    unfolding on_message
    on_message-IsSubscribed u = record {
      silent = λ j k. ground (arith, h.silent j);
      has_view = λ k. ground (arith, h.has_view);
      first = λ j k. ground (arith, h.first j);
      agrees = λ j k. ground (arith, h.agrees j);
    }

    suspend-IsSubscribed : IsSubscribed (suspend c)
    unfolding suspend
    suspend-IsSubscribed = record {
      silent = λ j k. ground (arith, h.silent j);
      has_view = λ k. ground arith;
      first = λ j k. ground (arith, h.first j);
      agrees = λ j k. ground (arith, h.agrees j);
    }

    resume-IsSubscribed : IsSubscribed (resume c)
    unfolding resume
    resume-IsSubscribed = record {
      silent = λ j k. ground (arith, h.silent j);
      has_view = λ k. ground (arith, h.has_view);
      first = λ j k. ground (arith, h.first j);
      agrees = λ j k. ground (arith, h.agrees j);
    }

    run_task-IsSubscribed :
        (t delay : ℕ) (task : Task)
        → c.timer t ≡ some (delay, task)
        → IsSubscribed (run_task task (record c { timer = put_at t none c.timer }))
    unfolding run_task
    run_task-IsSubscribed t delay reopen e = record {
      silent = λ j k. ground (arith, h.silent j);
      has_view = λ k. ground (arith, h.has_view, s.reopen_closed t delay);
      first = λ j k. ground (arith, h.first j);
      agrees = λ j k. ground (arith, h.agrees j);
    }
    run_task-IsSubscribed t delay heartbeat_idle e = record {
      silent = λ j k. ground (arith, h.silent j);
      has_view = λ k. ground (arith, h.has_view);
      first = λ j k. ground (arith, h.first j);
      agrees = λ j k. ground (arith, h.agrees j);
    }
    run_task-IsSubscribed t delay (heartbeat_grace i) e = record {
      silent = λ j k. ground (arith, h.silent j);
      has_view = λ k. ground (arith, h.has_view);
      first = λ j k. ground (arith, h.first j);
      agrees = λ j k. ground (arith, h.agrees j);
    }

  -- Sending after the view or the pinned vehicles have changed makes the server agree again.
  send-IsSubscribed :
      (c d : LiveClient R)
      → IsSingle c
      → IsSubscribed c
      → d.socket ≡ c.socket
      → d.ws ≡ c.ws
      → (d.view ≡ none → c.view ≡ none)
      → IsSubscribed (send d)
  unfolding send
  send-IsSubscribed c d s h es ew ev = record {
    silent = λ j k. ground (arith, h.silent j, ap (λ f. f j) es);
    has_view = λ k. ground (arith, h.has_view, ev);
    first = λ j k. ground (arith, h.first j, ap (λ f. f j) es);
    agrees = λ j k. ground (arith, h.agrees j, s.only_ws j, h.has_view, ev, ap (λ f. f j) es);
  }

  Step-IsSubscribed : {c d : LiveClient R} → Step c d → IsSingle c → IsSubscribed c → IsSubscribed d
  unfolding update set_pinned on_error
  Step-IsSubscribed (connects c b zoom f e) s h = connect-IsSubscribed c s h b zoom f e
  Step-IsSubscribed (updates c b zoom f) s h =
      send-IsSubscribed c (record c { view = some (record { bbox = b; zoom = zoom; filters = f }) })
        s h refl refl (λ k. ground arith)
  Step-IsSubscribed (pins c ids) s h =
      send-IsSubscribed c (record c { pinned = ids }) s h refl refl (λ k. k)
  Step-IsSubscribed (suspends c) s h = suspend-IsSubscribed c s h
  Step-IsSubscribed (resumes c) s h = resume-IsSubscribed c s h
  Step-IsSubscribed (opens c i e) s h = on_open-IsSubscribed c s h i e
  Step-IsSubscribed (receives c i u e) s h = on_message-IsSubscribed c s h u
  Step-IsSubscribed (closes c i e) s h = on_close-IsSubscribed c s h i
  Step-IsSubscribed (fails c i) s h = close_socket-IsSubscribed c s h i
  Step-IsSubscribed (fires c t delay task e) s h = run_task-IsSubscribed c s h t delay task e

  pub Reach-IsSubscribed : {ms : ℕ} {c : LiveClient R} → Reach ms c → IsSubscribed c
  Reach-IsSubscribed {ms} start = new_client-IsSubscribed ms
  Reach-IsSubscribed (next r s) = Step-IsSubscribed s (Reach-IsSingle r) (Reach-IsSubscribed r)

  -- In every run, the first frame on an open socket is a Subscribe and no later one is, and the
  -- viewport message sent last, in the Subscribe or in an update, carries the view and the pinned
  -- vehicles that the client holds now: the server's subscription is never out of date.
  pub server_up_to_date :
      {ms : ℕ} {c : LiveClient R} (i : ℕ)
      → Reach ms c
      → (c.socket i).state ≡ ReadyState.opened
      → (begins_subscribed (c.socket i).sent ≡ true)
        × (last_viewport (c.socket i).sent ≡ current_msg c)
        × (c.view ≢ none)
  server_up_to_date {c} i r e =
      let h = Reach-IsSubscribed r in
      let s = Reach-IsSingle r in
      (h.first i e, h.agrees i e, λ k. ground (arith, h.has_view, s.only_ws i))
