-- ===== src/Live/Examples.antt =====
-- The theorems on the live client at one run: it connects, the socket opens, the application
-- suspends and resumes, and the second socket opens.
use ovlive_platform.Prelude.{ℕ, arith, ◌≤◌, ◌≡◌, refl, ◌≢◌, ◌↔◌, true, false, none, some, ◌∷◌}
use ovlive_platform.Samples.{utrecht, all_types}
use ovlive_platform.Live.Defs.{
  ReadyState, on_message, run_task, set_state, heartbeat_grace, heartbeat_idle, ping, resume,
  reopen, suspend, on_open, LiveClient, on_close, connect, new_client,
}
use ovlive_platform.Live.Step.{start, connects, Reach, resumes, opens, closes, suspends, next}
use ovlive_platform.Live.Connection.{one_connection, is_live, suspended_is_quiet}
use ovlive_platform.Live.Subscription.{
  last_viewport, current_msg, begins_subscribed, server_up_to_date,
}
use ovlive_platform.Live.Stages.{Silence, fire}
use ovlive_platform.Live.Silence.{quiet_socket_reconnects}
use ovlive_platform.Live.Recovery.{one_watch, stale_close_disarms, reopen_in_order}

abbrev client : LiveClient ℕ
client = connect utrecht 12 all_types (new_client 20000)

abbrev online : LiveClient ℕ
online = on_open 0 (set_state 0 ReadyState.opened client)

abbrev resumed : LiveClient ℕ
resumed = resume (suspend online)

abbrev online_again : LiveClient ℕ
online_again = on_open 1 (set_state 1 ReadyState.opened resumed)

client-Reach : Reach 20000 client
unfolding new_client
client-Reach = next start (connects (new_client 20000) utrecht 12 all_types refl)

online-Reach : Reach 20000 online
unfolding new_client connect
online-Reach = next client-Reach (opens client 0 refl)

suspended-Reach : Reach 20000 (suspend online)
suspended-Reach = next online-Reach (suspends online)

online_again-Reach : Reach 20000 online_again
unfolding new_client connect on_open suspend resume
online_again-Reach = next (next suspended-Reach (resumes (suspend online))) (opens resumed 1 refl)

-- The second socket has closed, and a reconnect is pending.
lost-Reach : Reach 20000 (on_close 1 (set_state 1 ReadyState.closed online_again))
unfolding new_client connect on_open suspend resume
lost-Reach = next online_again-Reach (closes online_again 1 (cc))

one_connection_example : (◌≡◌ {A = ℕ} 1 1) × (online_again.ws ≡ some 1)
unfolding new_client connect on_open suspend resume
one_connection_example = one_connection 1 1 online_again-Reach refl refl

server_up_to_date_example :
    (begins_subscribed (online_again.socket 1).sent ≡ true)
    × (last_viewport (online_again.socket 1).sent ≡ current_msg online_again)
    × (online_again.view ≢ none)
unfolding new_client connect on_open suspend resume
server_up_to_date_example = server_up_to_date 1 online_again-Reach refl

suspended_is_quiet_example :
    ((suspend online).ws ≡ none)
    × (is_live ((suspend online).socket 0).state ≡ false)
    × ((suspend online).timer 0 ≢ some (20000, reopen))
unfolding new_client connect on_open suspend
suspended_is_quiet_example = suspended_is_quiet 0 0 20000 suspended-Reach refl

reopen_in_order_example :
    (500 ≤ 500)
    × (500 ≤ 30000)
    × ((on_close 1 (set_state 1 ReadyState.closed online_again)).retry_timer ≡ some 2)
unfolding new_client connect on_open suspend resume on_close
reopen_in_order_example = reopen_in_order 2 500 lost-Reach refl

one_watch_example : (◌≡◌ {A = ℕ} 1 1) × (online_again.heartbeat_timer ≡ some 1)
unfolding new_client connect on_open suspend resume
one_watch_example =
    one_watch 1 1 20000 20000 heartbeat_idle heartbeat_idle online_again-Reach refl refl refl refl

stale_close_disarms_example :
    ((on_close 0 online_again).ws ≡ some 1)
    × ((on_close 0 online_again).statuses ≡ online_again.statuses)
    × (((on_close 0 online_again).timer 1 ≡ some (20000, reopen))
        ↔ (online_again.timer 1 ≡ some (20000, reopen)))
    × ((on_close 0 online_again).timer 1 ≢ some (20000, heartbeat_idle))
    × ((on_close 0 online_again).timer 1 ≢ some (20000, heartbeat_grace 1))
unfolding new_client connect on_open suspend resume
stale_close_disarms_example = stale_close_disarms 0 1 1 20000 1 online_again-Reach refl (cc)

-- The idle timer, the grace timer, the close and the reconnect.
abbrev silent_end : LiveClient ℕ
silent_end = fire 3 reopen (
    on_close 0 (
      set_state 0 ReadyState.closed
        (fire 2 (heartbeat_grace 0) (fire 1 heartbeat_idle (on_message none online)))))

silent : Silence 0 (on_message none online) 4 30500 silent_end
unfolding new_client connect on_open on_message run_task on_close
silent =
    Silence.fires 3 500 reopen
      (Silence.closes
        (Silence.fires 2 10000 (heartbeat_grace 0)
          (Silence.fires 1 20000 heartbeat_idle Silence.begins refl) refl)
        refl)
      refl

quiet_socket_reconnects_example :
    ((v' : ℕ) × (d' : LiveClient ℕ) × Silence 0 (on_message none online) 1 v' d')
    × ((silent_end.socket 0).sent ≡ ping ∷ (online.socket 0).sent)
    × (silent_end.ws ≡ some 1)
    × ((silent_end.socket 1).state ≡ ReadyState.connecting)
    × (◌≡◌ {A = ℕ} 30500 30500)
    × (◌≤◌ 30500 60000)
unfolding new_client connect on_open
quiet_socket_reconnects_example =
    quiet_socket_reconnects 0 none online-Reach (omega arith) refl refl (omega arith) Silence.begins
      silent
