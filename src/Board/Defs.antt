-- ===== src/Board/Defs.antt =====
-- apps/mobile/hooks/useMapApp.ts: the effect on `stopId` that polls the departure board. Requests
-- and timers are numbers, handed out in order; an effect is known by its number, and `alive` holds
-- of the last one only. What is shown is kept with the stop that it was asked for. `B` is the type
-- of a board.
use ovlive_platform.Prelude.{
  ℕ, suc, Bool, true, false, Option, none, some, if◌then◌else◌, ◌==◌, Text, is_empty,
}
use ovlive_platform.Live.Defs.{put_at}
use ovlive_platform.Selection.Defs.{backoff}

pub record Ask : Type 0 where
  pub effect : ℕ
  pub stop : Text
  pub initial : Bool

pub record Wait : Type 0 where
  pub delay : ℕ
  pub effect : ℕ
  pub stop : Text

pub record BoardPoll (B : Type 0) : Type 0 where
  pub stop_id : Option Text
  pub board : Option (Text × B)
  pub loading : Bool
  pub effect : ℕ
  pub asked : ℕ → Option Ask
  pub next_ask : ℕ
  pub timer : Option ℕ
  pub timers : ℕ → Option Wait
  pub next_timer : ℕ

abbrev pub board_poll_ms : ℕ
board_poll_ms = 12000

module _ {B : Type 0} where
  unfoldable pub new_board : BoardPoll B
  new_board = record {
    stop_id = none;
    board = none;
    loading = false;
    effect = 0;
    asked = λ n. none;
    next_ask = 0;
    timer = none;
    timers = λ t. none;
    next_timer = 0;
  }

  -- The effect's cleanup, and the start of the next effect.
  abbrev pub clear_wait : Option ℕ → BoardPoll B → BoardPoll B
  clear_wait none s = s
  clear_wait (some t) s = record s { timers = put_at t none s.timers }

  -- `load(initial)`, up to the request.
  abbrev pub load : Bool → ℕ → Text → BoardPoll B → BoardPoll B
  load initial effect stop s = record s {
    asked =
        put_at s.next_ask (some (record { effect = effect; stop = stop; initial = initial }))
          s.asked;
    next_ask = suc s.next_ask;
  }

  -- `timer = setTimeout(() => load(false), delay)`.
  abbrev pub wait : ℕ → ℕ → Text → BoardPoll B → BoardPoll B
  wait delay effect stop s = record s {
    timer = some s.next_timer;
    timers =
        put_at s.next_timer (some (record { delay = delay; effect = effect; stop = stop }))
          s.timers;
    next_timer = suc s.next_timer;
  }

  -- The effect on a change of `stopId`; an empty id is falsy.
  unfoldable pub open_board : Option Text → BoardPoll B → BoardPoll B
  open_board stop s =
      let cleared = record (clear_wait s.timer s) {
        stop_id = stop;
        board = none;
        effect = suc s.effect;
        timer = none;
      } in
      elim stop [
        | none ↦ cleared
        | some id ↦
            if is_empty id
            then cleared
            else load true (suc s.effect) id (record cleared { loading = true })
      ]

  abbrev pub loaded : Bool → BoardPoll B → BoardPoll B
  loaded initial s = if initial then record s { loading = false } else s

  -- The answer to request `n`, which asked `a`.
  unfoldable pub on_board : ℕ → Ask → B → BoardPoll B → BoardPoll B
  on_board n a b s =
      let s' = record s { asked = put_at n none s.asked } in
      if a.effect == s.effect
      then loaded a.initial
          (wait board_poll_ms a.effect a.stop (record s' { board = some (a.stop, b) }))
      else s'

  abbrev pub forget : Bool → BoardPoll B → BoardPoll B
  forget initial s = if initial then record s { board = none } else s

  -- The failure of request `n`, with its status.
  unfoldable pub on_board_failed : ℕ → Ask → Option ℕ → BoardPoll B → BoardPoll B
  on_board_failed n a status s =
      let s' = record s { asked = put_at n none s.asked } in
      if a.effect == s.effect
      then loaded a.initial
          (wait (backoff status board_poll_ms) a.effect a.stop (forget a.initial s'))
      else s'

  -- Timer `t` fires.
  unfoldable pub on_wait : ℕ → Wait → BoardPoll B → BoardPoll B
  on_wait t w s = load false w.effect w.stop (record s { timers = put_at t none s.timers })
