-- ===== src/Home/Polls.antt =====
-- apps/web/app/routes/home.tsx: the effects that poll the detail of the active vehicle and the
-- departure board, each with an interval. Requests are numbers, handed out in order; an effect is
-- known by its number, and `alive` holds of the last one only. What is shown is kept with the
-- number and the subject of its request. `V` is the type of an answer.
use ovlive_platform.Prelude.{
  ℕ, suc, Bool, true, false, Option, none, some, if◌then◌else◌, ◌==◌, Text, is_empty,
}
use ovlive_platform.Live.Defs.{put_at}

pub record Ask : Type 0 where
  pub effect : ℕ
  pub subject : Text
  pub initial : Bool

pub record IntervalPoll (V : Type 0) : Type 0 where
  pub subject : Option Text
  pub shown : Option (ℕ × Text × V)
  pub effect : ℕ
  pub asked : ℕ → Option Ask
  pub next_ask : ℕ
  -- The interval that is running, with the subject that it asks for.
  pub interval : Option Text

pub record BoardPanel (B : Type 0) : Type 0 where
  pub poll : IntervalPoll B
  pub loading : Bool

module _ {V : Type 0} where
  unfoldable pub new_poll : IntervalPoll V
  new_poll = record {
    subject = none;
    shown = none;
    effect = 0;
    asked = λ n. none;
    next_ask = 0;
    interval = none;
  }

  -- `load(initial)`, up to the request.
  unfoldable pub load : Bool → Text → IntervalPoll V → IntervalPoll V
  load initial subject s =
      let ask : Ask = record { effect = s.effect; subject = subject; initial = initial } in
      record s { asked = put_at s.next_ask (some ask) s.asked; next_ask = suc s.next_ask }

  -- The effect, after the cleanup of the one before; an empty id is falsy.
  unfoldable pub start_poll : Option Text → IntervalPoll V → IntervalPoll V
  unfolding load
  start_poll subject s =
      let cleared = record s {
        subject = subject;
        shown = none;
        effect = suc s.effect;
        interval = none;
      } in
      elim subject [
        | none ↦ cleared
        | some id ↦
            if is_empty id then cleared else record (load true id cleared) { interval = some id }
      ]

  -- The interval fires.
  unfoldable pub on_tick : Text → IntervalPoll V → IntervalPoll V
  unfolding load
  on_tick id s = load false id s

  -- The answer to request `n`, which asked `a`.
  unfoldable pub on_answer : ℕ → Ask → V → IntervalPoll V → IntervalPoll V
  on_answer n a v s =
      let s' = record s { asked = put_at n none s.asked } in
      if a.effect == s.effect then record s' { shown = some (n, a.subject, v) } else s'

  -- `.catch(() => initial && alive && setDetail(null))`.
  unfoldable pub on_failure : ℕ → Ask → IntervalPoll V → IntervalPoll V
  on_failure n a s =
      let s' = record s { asked = put_at n none s.asked } in
      if a.initial then (if a.effect == s.effect then record s' { shown = none } else s') else s'

  -- The board's effect, with its sign of loading.
  unfoldable pub start_board : Option Text → BoardPanel V → BoardPanel V
  unfolding start_poll
  start_board stop_id p =
      let poll = start_poll stop_id p.poll in
      elim poll.interval [
        | none ↦ record p { poll = poll }
        | some id ↦ record { poll = poll; loading = true }
      ]

  -- `.finally(() => initial && alive && setLoadingBoard(false))`.
  abbrev pub after_load : Ask → BoardPanel V → BoardPanel V
  after_load a p =
      if a.initial
      then (if a.effect == p.poll.effect then record p { loading = false } else p)
      else p

  unfoldable pub on_board : ℕ → Ask → V → BoardPanel V → BoardPanel V
  unfolding on_answer
  on_board n a v p = after_load a (record p { poll = on_answer n a v p.poll })

  unfoldable pub on_board_failed : ℕ → Ask → BoardPanel V → BoardPanel V
  unfolding on_failure
  on_board_failed n a p = after_load a (record p { poll = on_failure n a p.poll })
