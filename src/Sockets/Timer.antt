-- ===== src/Sockets/Timer.antt =====
-- timers/ManualTimer.hpp and timers/EndpointTimer.hpp.
--
-- A timer posts an action that runs it at a later time. `posted` are the times of the runs that wait in the
-- event queue or are on the way there, in the order of the posts. `postIdleTimedAction` queues its action
-- twice when it is called on the thread of the queue. The timer does not look at the result of a post.
pub mod Stopped
use medici.Prelude.{
  ℕ, zero, suc, ◌+◌, Bool, true, false, if◌then◌else◌, not, List, [], ◌∷◌, ◌++◌, Result, Expected,
  ok, err, replicate,
}

-- The error of the action.
pub data TimerError : Type 0 where
  action_failed : ℕ → TimerError

pub data TimerType : Type 0 where
  precision idle : TimerType

-- Whether the queue takes a post, and whether it is made on the thread of the queue.
pub data Posting : Type 0 where
  refused on_queue_thread elsewhere : Posting

-- `ManualTimer`, with the `_paused` of `EndpointTimer`.
pub record Timer : Type 0 where
  pub timer_type : TimerType
  pub active : Bool
  pub paused : Bool
  pub duration : ℕ
  pub posted : List ℕ

-- The runs that one post leaves in the queue.
abbrev pub runs_queued : TimerType → Posting → ℕ
runs_queued timer_type refused = 0
runs_queued precision _ = 1
runs_queued idle on_queue_thread = 2
runs_queued idle elsewhere = 1

abbrev pub post_run : Timer → ℕ → Posting → Timer
post_run t now p = record t {
  posted = t.posted ++ replicate (runs_queued t.timer_type p) (now + t.duration);
}

-- `ManualTimer::start` at the time `now`.
unfoldable pub start_timer : Timer → ℕ → Posting → Timer
start_timer t now p = if t.active then t else post_run (record t { active = true }) now p

unfoldable pub stop_timer : Timer → Timer
stop_timer t = record t { active = false }

-- `ManualTimer::runAndRePost`. The action is the application's: it changes the timer and gives a result;
-- `now` is the time after it.
unfoldable pub run_and_repost :
    (Timer → Timer × Expected TimerError) → Timer → ℕ → Posting → Timer × Expected TimerError
run_and_repost action t now p =
    if not t.active
    then (t, ok tt)
    else let (t1, result) = action t in
      elim result [
        | err e ↦ (record t1 { active = false }, err e)
        | ok u ↦ (if t1.active then post_run t1 now p else t1, ok tt)
      ]

-- The event queue takes the first run that waits and calls it.
unfoldable pub run_posted :
    (Timer → Timer × Expected TimerError) → Timer → ℕ → Posting → Timer × Expected TimerError
unfolding run_and_repost
run_posted action t now p = elim t.posted [
  | [] ↦ (t, ok tt)
  | at ∷ more ↦ run_and_repost action (record t { posted = more }) now p
]

-- `EndpointTimer`.
unfoldable pub start_endpoint_timer : Timer → ℕ → Posting → Timer
unfolding start_timer
start_endpoint_timer t now p = if t.paused then t else start_timer t now p

unfoldable pub pause_timer : Timer → Timer
unfolding stop_timer
pause_timer t = record (stop_timer t) { paused = true }

unfoldable pub resume_timer : Timer → Timer
resume_timer t = record t { paused = false }
