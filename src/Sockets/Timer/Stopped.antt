-- ===== src/Sockets/Timer/Stopped.antt =====
-- A timer that is stopped and started again.
use medici.Prelude.{
  ℕ, suc, ◌+◌, ◌*◌, ◌≤◌, ◌≡◌, ap, ◌∙◌, true, List, [], ◌∷◌, ◌++◌, Expected, ok, arith, length,
  length-append, length-replicate, replicate,
}
use native.Mathlib.Nat.{suc-mul}
use medici.Sockets.Timer.{
  Timer, TimerError, Posting, runs_queued, start_timer, stop_timer, run_and_repost, run_posted,
}

-- The runs of a timer, at the times of the list.
unfoldable pub run_all : (Timer → Timer × Expected TimerError) → Posting → List ℕ → Timer → Timer
unfolding run_posted
run_all action p [] t = t
run_all action p (now ∷ times) t = run_all action p times (run_posted action t now p).0

-- An active timer with these runs.
abbrev running : Timer → List ℕ → Timer
running t runs = record t { active = true; posted = runs }

module _ (action : Timer → Timer × Expected TimerError) (p : Posting) where
  run_lem :
      (t : Timer) (at now : ℕ) (runs : List ℕ)
      → ((u : Timer) → action u ≡ (u, ok tt))
      → (run_posted action (running t (at ∷ runs)) now p).0
        ≡ running t (runs ++ replicate (runs_queued t.timer_type p) (now + t.duration))
  unfolding run_posted run_and_repost
  run_lem t at now runs keep = ground (arith, keep (running t runs))

  run_all_lem :
      (times runs : List ℕ) (t : Timer)
      → ((u : Timer) → action u ≡ (u, ok tt))
      → 1 ≤ runs_queued t.timer_type p
      → 1 ≤ length runs
      → length (run_all action p times (running t runs)).posted + length times
        ≡ length runs + length times * runs_queued t.timer_type p
  unfolding run_all
  run_all_lem [] runs t keep queues some_run = omega arith
  run_all_lem (now ∷ times) [] t keep queues some_run = absurd (omega arith)
  run_all_lem (now ∷ times) (at ∷ runs) t keep queues some_run =
      let n = runs_queued t.timer_type p in
      let next = runs ++ replicate n (now + t.duration) in
      let size : length next ≡ length runs + n =
        length-append runs (replicate n (now + t.duration))
        ∙ ap (λ (k : ℕ). length runs + k) (length-replicate n (now + t.duration)) in
      let rest = run_all_lem times next t keep queues (omega (arith, size, queues)) in
      ap (λ z. length (run_all action p times z).posted + suc (length times))
        (run_lem t at now runs keep)
      ∙ omega (arith, rest, size, suc-mul (length times) n)

-- Starting a timer that was stopped leaves the runs that were posted before where they are. Of an action that
-- succeeds and leaves the timer alone, each run leaves the queue and posts its successors: after any number of
-- runs there wait those that were there before the start, those that one post queues, and for each run what a
-- post queues less one. So there is one run too many for good, if a post queues one run, and one more with
-- each run, if it queues two, as it does for idle timers on the thread of the queue. The event queue takes the
-- posts.
pub restart_adds :
    (t : Timer) (now : ℕ) (times : List ℕ) (p : Posting)
    (action : Timer → Timer × Expected TimerError)
    → ((u : Timer) → action u ≡ (u, ok tt))
    → 1 ≤ runs_queued t.timer_type p
    → length (run_all action p times (start_timer (stop_timer t) now p)).posted + length times
      ≡ length t.posted + runs_queued t.timer_type p + length times * runs_queued t.timer_type p
unfolding start_timer stop_timer
restart_adds t now times p action keep queues =
    let n = runs_queued t.timer_type p in
    let size : length (t.posted ++ replicate n (now + t.duration)) ≡ length t.posted + n =
      length-append t.posted (replicate n (now + t.duration))
      ∙ ap (λ (k : ℕ). length t.posted + k) (length-replicate n (now + t.duration)) in
    run_all_lem action p times (t.posted ++ replicate n (now + t.duration)) t keep queues
      (omega (arith, size, queues))
    ∙ ap (λ (k : ℕ). k + length times * n) size
