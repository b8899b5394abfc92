-- ===== src/Tests/Sockets.antt =====
-- A group of two endpoints and a timer.
use medici.Prelude.{
  ℕ, ◌+◌, ◌*◌, length, ◌≡◌, refl, Bool, true, false, List, [], ◌∷◌, some, Expected, ok, arith,
}
use medici.Sockets.Group.{Coordinator, find_context}
use medici.Sockets.Group.Valid.{
  Op, register, remove, set_active, remove_active, run_ops, Distinct, IsValid, run_ops-IsValid,
}
use medici.Sockets.Timer.{Timer, TimerError, idle, on_queue_thread, start_timer, stop_timer}
use medici.Sockets.Timer.Stopped.{run_all, restart_adds}

-- An endpoint is whether it is active.
abbrev group : Coordinator Bool
group = record { context_lookup = (7, true) ∷ (3, false) ∷ []; active_context_entry = some 3 }

active_lem :
    (id : ℕ)
    → group.active_context_entry ≡ some id
    → (c : Bool) × (find_context id group.context_lookup ≡ some c)
unfolding find_context
active_lem id e = let at : id ≡ 3 = cc in (false, ground (arith, at))

group-IsValid : IsValid group
unfolding Distinct find_context
group-IsValid = record { distinct = (refl, (refl, tt)); active_in = active_lem }

abbrev ops : List (Op Bool)
ops = remove_active ∷ register (some (9, true)) ∷ remove 7 ∷ set_active 9 ∷ []

run_ops-IsValid_example : IsValid (run_ops (λ c. c) group ops)
run_ops-IsValid_example = run_ops-IsValid (λ c. c) group ops group-IsValid

abbrev timer : Timer
timer = record { timer_type = idle; active = true; paused = false; duration = 10; posted = 15 ∷ [] }

abbrev keep : Timer → Timer × Expected TimerError
keep t = (t, ok tt)

-- An idle timer with one run waiting has three after the start, and five after two runs.
restart_adds_example :
    length
        (run_all keep on_queue_thread
          (15 ∷ 16 ∷ [])
          (start_timer (stop_timer timer) 6 on_queue_thread)).posted
      + 2
    ≡ 1 + 2 + 2 * 2
restart_adds_example =
    restart_adds timer 6 (15 ∷ 16 ∷ []) on_queue_thread keep (λ u. refl) (omega arith)
