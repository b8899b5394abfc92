-- ===== src/EventQueue/Lifecycle.antt =====
-- When `start` returns.
use medici.Prelude.{ℕ, zero, suc, ◌≡◌, ap, sym, ◌∙◌, inl, inr, none, ok, Option-cases, Expected}
use medici.EventQueue.{Error, Queue, M, Host}
use medici.EventQueue.Cycle.{checked, run_event_cycle, run_loop, start}
use medici.EventQueue.Steps.{
  then_do-ok, checked-ok, loop_stopped, loop_active, start_active, start_inactive,
}

loop_ok :
    {A B S : Type 0} (host : Host A B S) (tid cycles fuel : ℕ) (q : Queue A B) (s : S)
    (q' : Queue A B) (s' : S)
    → run_loop host tid cycles fuel q s ≡ (ok (ok tt), q', s')
    → q'.active_thread_id ≡ none
unfolding run_loop
loop_ok host tid zero fuel q s q' s' e = cc
loop_ok {A} {B} {S} host tid (suc cycles) fuel q s q' s' e =
    elim (Option-cases q.active_thread_id) [
      | inl stopped ↦
          ap (λ z. z.1.active_thread_id) (sym e ∙ loop_stopped host tid cycles fuel q s stopped)
          ∙ stopped
      | inr (t, active) ↦
          let rest : Unit → M A B S (Expected Error) = λ u. run_loop host tid cycles fuel in
          let (r, q1, s1, _, e1) =
            then_do-ok (run_event_cycle host tid fuel q s) (checked rest) (ok tt) q' s'
              (sym (loop_active host tid cycles fuel q s t active) ∙ e) in
          let (u, _, e2) = checked-ok rest r q1 s1 tt q' s' e1 in
          loop_ok host tid cycles fuel q1 s1 q' s' e2
    ]

-- `start` returns without an error only when some action has stopped the queue.
pub start_ok :
    {A B S : Type 0} (host : Host A B S) (tid cycles fuel : ℕ) (q : Queue A B) (s : S)
    (q' : Queue A B) (s' : S)
    → start host tid cycles fuel q s ≡ (ok (ok tt), q', s')
    → q'.active_thread_id ≡ none
unfolding start
start_ok host tid cycles fuel q s q' s' e = elim (Option-cases q.active_thread_id) [
  | inl stopped ↦
      loop_ok host tid cycles fuel _ s q' s'
        (sym (start_inactive host tid cycles fuel q s stopped) ∙ e)
  | inr (t, active) ↦ let wrong = sym (start_active host tid cycles fuel q s t active) ∙ e in cc
]
