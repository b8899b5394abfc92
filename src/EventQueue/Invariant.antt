-- ===== src/EventQueue/Invariant.antt =====
-- What every step of the event cycle keeps, the cycle and `start` keep.
use medici.Prelude.{
  ℕ, zero, suc, ◌+◌, sym, subst, inl, inr, Bool, true, false, Option, none, some, Result, ok, err,
  ltb, leb, length, Bool-cases, Option-cases,
}
use medici.EventQueue.{
  Error, Callable, user, async, push_precision, push_idle, empty, Deleter, release, destroy,
  destroy_release, Queue, Exception, M, Host,
}
use medici.EventQueue.Post.{push_precision_event, push_idle_event, post_async_action}
use medici.EventQueue.Steps.{
  List-cases, fire_empty, fire_early, fire_due, local_none, local_empty, local_entry, producer_none,
  producer_entry, producers_done, producers_next, loop_stopped, loop_active, start_active,
  start_inactive,
}
use medici.EventQueue.Cycle.{
  Timing, precision, idle, timed_events, pop_timed, pop_local, pop_producer, deleter_of,
  producer_entries, is_empty, then_do, checked, posted, repost, apply, delete_payload, fire,
  poll_endpoints, dispatch_local, dispatch_producer, dispatch_producers, fire_idle, run_event_cycle,
  run_loop, start,
}

-- Every step keeps `P`.
pub record Stable {A B S : Type 0} (host : Host A B S) (tid : ℕ) (P : Queue A B → Type 0)
    : Type 0 where
  pub call : (a : A) (q : Queue A B) (s : S) → P q → P (host.call a q s).1
  pub call_async : (b : B) (q : Queue A B) (s : S) → P q → P (host.call_async b q s).1
  pub poll : (q : Queue A B) (s : S) → P q → P (host.poll q s).1
  pub repost :
      (b : B) (q : Queue A B) (s : S)
      → P q
      → P (posted (post_async_action host.capacity q none tid b) q s).1
  pub precision_event :
      (t : ℕ) (a : Callable A B) (q : Queue A B) → P q → P (push_precision_event q t a)
  pub idle_event : (t : ℕ) (a : Callable A B) (q : Queue A B) → P q → P (push_idle_event q t a)
  pub pop : (w : Timing) (q : Queue A B) → P q → P (pop_timed w q)
  pub pop_local : (q : Queue A B) → P q → P (pop_local q)
  pub pop_producer : (i : ℕ) (q : Queue A B) → P q → P (pop_producer q i)
  pub release : (n : ℕ) (q : Queue A B) → P q → P (record q { active_async_store_entries = n })
  pub activate :
      (q : Queue A B) → P q → P (record q { active_thread_id = some tid; is_active = true })

module _ {A B S : Type 0} (host : Host A B S) (tid : ℕ) (P : Queue A B → Type 0)
    (k : Stable host tid P) where
  then_do-keeps :
      {X Y : Type 0} (r : Result Exception X × Queue A B × S) (f : X → M A B S Y)
      → P r.1
      → ((x : X) (q : Queue A B) (s : S) → P q → P (f x q s).1)
      → P (then_do r f).1
  then_do-keeps (ok x, q, s) f p rest = rest x q s p
  then_do-keeps (err x, q, s) f p rest = p

  checked-keeps :
      {X Y : Type 0} (f : X → M A B S (Result Error Y)) (r : Result Error X) (q : Queue A B) (s : S)
      → P q
      → ((x : X) → P (f x q s).1)
      → P (checked f r q s).1
  checked-keeps f (ok x) q s p rest = rest x
  checked-keeps f (err x) q s p rest = p

  repost-keeps :
      (r : Result Error Bool × B) (q : Queue A B) (s : S) → P q → P (repost host tid r q s).1
  repost-keeps (err e, b) q s p = p
  repost-keeps (ok true, b) q s p = p
  repost-keeps (ok false, b) q s p = k.repost b q s p

  apply-keeps : (c : Callable A B) (q : Queue A B) (s : S) → P q → P (apply host tid c q s).1
  unfolding apply
  apply-keeps (user a) q s p = k.call a q s p
  apply-keeps (async b) q s p =
      then_do-keeps (host.call_async b q s) (repost host tid) (k.call_async b q s p) repost-keeps
  apply-keeps (push_precision t a) q s p = k.precision_event t a q p
  apply-keeps (push_idle t a) q s p = k.idle_event t a q p
  apply-keeps empty q s p = p

  delete-keeps :
      (d : Option Deleter) (q : Queue A B) (s : S) → P q → P (delete_payload host d q s).0
  unfolding delete_payload
  delete-keeps none q s p = p
  delete-keeps (some release) q s p = k.release _ q p
  delete-keeps (some (destroy n)) q s p = p
  delete-keeps (some (destroy_release n)) q s p = k.release _ q p

  fire-keeps :
      (w : Timing) (fuel n : ℕ) (q : Queue A B) (s : S) → P q → P (fire host tid w fuel n q s).1
  unfolding fire
  fire-keeps w zero n q s p = p
  fire-keeps w (suc fuel) n q s p = elim (List-cases (timed_events w q)) [
    | inl none_left ↦ subst (λ z. P z.1) (sym (fire_empty host tid w fuel n q s none_left)) p
    | inr (e, es, h) ↦ elim (Bool-cases (leb e.event_time (host.clock s).0)) [
      | inr early ↦ subst (λ z. P z.1) (sym (fire_early host tid w fuel n q s e es h early)) p
      | inl due ↦
          subst (λ z. P z.1) (sym (fire_due host tid w fuel n q s e es h due))
            (then_do-keeps (apply host tid e.action q _) _ (apply-keeps e.action q _ p)
              (λ r q2 s2 p2.
                checked-keeps _ r (pop_timed w q2) s2 (k.pop w q2 p2)
                  (λ u. fire-keeps w fuel _ (pop_timed w q2) s2 (k.pop w q2 p2))))
    ]
  ]

  local-keeps : (n : ℕ) (q : Queue A B) (s : S) → P q → P (dispatch_local host tid n q s).1
  local-keeps n q s p = elim (List-cases q.local_event_queue) [
    | inl none_left ↦ subst (λ z. P z.1) (sym (local_none host tid n q s none_left)) p
    | inr (e, es, h) ↦ elim (Bool-cases (is_empty e.action)) [
      | inl bare ↦ subst (λ z. P z.1) (sym (local_empty host tid n q s e es h bare)) p
      | inr full ↦
          subst (λ z. P z.1) (sym (local_entry host tid n q s e es h full))
            (then_do-keeps (apply host tid e.action q s) _ (apply-keeps e.action q s p)
              (λ r q1 s1 p1.
                let p2 = k.pop_local _ (delete-keeps (deleter_of q1.local_event_queue) q1 s1 p1) in
                checked-keeps _ r _ _ p2 (λ u. p2)))
    ]
  ]

  producer-keeps :
      (i n : ℕ) (q : Queue A B) (s : S) → P q → P (dispatch_producer host tid i n q s).1
  producer-keeps i n q s p = elim (List-cases (producer_entries q i)) [
    | inl none_left ↦ subst (λ z. P z.1) (sym (producer_none host tid n q s i none_left)) p
    | inr (e, es, h) ↦
        subst (λ z. P z.1) (sym (producer_entry host tid n q s i e es h))
          (then_do-keeps (apply host tid e.action q s) _ (apply-keeps e.action q s p) (λ r q1 s1 p1.
            let p2 =
              k.pop_producer i _ (delete-keeps (deleter_of (producer_entries q1 i)) q1 s1 p1) in
            checked-keeps _ r _ _ p2 (λ u. p2)))
  ]

  producers-keeps :
      (j i n : ℕ) (q : Queue A B) (s : S) → P q → P (dispatch_producers host tid j i n q s).1
  unfolding dispatch_producers
  producers-keeps zero i n q s p = p
  producers-keeps (suc j) i n q s p = elim (Bool-cases (ltb i q.active_producers)) [
    | inr done ↦ subst (λ z. P z.1) (sym (producers_done host tid n q s j i done)) p
    | inl more ↦
        subst (λ z. P z.1) (sym (producers_next host tid n q s j i more))
          (then_do-keeps (dispatch_producer host tid i n q s) _ (producer-keeps i n q s p)
            (λ r q1 s1 p1. checked-keeps _ r q1 s1 p1 (λ m. producers-keeps j (i + 1) m q1 s1 p1)))
  ]

  idle-keeps : (fuel n : ℕ) (q : Queue A B) (s : S) → P q → P (fire_idle host tid fuel n q s).1
  unfolding fire_idle
  idle-keeps fuel zero q s p =
      then_do-keeps (fire host tid idle fuel 0 q s) _ (fire-keeps idle fuel 0 q s p)
        (λ r q1 s1 p1. checked-keeps _ r q1 s1 p1 (λ n. p1))
  idle-keeps fuel (suc n) q s p = p

  -- The cycle keeps what its steps keep.
  pub cycle-keeps :
      (fuel : ℕ) (q : Queue A B) (s : S) → P q → P (run_event_cycle host tid fuel q s).1
  unfolding run_event_cycle
  cycle-keeps fuel q s p =
      then_do-keeps (fire host tid precision fuel 0 q s) _ (fire-keeps precision fuel 0 q s p)
        (λ r1 q1 s1 p1. checked-keeps _ r1 q1 s1 p1 (λ n1.
          then_do-keeps (poll_endpoints host tid n1 q1 s1) _
            (then_do-keeps (host.poll q1 s1) _ (k.poll q1 s1 p1)
              (λ r q s p. checked-keeps _ r q s p (λ m. p)))
            (λ r2 q2 s2 p2. checked-keeps _ r2 q2 s2 p2 (λ n2.
              then_do-keeps (dispatch_local host tid n2 q2 s2) _ (local-keeps n2 q2 s2 p2)
                (λ r3 q3 s3 p3. checked-keeps _ r3 q3 s3 p3 (λ n3.
                  then_do-keeps
                    (dispatch_producers host tid (length q3.external_producer_queue) 0 n3 q3 s3)
                    (checked (λ n4. fire_idle host tid fuel n4))
                    (producers-keeps (length q3.external_producer_queue) 0 n3 q3 s3 p3)
                    (λ r4 q4 s4 p4.
                      checked-keeps (λ n4. fire_idle host tid fuel n4) r4 q4 s4 p4
                        (λ n4. idle-keeps fuel n4 q4 s4 p4))))))))

  loop-keeps :
      (cycles fuel : ℕ) (q : Queue A B) (s : S) → P q → P (run_loop host tid cycles fuel q s).1
  unfolding run_loop
  loop-keeps zero fuel q s p = p
  loop-keeps (suc cycles) fuel q s p = elim (Option-cases q.active_thread_id) [
    | inl stopped ↦ subst (λ z. P z.1) (sym (loop_stopped host tid cycles fuel q s stopped)) p
    | inr (t, active) ↦
        subst (λ z. P z.1) (sym (loop_active host tid cycles fuel q s t active))
          (then_do-keeps (run_event_cycle host tid fuel q s) _ (cycle-keeps fuel q s p)
            (λ r q1 s1 p1.
              checked-keeps (λ u. run_loop host tid cycles fuel) r q1 s1 p1
                (λ u. loop-keeps cycles fuel q1 s1 p1)))
  ]

  -- `start` keeps what every step keeps, however it ends.
  pub start-keeps :
      (cycles fuel : ℕ) (q : Queue A B) (s : S) → P q → P (start host tid cycles fuel q s).1
  unfolding start
  start-keeps cycles fuel q s p = elim (Option-cases q.active_thread_id) [
    | inr (t, active) ↦ subst (λ z. P z.1) (sym (start_active host tid cycles fuel q s t active)) p
    | inl idle_queue ↦
        subst (λ z. P z.1) (sym (start_inactive host tid cycles fuel q s idle_queue))
          (loop-keeps cycles fuel _ s (k.activate q p))
  ]
