-- ===== src/EventQueue/Steps.antt =====
-- The branches of the event cycle's steps, as equations, and what a step that may throw comes to.
use medici.Prelude.{
  ℕ, suc, ◌+◌, ◌%◌, ◌≡◌, ◌≢◌, refl, ap, ◌∙◌, ◌⊎◌, inl, inr, true, false, leb, ltb, List, [], ◌∷◌,
  Option, none, some, Result, ok, err, Expected,
}
use medici.EventQueue.{
  Error, empty_action, already_active, Timed, PostEntry, Queue, Exception, waiting, M, Host,
}
use medici.EventQueue.Threads.{size_mod}
use medici.EventQueue.Cycle.{
  Timing, timed_events, pop_timed, pop_local, pop_producer, deleter_of, producer_entries, is_empty,
  pure, then_do, checked, apply, delete_payload, fire, dispatch_front, dispatch_local,
  dispatch_producer, dispatch_producers, run_event_cycle, run_loop, start,
}

module _ {A B S : Type 0} where
  -- A step that gave a result had one to go on from.
  pub then_do-ok :
      {X Y : Type 0} (r : Result Exception X × Queue A B × S) (f : X → M A B S Y) (y : Y)
      (q' : Queue A B) (s' : S)
      → then_do r f ≡ (ok y, q', s')
      → (x : X) × (q1 : Queue A B) × (s1 : S) × (r ≡ (ok x, q1, s1)) × (f x q1 s1 ≡ (ok y, q', s'))
  then_do-ok (ok x, q1, s1) f y q' s' e = (x, q1, s1, refl, e)
  then_do-ok (err x, q1, s1) f y q' s' e = cc

  pub checked-ok :
      {X Y : Type 0} (f : X → M A B S (Result Error Y)) (r : Result Error X) (q : Queue A B) (s : S)
      (y : Y) (q' : Queue A B) (s' : S)
      → checked f r q s ≡ (ok (ok y), q', s')
      → (x : X) × (r ≡ ok x) × (f x q s ≡ (ok (ok y), q', s'))
  checked-ok f (ok x) q s y q' s' e = (x, refl, e)
  checked-ok f (err x) q s y q' s' e = cc

  -- A step whose parts return returns.
  pub then_do-returns :
      {X Y : Type 0} (r : Result Exception X × Queue A B × S) (f : X → M A B S Y)
      → r.0 ≢ err waiting
      → ((x : X) (q1 : Queue A B) (s1 : S) → r ≡ (ok x, q1, s1) → (f x q1 s1).0 ≢ err waiting)
      → (then_do r f).0 ≢ err waiting
  then_do-returns (ok x, q1, s1) f done rest = rest x q1 s1 refl
  then_do-returns (err x, q1, s1) f done rest =
      λ e. let same : x ≡ waiting = cc in done (ap err same)

  pub checked-returns :
      {X Y : Type 0} (f : X → M A B S (Result Error Y)) (r : Result Error X) (q : Queue A B) (s : S)
      → ((x : X) → (f x q s).0 ≢ err waiting)
      → (checked f r q s).0 ≢ err waiting
  checked-returns f (ok x) q s rest = rest x
  checked-returns f (err x) q s rest = λ e. cc

pub List-cases : {X : Type 0} (xs : List X) → (xs ≡ []) ⊎ ((y : X) × (ys : List X) × (xs ≡ y ∷ ys))
List-cases [] = inl refl
List-cases (x ∷ xs) = inr (x, xs, refl)

-- The three cases of an iteration.
module _ {A B S : Type 0} (host : Host A B S) (tid : ℕ) (w : Timing) (fuel n : ℕ) (q : Queue A B)
    (s : S) where
  pub fire_empty : timed_events w q ≡ [] → fire host tid w (suc fuel) n q s ≡ (ok (ok n), q, s)
  unfolding fire
  fire_empty e = rw (e, fire)

  pub fire_early :
      (e : Timed A B) (es : List (Timed A B))
      → timed_events w q ≡ e ∷ es
      → leb e.event_time (host.clock s).0 ≡ false
      → fire host tid w (suc fuel) n q s ≡ (ok (ok n), q, (host.clock s).1)
  unfolding fire
  fire_early e es h early = rw (h, fire, early)

  pub fire_due :
      (e : Timed A B) (es : List (Timed A B))
      → timed_events w q ≡ e ∷ es
      → leb e.event_time (host.clock s).0 ≡ true
      → fire host tid w (suc fuel) n q s
        ≡ then_do (apply host tid e.action q (host.clock s).1) (λ r q2 s2.
          checked (λ u. fire host tid w fuel ((n + 1) % size_mod)) r (pop_timed w q2) s2)
  unfolding fire
  fire_due e es h due = rw (h, fire, due)

module _ {A B S : Type 0} (host : Host A B S) (tid : ℕ) (n : ℕ) (q : Queue A B) (s : S) where
  pub local_none : q.local_event_queue ≡ [] → dispatch_local host tid n q s ≡ (ok (ok n), q, s)
  unfolding dispatch_local dispatch_front
  local_none e = ap (λ xs. dispatch_front host tid xs n q s) e

  pub local_empty :
      (e : PostEntry A B) (es : List (PostEntry A B))
      → q.local_event_queue ≡ e ∷ es
      → is_empty e.action ≡ true
      → dispatch_local host tid n q s ≡ (ok (err empty_action), q, s)
  unfolding dispatch_local dispatch_front
  local_empty e es h bare =
      ap (λ xs. dispatch_front host tid xs n q s) h ∙ rw (dispatch_front, bare)

  pub local_entry :
      (e : PostEntry A B) (es : List (PostEntry A B))
      → q.local_event_queue ≡ e ∷ es
      → is_empty e.action ≡ false
      → dispatch_local host tid n q s
        ≡ then_do (apply host tid e.action q s) (λ r q1 s1.
          let (q2, s2) = delete_payload host (deleter_of q1.local_event_queue) q1 s1 in
          checked (λ u. pure (ok ((n + 1) % size_mod))) r (pop_local q2) s2)
  unfolding dispatch_local dispatch_front
  local_entry e es h full =
      ap (λ xs. dispatch_front host tid xs n q s) h ∙ rw (dispatch_front, full)

  pub producer_none :
      (i : ℕ) → producer_entries q i ≡ [] → dispatch_producer host tid i n q s ≡ (ok (ok n), q, s)
  unfolding dispatch_producer
  producer_none i e = rw (e, dispatch_producer)

  pub producer_entry :
      (i : ℕ) (e : PostEntry A B) (es : List (PostEntry A B))
      → producer_entries q i ≡ e ∷ es
      → dispatch_producer host tid i n q s
        ≡ then_do (apply host tid e.action q s) (λ r q1 s1.
          let (q2, s2) = delete_payload host (deleter_of (producer_entries q1 i)) q1 s1 in
          checked (λ u. pure (ok ((n + 1) % size_mod))) r (pop_producer q2 i) s2)
  unfolding dispatch_producer
  producer_entry i e es h = rw (h, dispatch_producer)

  pub producers_done :
      (k i : ℕ)
      → ltb i q.active_producers ≡ false
      → dispatch_producers host tid (suc k) i n q s ≡ (ok (ok n), q, s)
  unfolding dispatch_producers
  producers_done k i e = rw (dispatch_producers, e)

  pub producers_next :
      (k i : ℕ)
      → ltb i q.active_producers ≡ true
      → dispatch_producers host tid (suc k) i n q s
        ≡ then_do
            (dispatch_producer host tid i n q s)
            (checked (λ m. dispatch_producers host tid k (i + 1) m))
  unfolding dispatch_producers
  producers_next k i e = rw (dispatch_producers, e)

module _ {A B S : Type 0} (host : Host A B S) (tid cycles fuel : ℕ) (q : Queue A B) (s : S) where
  pub loop_stopped :
      q.active_thread_id ≡ none → run_loop host tid (suc cycles) fuel q s ≡ (ok (ok tt), q, s)
  unfolding run_loop
  loop_stopped e =
      ap
        (λ (z : Option ℕ). elim z as (λ x. Result Exception (Expected Error) × Queue A B × S) [
          | none ↦ (ok (ok tt), q, s)
          | some t ↦
              then_do (run_event_cycle host tid fuel q s)
                (checked (λ u. run_loop host tid cycles fuel))
        ])
        e

  pub loop_active :
      (t : ℕ)
      → q.active_thread_id ≡ some t
      → run_loop host tid (suc cycles) fuel q s
        ≡ then_do (run_event_cycle host tid fuel q s) (checked (λ u. run_loop host tid cycles fuel))
  unfolding run_loop
  loop_active t e =
      ap
        (λ (z : Option ℕ). elim z as (λ x. Result Exception (Expected Error) × Queue A B × S) [
          | none ↦ (ok (ok tt), q, s)
          | some t ↦
              then_do (run_event_cycle host tid fuel q s)
                (checked (λ u. run_loop host tid cycles fuel))
        ])
        e

  pub start_active :
      (t : ℕ)
      → q.active_thread_id ≡ some t
      → start host tid cycles fuel q s ≡ (ok (err already_active), q, s)
  unfolding start
  start_active t e =
      ap
        (λ (z : Option ℕ). elim z as (λ x. Result Exception (Expected Error) × Queue A B × S) [
          | some t ↦ (ok (err already_active), q, s)
          | none ↦
              run_loop host tid cycles fuel
                (record q { active_thread_id = some tid; is_active = true }) s
        ])
        e

  pub start_inactive :
      q.active_thread_id ≡ none
      → start host tid cycles fuel q s
        ≡ run_loop host tid cycles fuel
            (record q { active_thread_id = some tid; is_active = true })
            s
  unfolding start
  start_inactive e =
      ap
        (λ (z : Option ℕ). elim z as (λ x. Result Exception (Expected Error) × Queue A B × S) [
          | some t ↦ (ok (err already_active), q, s)
          | none ↦
              run_loop host tid cycles fuel
                (record q { active_thread_id = some tid; is_active = true }) s
        ])
        e
