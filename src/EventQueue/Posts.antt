-- ===== src/EventQueue/Posts.antt =====
-- What a post does, on the thread of the queue and on another one.
use medici.Prelude.{
  ℕ, ◌<◌, ◌≡◌, ◌≢◌, refl, ap, sym, ◌∙◌, inl, inr, false, [], ◌∷◌, ◌++◌, Option, none, some, Result,
  ok, err, Expected, arith, Option-cases, get_elem?,
}
use medici.EventQueue.{Error, Callable, PostEntry, ProducerQueue, Producer, Queue}
use medici.EventQueue.Threads.{push, push_entry, with_action, get_thread_producer_queue_entry}
use medici.EventQueue.Threads.Lookup.{Registered}
use medici.EventQueue.Threads.Register.{Owns, Looked, lookup-Looked}
use medici.EventQueue.Post.{is_local, post_action, push_ok, on_producer, with_producer_queue}

-- An action, as the entry that a thread with the prepared entry `prepared` pushes.
abbrev pub entry_for : {A B : Type 0} → Option (PostEntry A B) → Callable A B → PostEntry A B
entry_for none action = record { action = action; payload_delete_function = none }
entry_for (some e) action = with_action e action

push_lem :
    {A B : Type 0} (capacity : ℕ) (p : ProducerQueue A B) (action : Callable A B)
    (p' : ProducerQueue A B)
    → push capacity p action ≡ some p'
    → (p'.queue ≡ p.queue ++ entry_for p.prepared_entry action ∷ []) × (p'.prepared_entry ≡ none)
unfolding push push_entry
push_lem capacity p action p' e = (ground (arith, e), ground (arith, e))

push_ok_lem :
    {A B : Type 0} (capacity : ℕ) (p : ProducerQueue A B) (action : Callable A B)
    (p' : ProducerQueue A B)
    → push_ok capacity action p ≡ some (p', ok tt)
    → push capacity p action ≡ some p'
push_ok_lem {A} {B} capacity p action p' e = elim (Option-cases (push capacity p action)) [
  | inl stuck ↦ absurd (ground (arith, stuck, e))
  | inr (pq, h) ↦
      let fine : some (pq, ok tt) ≡ some (p', ok tt) = sym (rw (push_ok, h)) ∙ e in
      let same : pq ≡ p' = cc in h ∙ ap some same
]

-- The operation `f` was done on the thread's own producer queue in `q`, and on nothing else.
pub DoneBy :
    {A B : Type 0}
    → ℕ
    → (ProducerQueue A B → Option (ProducerQueue A B × Expected Error))
    → Queue A B
    → Queue A B
    → Type 0
DoneBy {A} {B} tid f q q' =
    (i : ℕ) × (p : Producer A B) × (pq : ProducerQueue A B) × (get_elem? q.external_producer_queue i
      ≡ some p)
    × (p.thread_id ≡ tid)
    × (i < q.active_producers)
    × (f p.producer_queue ≡ some (pq, ok tt))
    × (q' ≡ with_producer_queue q i p pq)

-- What follows the lookup.
abbrev finish :
    {A B : Type 0}
    → (ProducerQueue A B → Option (ProducerQueue A B × Expected Error))
    → Queue A B × Result Error ℕ × Option ℕ
    → Option (Queue A B × Expected Error × Option ℕ)
finish f z = elim z.1 [
  | err e ↦ some (z.0, err e, z.2)
  | ok i ↦ elim (get_elem? z.0.external_producer_queue i) [
    | none ↦ none
    | some p ↦ elim (f p.producer_queue) [
      | none ↦ none
      | some (pq, x) ↦ some (with_producer_queue z.0 i p pq, x, z.2)
    ]
  ]
]

finish_done :
    {A B : Type 0} (tid : ℕ) (f : ProducerQueue A B → Option (ProducerQueue A B × Expected Error))
    (z : Queue A B × Result Error ℕ × Option ℕ) (q' : Queue A B) (cached' : Option ℕ)
    → Looked tid z
    → finish f z ≡ some (q', ok tt, cached')
    → DoneBy tid f z.0 q'
unfolding Looked Owns DoneBy
finish_done tid f (q1, err x, c) q' cached' l e = cc
finish_done tid f (q1, ok i, c) q' cached' (v, own) e =
    let (p, at, same, lt) = own i refl in
    elim (Option-cases (f p.producer_queue)) [
      | inl stuck ↦ absurd (ground (arith, at, stuck, e))
      | inr ((pq, x), h) ↦
          let done : some (with_producer_queue q1 i p pq, x, c) ≡ some (q', ok tt, cached') =
            sym (rw (finish, at, h)) ∙ e in
          let fine : x ≡ ok tt = cc in
          let left : q' ≡ with_producer_queue q1 i p pq = cc in
          (i, p, pq, at, same, lt, h ∙ ap (λ y. some (pq, y)) fine, left)
    ]

-- An action posted from another thread than the queue's, once the post is over, stands at the end of that
-- thread's own producer queue, with the payload that the thread had prepared, which is used up. No other
-- producer queue and nothing else of the queue has changed since the lookup. The thread is not the default
-- thread id, and the entries of the threads were distinct.
pub post_from_thread :
    {A B : Type 0} (capacity : ℕ) (q : Queue A B) (cached : Option ℕ) (tid : ℕ)
    (action : Callable A B) (q' : Queue A B) (cached' : Option ℕ)
    → Registered q
    → tid ≢ 0
    → is_local q tid ≡ false
    → post_action capacity q cached tid action ≡ some (q', ok tt, cached')
    → (i : ℕ) × (p : Producer A B) × (pq : ProducerQueue A B) × Owns
        (get_thread_producer_queue_entry q cached tid).0
        tid
        i
      × (get_elem? (get_thread_producer_queue_entry q cached tid).0.external_producer_queue i
          ≡ some p)
      × (pq.queue ≡ p.producer_queue.queue ++ entry_for p.producer_queue.prepared_entry action ∷ [])
      × (pq.prepared_entry ≡ none)
      × (q' ≡ with_producer_queue (get_thread_producer_queue_entry q cached tid).0 i p pq)
unfolding post_action on_producer DoneBy Owns
post_from_thread {A} {B} capacity q cached tid action q' cached' v real there e =
    let away : post_action capacity q cached tid action
        ≡ on_producer q cached tid (push_ok capacity action) =
      rw (post_action, there) in
    let done : finish (push_ok capacity action) (get_thread_producer_queue_entry q cached tid)
        ≡ some (q', ok tt, cached') =
      sym away ∙ e in
    let (i, p, pq, at, same, lt, pushed, left) =
      finish_done tid (push_ok capacity action) (get_thread_producer_queue_entry q cached tid) q'
        cached' (lookup-Looked q cached tid v real) done in
    let (entries, used) =
      push_lem capacity p.producer_queue action pq
        (push_ok_lem capacity p.producer_queue action pq pushed) in
    (i, p, pq, (p, at, same, lt), at, entries, used, left)
