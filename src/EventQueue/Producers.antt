-- ===== src/EventQueue/Producers.antt =====
-- event_queue/EventQueue.hpp: the turn of the producer threads in a cycle.
use medici.Prelude.{
  ℕ, ◌+◌, ◌%◌, ◌≡◌, refl, ap, sym, ◌∙◌, arith, List, [], ◌∷◌, ◌++◌, map, Option, none, some, Result,
  ok, length, get_elem?, set, All, append_assoc, length-append,
}
use medici.EventQueue.{
  Error, Callable, user, async, push_precision, push_idle, empty, Deleter, release, destroy,
  destroy_release, PostEntry, Producer, Queue, Exception, Host,
}
use medici.EventQueue.Threads.{size_mod}
use medici.EventQueue.Cycle.{
  apply, delete_payload, dispatch_producer, dispatch_producers, producer_entries, pop_producer,
  deleter_of, without_first, checked, pure, then_do,
}
use medici.EventQueue.Steps.{producer_none, producer_entry, producers_done, producers_next}

abbrev pub with_entries : {A B : Type 0} → Producer A B → List (PostEntry A B) → Producer A B
with_entries p es = record p { producer_queue = record p.producer_queue { queue = es } }

-- A producer behind its turn: its oldest entry is gone.
abbrev pub served : {A B : Type 0} → Producer A B → Producer A B
served p = with_entries p (without_first p.producer_queue.queue)

abbrev pub IsUser : {A B : Type 0} → Callable A B → Type 0
IsUser (user a) = Unit
IsUser other = ⊥

abbrev pub UserEntries : {A B : Type 0} → Producer A B → Type 0
UserEntries p = All (λ e. IsUser e.action) p.producer_queue.queue

-- The queue with these producers, of which the first `active` are in use.
abbrev pub with_producers : {A B : Type 0} → Queue A B → ℕ → List (Producer A B) → Queue A B
with_producers q active ps = record q { external_producer_queue = ps; active_producers = active }

get_lem :
    {A : Type 0} (front : List A) (p : A) (more : List A)
    → get_elem? (front ++ (p ∷ more)) (length front) ≡ some p
get_lem [] p more = refl
get_lem (x ∷ front) p more = get_lem front p more

set_lem :
    {A : Type 0} (front : List A) (p v : A) (more : List A)
    → set (front ++ (p ∷ more)) (length front) v ≡ front ++ (v ∷ more)
set_lem [] p v more = refl
set_lem (x ∷ front) p v more = ap (λ l. x ∷ l) (set_lem front p v more)

module _ {A B S : Type 0} (host : Host A B S) (logged : A → S → S) where
  abbrev pub act : Callable A B → S → S
  act (user a) s = logged a s
  act other s = s

  -- What a turn does apart from the queue of the producer: the action of the oldest entry is called, and then
  -- its payload is deleted.
  unfoldable pub turn : List (PostEntry A B) → Queue A B × S → Queue A B × S
  turn [] z = z
  turn (e ∷ es) (q, s) = delete_payload host e.payload_delete_function q (act e.action s)

  unfoldable pub turns : List (Producer A B) → Queue A B × S → Queue A B × S
  unfolding turn
  turns [] z = z
  turns (p ∷ ps) z = turns ps (turn p.producer_queue.queue z)

  abbrev pub count_turn : List (PostEntry A B) → ℕ → ℕ
  count_turn [] n = n
  count_turn (e ∷ es) n = (n + 1) % size_mod

  abbrev pub count_turns : List (Producer A B) → ℕ → ℕ
  count_turns [] n = n
  count_turns (p ∷ ps) n = count_turns ps (count_turn p.producer_queue.queue n)

  delete_lem :
      (d : Option Deleter) (q : Queue A B) (active : ℕ) (ps : List (Producer A B)) (s : S)
      → delete_payload host d (with_producers q active ps) s
        ≡ (with_producers (delete_payload host d q s).0 active ps, (delete_payload host d q s).1)
  unfolding delete_payload
  delete_lem none q active ps s = refl
  delete_lem (some release) q active ps s = refl
  delete_lem (some (destroy n)) q active ps s = refl
  delete_lem (some (destroy_release n)) q active ps s = refl

  entries_lem :
      (q : Queue A B) (active : ℕ) (front more : List (Producer A B)) (p : Producer A B)
      → producer_entries (with_producers q active (front ++ (p ∷ more))) (length front)
        ≡ p.producer_queue.queue
  entries_lem q active front more p =
      ap
        (λ r. elim r as (λ x. List (PostEntry A B)) [ none ↦ [] | some p ↦ p.producer_queue.queue ])
        (get_lem front p more)

  pop_lem :
      (q : Queue A B) (active : ℕ) (front more : List (Producer A B)) (p : Producer A B)
      → pop_producer (with_producers q active (front ++ (p ∷ more))) (length front)
        ≡ with_producers q active (front ++ (served p ∷ more))
  pop_lem q active front more p =
      ap
        (λ r. elim r as (λ x. Queue A B) [
          | none ↦ with_producers q active (front ++ (p ∷ more))
          | some p' ↦ with_producers q active (set (front ++ (p ∷ more)) (length front) (served p'))
        ])
        (get_lem front p more)
      ∙ ap (λ l. with_producers q active l) (set_lem front p (served p) more)

  apply_lem :
      (tid : ℕ) (c : Callable A B) (q : Queue A B) (s : S)
      → ((a : A) (q : Queue A B) (s : S) → host.call a q s ≡ (ok (ok tt), q, logged a s))
      → IsUser c
      → apply host tid c q s ≡ (ok (ok tt), q, act c s)
  unfolding apply
  apply_lem tid (user a) q s calls is_user = calls a q s
  apply_lem tid (async b) q s calls is_user = absurd is_user
  apply_lem tid (push_precision t c) q s calls is_user = absurd is_user
  apply_lem tid (push_idle t c) q s calls is_user = absurd is_user
  apply_lem tid empty q s calls is_user = absurd is_user

  one_lem :
      (tid n : ℕ) (q : Queue A B) (active : ℕ) (front more : List (Producer A B)) (p : Producer A B)
      (es : List (PostEntry A B)) (s : S)
      → ((a : A) (q : Queue A B) (s : S) → host.call a q s ≡ (ok (ok tt), q, logged a s))
      → All (λ e. IsUser e.action) es
      → dispatch_producer host tid
          (length front)
          n
          (with_producers q active (front ++ (with_entries p es ∷ more)))
          s
        ≡ (
          ok (ok (count_turn es n)),
          with_producers
              (turn es (q, s)).0
              active
              (front ++ (with_entries p (without_first es) ∷ more)),
          (turn es (q, s)).1,
        )
  unfolding turn
  one_lem tid n q active front more p [] s calls users =
      producer_none host tid n (with_producers q active (front ++ (with_entries p [] ∷ more))) s
        (length front) (entries_lem q active front more (with_entries p []))
  one_lem tid n q active front more p (e ∷ es) s calls users =
      let q0 = with_producers q active (front ++ (with_entries p (e ∷ es) ∷ more)) in
      let d = e.payload_delete_function in
      let entries = entries_lem q active front more (with_entries p (e ∷ es)) in
      let finish : Queue A B × S → Result Exception (Result Error ℕ) × Queue A B × S =
        λ z. (ok (ok ((n + 1) % size_mod)), pop_producer z.0 (length front), z.1) in
      producer_entry host tid n q0 s (length front) e es entries
      ∙ ap
          (λ z. then_do z (λ r q1 s1.
            let (q2, s2) =
              delete_payload host (deleter_of (producer_entries q1 (length front))) q1 s1 in
            checked (λ u. pure (ok ((n + 1) % size_mod))) r (pop_producer q2 (length front)) s2))
          (apply_lem tid e.action q0 s calls users.0)
      ∙ ap (λ es. finish (delete_payload host (deleter_of es) q0 (act e.action s))) entries
      ∙ ap finish
          (delete_lem d q active (front ++ (with_entries p (e ∷ es) ∷ more)) (act e.action s))
      ∙ ap (λ q'. (ok (ok ((n + 1) % size_mod)), q', (delete_payload host d q (act e.action s)).1))
          (pop_lem (delete_payload host d q (act e.action s)).0 active front more
            (with_entries p (e ∷ es)))

  from_lem :
      (tid n i active : ℕ) (q : Queue A B) (front ps rest : List (Producer A B)) (s : S)
      → ((a : A) (q : Queue A B) (s : S) → host.call a q s ≡ (ok (ok tt), q, logged a s))
      → All UserEntries ps
      → i ≡ length front
      → active ≡ length front + length ps
      → dispatch_producers host tid
          (length (ps ++ rest))
          i
          n
          (with_producers q active (front ++ (ps ++ rest)))
          s
        ≡ (
          ok (ok (count_turns ps n)),
          with_producers (turns ps (q, s)).0 active (front ++ (map served ps ++ rest)),
          (turns ps (q, s)).1,
        )
  unfolding turns dispatch_producers
  from_lem tid n i active q front [] [] s calls users at size = refl
  from_lem tid n i active q front [] (r ∷ rest) s calls users at size =
      producers_done host tid n (with_producers q active (front ++ (r ∷ rest))) s (length rest) i
        (ground (arith, at, size))
  from_lem tid n i active q front (p ∷ ps) rest s calls users at size =
      let q0 = with_producers q active (front ++ (p ∷ (ps ++ rest))) in
      let es = p.producer_queue.queue in
      let z = turn es (q, s) in
      let next : length (front ++ (served p ∷ [])) ≡ length front + 1 =
        length-append front (served p ∷ []) in
      producers_next host tid n q0 s (length (ps ++ rest)) i (ground (arith, at, size))
      ∙ ap
          (λ (j : ℕ).
            then_do (dispatch_producer host tid j n q0 s)
              (checked (λ m. dispatch_producers host tid (length (ps ++ rest)) (i + 1) m)))
          at
      ∙ ap
          (λ r.
            then_do r (checked (λ m. dispatch_producers host tid (length (ps ++ rest)) (i + 1) m)))
          (one_lem tid n q active front (ps ++ rest) p es s calls users.0)
      ∙ ap
          (λ l.
            dispatch_producers host tid (length (ps ++ rest)) (i + 1) (count_turn es n)
              (with_producers z.0 active l) z.1)
          (sym (append_assoc front (served p ∷ []) (ps ++ rest)))
      ∙ from_lem tid (count_turn es n) (i + 1) active z.0 (front ++ (served p ∷ [])) ps rest z.1
          calls users.1 (omega (arith, at, next)) (omega (arith, size, next))
      ∙ ap
          (λ l. (
            ok (ok (count_turns ps (count_turn es n))),
            with_producers (turns ps z).0 active l,
            (turns ps z).1,
          ))
          (append_assoc front (served p ∷ []) (map served ps ++ rest))

  -- A cycle gives each producer thread in use one turn, in the order of their registration: the oldest entry of
  -- each is called, its payload is deleted behind the call by its own function, and the entry leaves its queue;
  -- a producer with an empty queue, and those not in use, are left alone. The count grows by one for each entry
  -- that was called. The entries are callbacks of the application that succeed and leave the queue alone.
  pub dispatch_producers-turns :
      (tid n : ℕ) (q : Queue A B) (ps rest : List (Producer A B)) (s : S)
      → ((a : A) (q : Queue A B) (s : S) → host.call a q s ≡ (ok (ok tt), q, logged a s))
      → All UserEntries ps
      → dispatch_producers host tid
          (length (ps ++ rest))
          0
          n
          (with_producers q (length ps) (ps ++ rest))
          s
        ≡ (
          ok (ok (count_turns ps n)),
          with_producers (turns ps (q, s)).0 (length ps) (map served ps ++ rest),
          (turns ps (q, s)).1,
        )
  dispatch_producers-turns tid n q ps rest s calls users =
      from_lem tid n 0 (length ps) q [] ps rest s calls users refl (omega arith)
