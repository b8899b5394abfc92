-- ===== src/EventQueue/Local.antt =====
-- The local queue: first in, first out, one entry per cycle, and an action that is not finished goes to
-- the back.
use medici.Prelude.{
  ℕ, ◌+◌, ◌%◌, ◌≡◌, refl, ap, ◌∙◌, true, false, List, [], ◌∷◌, ◌++◌, Option, none, some, Result, ok,
  err, arith, Expected,
}
use medici.EventQueue.{
  Error, async, Deleter, release, destroy, destroy_release, PostEntry, Queue, Host,
}
use medici.EventQueue.Threads.{size_mod}
use medici.EventQueue.Post.{is_local, post_async_action}
use medici.EventQueue.Cycle.{
  apply, delete_payload, dispatch_local, is_empty, pop_local, deleter_of, without_first, checked,
  pure, then_do, repost, posted,
}
use medici.EventQueue.Steps.{local_entry}

module _ {A B S : Type 0} (host : Host A B S) where
  delete-local :
      (d : Option Deleter) (q : Queue A B) (s : S)
      → (delete_payload host d q s).0.local_event_queue ≡ q.local_event_queue
  unfolding delete_payload
  delete-local none q s = refl
  delete-local (some release) q s = refl
  delete-local (some (destroy n)) q s = refl
  delete-local (some (destroy_release n)) q s = refl

-- The count that a dispatch leaves, or the error of the action.
abbrev pub counted : ℕ → Expected Error → Result Error ℕ
counted n (ok u) = ok ((n + 1) % size_mod)
counted n (err e) = err e

checked_lem :
    {A B S : Type 0} (n : ℕ) (r : Expected Error) (q : Queue A B) (s : S)
    → checked (λ u. pure (ok ((n + 1) % size_mod))) r q s ≡ (ok (counted n r), q, s)
checked_lem n (ok u) q s = refl
checked_lem n (err e) q s = refl

-- Dispatching from the local queue takes the oldest entry: when its action returns, with a result or an
-- error, having posted the entries `new`, then its payload has been deleted once, by its own delete
-- function, and the entries behind it stand before the new ones.
pub dispatch_local_fifo :
    {A B S : Type 0} (host : Host A B S) (tid n : ℕ) (q : Queue A B) (s : S) (e : PostEntry A B)
    (es new : List (PostEntry A B)) (r : Expected Error) (q1 : Queue A B) (s1 : S)
    → q.local_event_queue ≡ e ∷ es
    → is_empty e.action ≡ false
    → apply host tid e.action q s ≡ (ok r, q1, s1)
    → q1.local_event_queue ≡ (e ∷ es) ++ new
    → let (x, q', s') = dispatch_local host tid n q s in
      (x ≡ ok (counted n r))
      × (q'.local_event_queue ≡ es ++ new)
      × (q'.active_async_store_entries
          ≡ (delete_payload host e.payload_delete_function q1 s1).0.active_async_store_entries)
      × (s' ≡ (delete_payload host e.payload_delete_function q1 s1).1)
dispatch_local_fifo {A} {B} {S} host tid n q s e es new r q1 s1 h full call posted =
    let del : Queue A B × S = delete_payload host (deleter_of q1.local_event_queue) q1 s1 in
    let done : dispatch_local host tid n q s ≡ (ok (counted n r), pop_local del.0, del.1) =
      local_entry host tid n q s e es h full
      ∙ ap
          (λ z. then_do z (λ r q1 s1.
            let (q2, s2) = delete_payload host (deleter_of q1.local_event_queue) q1 s1 in
            checked (λ u. pure (ok ((n + 1) % size_mod))) r (pop_local q2) s2))
          call
      ∙ checked_lem n r (pop_local del.0) del.1 in
    let own : del ≡ delete_payload host e.payload_delete_function q1 s1 =
      ap (λ xs. delete_payload host (deleter_of xs) q1 s1) posted in
    (
      ap (λ z. z.0) done,
      ap (λ z. z.1.local_event_queue) done
          ∙ ap without_first (delete-local host (deleter_of q1.local_event_queue) q1 s1 ∙ posted),
      ap (λ z. z.1.active_async_store_entries) done ∙ ap (λ z. z.0.active_async_store_entries) own,
      ap (λ z. z.2) done ∙ ap (λ z. z.1) own,
    )

abbrev pub async_entry : {A B : Type 0} → B → PostEntry A B
async_entry b = record { action = async b; payload_delete_function = none }

repost_lem :
    {A B S : Type 0} (host : Host A B S) (tid : ℕ) (q : Queue A B) (s : S) (b : B)
    → q.prepared_entry ≡ none
    → is_local q tid ≡ true
    → posted (post_async_action host.capacity q none tid b) q s
      ≡ (ok (ok tt), record q { local_event_queue = q.local_event_queue ++ async_entry b ∷ [] }, s)
unfolding post_async_action
repost_lem host tid q s b free here = ground (arith, free, here)

-- An asynchronous action that has not finished, and has posted nothing, goes to the back of the local queue, on the thread of the
-- queue: every other entry has its turn before it is called again. No payload is being prepared.
pub unfinished_goes_last :
    {A B S : Type 0} (host : Host A B S) (tid n : ℕ) (q : Queue A B) (s : S) (b b' : B)
    (d : Option Deleter) (es : List (PostEntry A B)) (q1 : Queue A B) (s1 : S)
    → q.local_event_queue ≡ record { action = async b; payload_delete_function = d } ∷ es
    → host.call_async b q s ≡ (ok (ok false, b'), q1, s1)
    → q1.local_event_queue ≡ q.local_event_queue
    → q1.prepared_entry ≡ none
    → is_local q1 tid ≡ true
    → let (x, q', s') = dispatch_local host tid n q s in
      (x ≡ ok (ok ((n + 1) % size_mod))) × (q'.local_event_queue ≡ es ++ async_entry b' ∷ [])
unfolding apply
unfinished_goes_last {A} {B} {S} host tid n q s b b' d es q1 s1 h call same free here =
    let e : PostEntry A B = record { action = async b; payload_delete_function = d } in
    let (x, left, _, _) =
      dispatch_local_fifo host tid n q s e es (async_entry b' ∷ []) (ok tt) _ s1 h refl
        (ap (λ z. then_do z (repost host tid)) call ∙ repost_lem host tid q1 s1 b' free here)
        (ap (λ xs. xs ++ async_entry b' ∷ []) (same ∙ h)) in
    (x, left)
