-- ===== src/EventQueue/Payloads.antt =====
-- The local store of payloads: its counter, and when its slots are used again.
use medici.Prelude.{
  ℕ, zero, suc, ◌+◌, ◌%◌, ◌^◌, ◌<◌, ◌≡◌, ◌≢◌, refl, ap, sym, subst, ◌∙◌, [], ◌∷◌, ◌++◌, none, some,
  ok, arith, length, length-append,
}
use medici.EventQueue.{Callable, release, Queue}
use medici.EventQueue.Threads.{size_mod, no_entry, with_action}
use medici.EventQueue.Post.{get_local_payload, post_local}
use native.Mathlib.Nat.{mod-eq_of_lt, mod-lt, add-mod_right}
use medici.Shm.Ring.Modulo.{next-add-mod}

-- Reserves a payload and posts an action with it.
abbrev pub reserve : {A B : Type 0} → ℕ → Callable A B → Queue A B → Queue A B
reserve capacity action q = post_local (get_local_payload capacity q).0 action

unfoldable pub reserve_all : {A B : Type 0} → ℕ → Callable A B → ℕ → Queue A B → Queue A B
reserve_all capacity action zero q = q
reserve_all capacity action (suc k) q = reserve_all capacity action k (reserve capacity action q)

-- A queue with a usable store.
pub record Usable {A B : Type 0} (capacity : ℕ) (q : Queue A B) : Type 0 where
  pub in_range : q.next_action_payload < capacity
  pub small : capacity < 2 ^ 32
  pub not_engaged : q.prepared_entry ≡ none
  pub has_room : q.active_async_store_entries ≢ capacity

-- What a reservation leaves.
abbrev reserved : {A B : Type 0} → ℕ → Callable A B → Queue A B → Queue A B
reserved capacity action q = record q {
  local_event_queue = q.local_event_queue ++ with_action (no_entry (some release)) action ∷ [];
  next_action_payload = (q.next_action_payload + 1) % size_mod % capacity;
  prepared_entry = none;
}

get_local_lem :
    {A B : Type 0} (capacity : ℕ) (q : Queue A B)
    → Usable capacity q
    → get_local_payload capacity q ≡ (
      record q {
        next_action_payload = (q.next_action_payload + 1) % size_mod % capacity;
        prepared_entry = some (no_entry (some release));
      },
      ok q.next_action_payload,
    )
unfolding get_local_payload
get_local_lem capacity q u = ground (arith, u.not_engaged, u.has_room)

reserve_lem :
    {A B : Type 0} (capacity : ℕ) (action : Callable A B) (q : Queue A B)
    → Usable capacity q
    → reserve capacity action q ≡ reserved capacity action q
reserve_lem capacity action q u = ap (λ z. post_local z.0 action) (get_local_lem capacity q u)

next_slot : (n c : ℕ) → n < c → c < 2 ^ 32 → (n + 1) % size_mod % c ≡ (n + 1) % c
next_slot n c h k = ap (λ z. z % c) (mod-eq_of_lt (omega arith))

reserved-Usable :
    {A B : Type 0} (capacity : ℕ) (action : Callable A B) (q : Queue A B)
    → Usable capacity q
    → Usable capacity (reserved capacity action q)
reserved-Usable capacity action q u = record {
  in_range = mod-lt ((q.next_action_payload + 1) % size_mod) (omega (arith, u.in_range));
  small = u.small;
  not_engaged = refl;
  has_room = u.has_room;
}

reserve_all_lem :
    {A B : Type 0} (capacity k : ℕ) (action : Callable A B) (q : Queue A B)
    → Usable capacity q
    → let q' = reserve_all capacity action k q in
      Usable capacity q'
      × (q'.next_action_payload % capacity ≡ (q.next_action_payload + k) % capacity)
      × (length q'.local_event_queue ≡ length q.local_event_queue + k)
      × (q'.active_async_store_entries ≡ q.active_async_store_entries)
unfolding reserve_all
reserve_all_lem capacity zero action q u =
    (u, ap (λ z. z % capacity) (omega arith), omega arith, refl)
reserve_all_lem {A} {B} capacity (suc k) action q u =
    let one = reserve_lem capacity action q u in
    let (v, slot, len, count) =
      reserve_all_lem capacity k action (reserved capacity action q)
        (reserved-Usable capacity action q u) in
    let all : reserve_all capacity action k (reserve capacity action q)
        ≡ reserve_all capacity action k (reserved capacity action q) =
      ap (reserve_all capacity action k) one in
    (
      subst (Usable capacity) (sym all) v,
      ap (λ z. z.next_action_payload % capacity) all
          ∙ slot
          ∙ ap (λ z. (z + k) % capacity)
              (next_slot q.next_action_payload capacity u.in_range u.small)
          ∙ next-add-mod capacity q.next_action_payload k,
      ap (λ z. length z.local_event_queue) all
          ∙ len
          ∙ omega (
            arith,
            length-append q.local_event_queue (with_action (no_entry (some release)) action ∷ []),
          ),
      ap (λ z. z.active_async_store_entries) all ∙ count,
    )

-- The slot of the reservation behind `k` others.
slot_lem :
    {A B : Type 0} (capacity k : ℕ) (action : Callable A B) (q : Queue A B)
    → Usable capacity q
    → (get_local_payload capacity (reserve_all capacity action k q)).1
      ≡ ok ((q.next_action_payload + k) % capacity)
slot_lem capacity k action q u =
    let (v, slot, len, count) = reserve_all_lem capacity k action q u in
    ap (λ z. z.1) (get_local_lem capacity (reserve_all capacity action k q) v)
    ∙ ap ok (sym (mod-eq_of_lt v.in_range) ∙ slot)

-- The store does not notice that it is full: every reservation succeeds, however many payloads before it
-- still wait in the local queue, and it gets the slot of the one that came as many before it as the store
-- has slots. No payload is being prepared at first, the counter is in the store, the count of active entries
-- is not the capacity, and the capacity is below 2 ^ 32.
pub payload_reused :
    {A B : Type 0} (capacity k : ℕ) (action : Callable A B) (q : Queue A B)
    → Usable capacity q
    → (length (reserve_all capacity action (k + capacity) q).local_event_queue
        ≡ length q.local_event_queue + (k + capacity))
      × ((get_local_payload capacity (reserve_all capacity action k q)).1
          ≡ ok ((q.next_action_payload + k) % capacity))
      × ((get_local_payload capacity (reserve_all capacity action (k + capacity) q)).1
          ≡ ok ((q.next_action_payload + k) % capacity))
payload_reused capacity k action q u =
    let (v, slot, len, count) = reserve_all_lem capacity (k + capacity) action q u in
    let rounds : (q.next_action_payload + (k + capacity)) % capacity
        ≡ (q.next_action_payload + k) % capacity =
      ap (λ (n : ℕ). n % capacity) (omega arith)
      ∙ add-mod_right (q.next_action_payload + k) capacity in
    (
      len,
      slot_lem capacity k action q u,
      slot_lem capacity (k + capacity) action q u ∙ ap (λ (n : ℕ). ok n) rounds,
    )
