-- ===== src/Shm/Ring/Interleave.antt =====
-- `FixedConstructLenSPSC` under one producer thread and one consumer thread, whose loads and stores
-- of `_head`, `_tail` and the storage interleave in any order. The ring indices are atomics with
-- release stores and acquire loads, so that each access is one step.
pub mod Safety
use medici.Prelude.{
  store, ℕ, zero, suc, ◌+◌, ◌-◌, ◌%◌, ◌≤◌, ◌<◌, ◌≡◌, ◌≢◌, refl, ap, sym, ◌∙◌, List, [], ◌∷◌, ◌++◌,
  arith, append_assoc, append-nil,
}
use medici.Shm.Ring.{Ring, next_index, construct}
use medici.Shm.Ring.Modulo.{distance}
use medici.Shm.Ring.Bounds.{IsValid}
use medici.Shm.Ring.Refine.{contents, count}

-- Where the producer stands in `enqueue`.
pub data Producer (A : Type 0) : Type 0 where
  idle : Producer A
  -- the head has been loaded and is not the target tail
  has_room : A → Producer A
  -- the entry is in the storage, the tail is not stored yet
  written : A → Producer A

-- Where the consumer stands in `consume`.
pub data Consumer (A : Type 0) : Type 0 where
  idle : Consumer A
  -- the tail has been loaded and is not the head
  available : Consumer A
  -- the handler has run on the entry, the head is not stored yet
  handled : A → Consumer A

-- The shared ring, the two threads, the entries that `enqueue` accepted and those that handlers got,
-- both in order.
pub record System (A : Type 0) : Type 0 where
  pub ring : Ring A
  pub producer : Producer A
  pub consumer : Consumer A
  pub sent : List A
  pub received : List A

abbrev pub init : {A : Type 0} → ℕ → ℕ → (ℕ → A) → System A
init size channel mem = record {
  ring = construct size channel mem;
  producer = Producer.idle;
  consumer = Consumer.idle;
  sent = [];
  received = [];
}

-- One access to the shared memory. A refused `enqueue` and a `consume` of an empty ring change
-- nothing and take no step.
pub data Step {A : Type 0} (s : System A) : System A → Type 0 where
  load_head :
      (x : A)
      → s.producer ≡ Producer.idle
      → next_index s.ring s.ring.tail ≢ s.ring.head
      → Step s (record s { producer = Producer.has_room x })
  write_entry :
      (x : A)
      → s.producer ≡ Producer.has_room x
      → Step s (record s {
        ring = record (s.ring) { storage = store s.ring.storage s.ring.tail x };
        producer = Producer.written x;
      })
  store_tail :
      (x : A)
      → s.producer ≡ Producer.written x
      → Step s (record s {
        ring = record (s.ring) { tail = next_index s.ring s.ring.tail };
        producer = Producer.idle;
        sent = s.sent ++ x ∷ [];
      })
  load_tail :
      s.consumer ≡ Consumer.idle
      → s.ring.head ≢ s.ring.tail
      → Step s (record s { consumer = Consumer.available })
  handle_entry :
      s.consumer ≡ Consumer.available
      → Step s (record s {
        consumer = Consumer.handled (s.ring.storage s.ring.head);
        received = s.received ++ s.ring.storage s.ring.head ∷ [];
      })
  store_head :
      (x : A)
      → s.consumer ≡ Consumer.handled x
      → Step s (record s {
        ring = record (s.ring) { head = next_index s.ring s.ring.head };
        consumer = Consumer.idle;
      })

pub data Reach {A : Type 0} (s : System A) : System A → Type 0 where
  here : Reach s s
  next : {t u : System A} → Reach s t → Step t u → Reach s u

-- The entries that are in the ring and not yet with the consumer's handler.
abbrev pub unread : {A : Type 0} → Consumer A → List A → List A
unread (Consumer.handled x) (y ∷ q) = q
unread c q = q
