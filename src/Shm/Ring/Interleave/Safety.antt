-- ===== src/Shm/Ring/Interleave/Safety.antt =====
-- No interleaving of the producer and the consumer loses, repeats, reorders or tears an entry.
use medici.Prelude.{
  store, ℕ, ◌+◌, ◌^◌, ◌<◌, ◌≡◌, ◌≢◌, refl, ap, sym, ◌∙◌, subst, List, [], ◌∷◌, ◌++◌, arith,
  append_assoc, length,
}
use medici.Shm.Ring.{Ring, next_index, construct}
use medici.Shm.Ring.Bounds.{IsValid, next_index-lt, construct-IsValid}
use medici.Shm.Ring.Refine.{
  contents, contents_empty, count, length-contents, contents-store_entry, store_tail_lem,
  store_head_lem, count-pos, count-room,
}
use medici.Shm.Ring.Modulo.{distance_self}
use medici.Shm.Ring.Interleave.{
  Producer, Consumer, System, Step, load_head, write_entry, store_tail, load_tail, handle_entry,
  store_head, Reach, here, next, init, unread,
}

abbrev ProducerSees : {A : Type 0} → Producer A → Ring A → Type 0
ProducerSees Producer.idle r = Unit {0}
ProducerSees (Producer.has_room x) r = count r + 1 < r.queue_size
ProducerSees (Producer.written x) r = (count r + 1 < r.queue_size) × (r.storage r.tail ≡ x)

-- The number is that of the entries in the ring.
abbrev ConsumerSees : {A : Type 0} → Consumer A → ℕ → Type 0
ConsumerSees Consumer.idle n = Unit {0}
ConsumerSees Consumer.available n = 0 < n
ConsumerSees (Consumer.handled x) n = 0 < n

record Inv {A : Type 0} (s : System A) : Type 0 where
  valid : IsValid s.ring
  room : ProducerSees s.producer s.ring
  ready : ConsumerSees s.consumer (count s.ring)
  order : s.sent ≡ s.received ++ unread s.consumer (contents s.ring)

-- What each thread saw stays true while the other one moves.
ConsumerSees-grow :
    {A : Type 0} (c : Consumer A) (m n : ℕ) → n ≡ m + 1 → ConsumerSees c m → ConsumerSees c n
ConsumerSees-grow Consumer.idle m n e h = tt
ConsumerSees-grow Consumer.available m n e h = omega arith
ConsumerSees-grow (Consumer.handled x) m n e h = omega arith

ProducerSees-shrink :
    {A : Type 0} (p : Producer A) (r : Ring A) (h : ℕ)
    → count r ≡ count (record r { head = h }) + 1
    → ProducerSees p r
    → ProducerSees p (record r { head = h })
ProducerSees-shrink Producer.idle r h e s = tt
ProducerSees-shrink (Producer.has_room x) r h e s = omega arith
ProducerSees-shrink (Producer.written x) r h e s = (omega arith, s.1)

-- With an entry in the ring, one more behind it is one more unread.
unread-snoc :
    {A : Type 0} (c : Consumer A) (q : List A) (x : A)
    → ConsumerSees c (length q)
    → unread c (q ++ x ∷ []) ≡ unread c q ++ x ∷ []
unread-snoc Consumer.idle q x h = refl
unread-snoc Consumer.available q x h = refl
unread-snoc (Consumer.handled y) [] x h = absurd (omega arith)
unread-snoc (Consumer.handled y) (z ∷ q) x h = refl

module _ {A : Type 0} {s : System A} (i : Inv s) where
  write_entry-Inv :
      (x : A)
      → s.producer ≡ Producer.has_room x
      → Inv (record s {
        ring = record (s.ring) { storage = store s.ring.storage s.ring.tail x };
        producer = Producer.written x;
      })
  write_entry-Inv x e = record {
    valid = record { head_in = i.valid.head_in; tail_in = i.valid.tail_in; small = i.valid.small };
    room = (subst (λ p. ProducerSees p s.ring) e i.room, ground arith);
    ready = i.ready;
    order =
        i.order
        ∙ ap (λ q. s.received ++ unread s.consumer q) (sym (contents-store_entry s.ring i.valid x));
  }

  store_tail-Inv :
      (x : A)
      → s.producer ≡ Producer.written x
      → Inv (record s {
        ring = record (s.ring) { tail = next_index s.ring s.ring.tail };
        producer = Producer.idle;
        sent = s.sent ++ x ∷ [];
      })
  store_tail-Inv x e = record {
    valid = record {
      head_in = i.valid.head_in;
      tail_in = next_index-lt s.ring.tail i.valid;
      small = i.valid.small;
    };
    room = tt;
    ready = ConsumerSees-grow s.consumer _ _ stored.0 i.ready;
    order =
        ap (λ q. q ++ x ∷ []) i.order
        ∙ append_assoc s.received _ _
        ∙ ap (◌++◌ s.received) (
            sym (
              unread-snoc s.consumer (contents s.ring) x
                (subst (ConsumerSees s.consumer) (sym (length-contents s.ring)) i.ready))
            ∙ ap (λ y. unread s.consumer (contents s.ring ++ y ∷ [])) (sym seen.1)
            ∙ ap (unread s.consumer) (sym stored.1));
  }
    where
      seen : ProducerSees (Producer.written x) s.ring
      seen = subst (λ p. ProducerSees p s.ring) e i.room

      stored :
          let r' = record (s.ring) { tail = next_index s.ring s.ring.tail } in
          (count r' ≡ count s.ring + 1)
          × (contents r' ≡ contents s.ring ++ s.ring.storage s.ring.tail ∷ [])
      stored = store_tail_lem s.ring i.valid seen.0

  handle_entry-Inv :
      s.consumer ≡ Consumer.available
      → Inv (record s {
        consumer = Consumer.handled (s.ring.storage s.ring.head);
        received = s.received ++ s.ring.storage s.ring.head ∷ [];
      })
  handle_entry-Inv e = record {
    valid = i.valid;
    room = i.room;
    ready = some;
    order =
        i.order
        ∙ ap (λ c. s.received ++ unread c (contents s.ring)) e
        ∙ ap (◌++◌ s.received) front
        ∙ sym (append_assoc s.received _ _)
        ∙ ap
            (λ q.
              (s.received ++ s.ring.storage s.ring.head ∷ [])
              ++ unread (Consumer.handled (s.ring.storage s.ring.head)) q)
            (sym front);
  }
    where
      some : 0 < count s.ring
      some = subst (λ c. ConsumerSees c (count s.ring)) e i.ready

      front :
          contents s.ring
          ≡ s.ring.storage s.ring.head
            ∷ contents (record (s.ring) { head = next_index s.ring s.ring.head })
      front = (store_head_lem s.ring i.valid some).1

  store_head-Inv :
      (x : A)
      → s.consumer ≡ Consumer.handled x
      → Inv (record s {
        ring = record (s.ring) { head = next_index s.ring s.ring.head };
        consumer = Consumer.idle;
      })
  store_head-Inv x e = record {
    valid = record {
      head_in = next_index-lt s.ring.head i.valid;
      tail_in = i.valid.tail_in;
      small = i.valid.small;
    };
    room = ProducerSees-shrink s.producer s.ring _ moved.0 i.room;
    ready = tt;
    order =
        i.order
        ∙ ap (λ c. s.received ++ unread c (contents s.ring)) e
        ∙ ap (λ q. s.received ++ unread (Consumer.handled x) q) moved.1;
  }
    where
      moved :
          let r' = record (s.ring) { head = next_index s.ring s.ring.head } in
          (count s.ring ≡ count r' + 1)
          × (contents s.ring ≡ s.ring.storage s.ring.head ∷ contents r')
      moved = store_head_lem s.ring i.valid (subst (λ c. ConsumerSees c (count s.ring)) e i.ready)

Step-Inv : {A : Type 0} {s t : System A} → Step s t → Inv s → Inv t
Step-Inv {s = s} (load_head x e ne) i = record {
  valid = i.valid;
  room = count-room s.ring i.valid ne;
  ready = i.ready;
  order = i.order;
}
Step-Inv (write_entry x e) i = write_entry-Inv i x e
Step-Inv (store_tail x e) i = store_tail-Inv i x e
Step-Inv {s = s} (load_tail e ne) i = record {
  valid = i.valid;
  room = i.room;
  ready = count-pos s.ring i.valid ne;
  order = i.order ∙ ap (λ c. s.received ++ unread c (contents s.ring)) e;
}
Step-Inv (handle_entry e) i = handle_entry-Inv i e
Step-Inv (store_head x e) i = store_head-Inv i x e

init-Inv :
    {A : Type 0} (size channel : ℕ) (mem : ℕ → A) → size + 1 < 2 ^ 32 → Inv (init size channel mem)
unfolding construct
init-Inv size channel mem h = record {
  valid = construct-IsValid size channel mem h;
  room = tt;
  ready = tt;
  order =
      sym (contents_empty (construct size channel mem) (construct-IsValid size channel mem h) refl);
}

Reach-Inv : {A : Type 0} {s t : System A} → Inv s → Reach s t → Inv t
Reach-Inv i here = i
Reach-Inv i (next r st) = Step-Inv st (Reach-Inv i r)

-- Whatever the interleaving of the two threads on a new ring, the handlers have received a front part of
-- what was sent, in order, and the ring holds the rest. The size of the ring, plus one, is below 2 ^ 32.
pub Reach-order :
    {A : Type 0} (size channel : ℕ) (mem : ℕ → A) {t : System A}
    → size + 1 < 2 ^ 32
    → Reach (init size channel mem) t
    → t.sent ≡ t.received ++ unread t.consumer (contents t.ring)
Reach-order size channel mem h r = (Reach-Inv (init-Inv size channel mem h) r).order

ConsumerSees-pos :
    {A : Type 0} (c : Consumer A) (n : ℕ) → c ≢ Consumer.idle → ConsumerSees c n → 0 < n
ConsumerSees-pos Consumer.idle n ne h = absurd (ne refl)
ConsumerSees-pos Consumer.available n ne h = h
ConsumerSees-pos (Consumer.handled x) n ne h = h

-- While the consumer is between its load of the tail and its store of the head, the slot at the tail,
-- which the producer writes, is not the slot at the head, which the handler reads. This holds of a new
-- ring whose size, plus one, is below 2 ^ 32, in every interleaving.
pub Reach-no_race :
    {A : Type 0} (size channel : ℕ) (mem : ℕ → A) {t : System A}
    → size + 1 < 2 ^ 32
    → Reach (init size channel mem) t
    → t.consumer ≢ Consumer.idle
    → t.ring.tail ≢ t.ring.head
Reach-no_race size channel mem {t} h r c e = omega (
  arith,
  ConsumerSees-pos t.consumer (count t.ring) c i.ready,
  (distance_self t.ring.head t.ring.tail i.valid.head_in i.valid.tail_in).1 (sym e),
)
  where
    i : Inv t
    i = Reach-Inv (init-Inv size channel mem h) r
