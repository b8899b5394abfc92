-- ===== src/Tests/Ring.antt =====
-- A ring of three slots, of which two can be in use.
use medici.Prelude.{store, ℕ, ◌≡◌, refl, List, [], ◌∷◌, false, err, arith, ◌≢◌, ◌++◌}
use medici.Shm.Ring.{Ring, Handler, construct, enqueue, consume, next_index}
use medici.Shm.Ring.Bounds.{IsValid}
use medici.Shm.Ring.Refine.{contents, capacity, push, pop, enqueue_refines, consume_refines}
use medici.Shm.Ring.Interleave.{
  Producer, Consumer, System, init, load_head, write_entry, store_tail, load_tail, handle_entry,
  Reach, here, next, unread,
}
use medici.Shm.Ring.Interleave.Safety.{Reach-order, Reach-no_race}

-- One entry, 7, at the tail of a ring whose tail is about to wrap.
abbrev one_entry : Ring ℕ
one_entry = record { head = 1; tail = 2; queue_size = 3; channel_index = 0; storage = λ i. 7 }

one_entry-IsValid : IsValid one_entry
one_entry-IsValid = record { head_in = omega arith; tail_in = omega arith; small = omega arith }

enqueue_wraps : (enqueue one_entry 8).0.tail ≡ 0
unfolding enqueue
enqueue_wraps = refl

enqueue_full : (enqueue (enqueue one_entry 8).0 9).1 ≡ false
unfolding enqueue
enqueue_full = refl

enqueue_refines_example :
    (contents (enqueue one_entry 8).0, (enqueue one_entry 8).1)
    ≡ push (capacity one_entry) (contents one_entry) 8
enqueue_refines_example = enqueue_refines one_entry 8 one_entry-IsValid

-- A handler that fails on everything.
abbrev failing : Handler ℕ (List ℕ) ℕ
failing x seen = (err x, x ∷ seen)

consume_refines_example :
    (
      contents (consume one_entry failing []).0,
      (consume one_entry failing []).1,
      (consume one_entry failing []).2,
    )
    ≡ pop (contents one_entry) failing []
consume_refines_example = consume_refines one_entry failing [] one_entry-IsValid

-- A run: the producer sends 5, and the consumer has handled it.
abbrev s0 : System ℕ
s0 = init 2 0 (λ i. 0)

abbrev s1 : System ℕ
s1 = record s0 { producer = Producer.has_room 5 }

abbrev s2 : System ℕ
s2 = record s1 {
  ring = record (s1.ring) { storage = store s1.ring.storage s1.ring.tail 5 };
  producer = Producer.written 5;
}

abbrev s3 : System ℕ
s3 = record s2 {
  ring = record (s2.ring) { tail = next_index s2.ring s2.ring.tail };
  producer = Producer.idle;
  sent = s2.sent ++ 5 ∷ [];
}

abbrev s4 : System ℕ
s4 = record s3 { consumer = Consumer.available }

abbrev s5 : System ℕ
s5 = record s4 {
  consumer = Consumer.handled (s4.ring.storage s4.ring.head);
  received = s4.received ++ s4.ring.storage s4.ring.head ∷ [];
}

run : Reach s0 s5
unfolding construct
run =
    next
      (next
        (next (next (next here (load_head 5 refl (omega arith))) (write_entry 5 refl))
          (store_tail 5 refl))
        (load_tail refl (omega arith)))
      (handle_entry refl)

Reach-order_example : s5.sent ≡ s5.received ++ unread s5.consumer (contents s5.ring)
Reach-order_example = Reach-order 2 0 (λ i. 0) {t = s5} (omega arith) run

Reach-no_race_example : s5.ring.tail ≢ s5.ring.head
Reach-no_race_example = Reach-no_race 2 0 (λ i. 0) {t = s5} (omega arith) run (λ e. cc)
