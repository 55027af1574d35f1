-- ===== src/Queue/Threads/Fifo.antt =====
-- common/src/lf_queue.rs: however the two threads are interleaved, items arrive in order, slots are
-- read only when written, and the threads are never at one slot.
use rust_low_latency_trading.Prelude.{
  ℕ, ◌+◌, ◌%◌, ◌≤◌, ◌<◌, ◌≡◌, ◌≢◌, refl, arith, some, wrap64, subst, sym, ◌∙◌, ap, Bool-cases, inl,
  inr, ◌==◌, update_self, true, false,
}
use rust_low_latency_trading.Prelude.Run.{done, done-injective}
use rust_low_latency_trading.Queue.{
  LfQueue, new, is_power_of_two, wrapping_add, slot, has_room, assume_init_read,
}
use rust_low_latency_trading.Queue.Arith.{
  IsCapacity, is_power_of_two-IsCapacity, slots_differ, wrapping_sub_lem,
}
use rust_low_latency_trading.Queue.Spec.{length, get_elem?}
use rust_low_latency_trading.Queue.Refine.{length-snoc, new-Holds}
use rust_low_latency_trading.Queue.Threads.{
  Producer, Consumer, has_tail, may_write, wrote, has_head, may_read, took, World, Step, Reach,
  begin, load_tail, find_full, find_room, write_slot, store_tail, load_head, find_empty, find_item,
  read_slot, store_head, start, next,
}
use rust_low_latency_trading.Queue.Threads.Invariant.{
  KnowsRoom, KnowsItem, IsWorld, get_elem?_found, at_slot, write_slot-Shared, store_tail-Shared,
  store_head-Shared, sent-KnowsItem, received-KnowsRoom,
}

module _ {A : Type 0} (n : ℕ) (cap : IsCapacity n) where
  -- What a thread knows where it stands.
  producer_at :
      (w : World A) (s : Producer A)
      → w.producer ≡ s
      → IsWorld n w
      → KnowsRoom n s w.queue (length w.sent) (length w.received)
  producer_at w s e v =
      subst (λ t. KnowsRoom n t w.queue (length w.sent) (length w.received)) e v.producer

  consumer_at :
      (w : World A) (s : Consumer A)
      → w.consumer ≡ s
      → IsWorld n w
      → KnowsItem s w.sent (length w.received)
  consumer_at w s e v = subst (λ t. KnowsItem t w.sent (length w.received)) e v.consumer

  room_found :
      (w : World A) (t : ℕ)
      → IsWorld n w
      → t ≡ wrap64 (length w.sent)
      → has_room n t w.queue.head ≡ true
      → length w.sent < length w.received + n
  room_found w t v at e = ground (
    arith,
    e,
    at,
    v.shared.head,
    v.shared.order,
    v.shared.room,
    cap.small,
    wrapping_sub_lem (length w.sent) (length w.received),
  )

  item_found :
      (w : World A) (h : ℕ)
      → IsWorld n w
      → h ≡ wrap64 (length w.received)
      → (h == w.queue.tail) ≡ false
      → length w.received < length w.sent
  item_found w h v at e = ground (arith, e, at, v.shared.tail, v.shared.order)

  -- The slot that the consumer may read holds the next item.
  slot_read :
      (w : World A) (h : ℕ)
      → w.consumer ≡ may_read h
      → IsWorld n w
      → (x : A) × (assume_init_read n w.queue h ≡ done x)
        × (get_elem? w.sent (length w.received) ≡ some x)
  slot_read w h e v =
      let (at, lt) = consumer_at w (may_read h) e v in
      let (x, found) = get_elem?_found w.sent (length w.received) lt in
      let there : w.queue.buffer (slot n h) ≡ some x =
        rw (at_slot n cap (length w.received) h at)
          (v.shared.items (length w.received) x (omega arith) found) in
      (x, rw (assume_init_read, there) refl, found)

  begin-IsWorld : (q : LfQueue A) → new n ≡ done q → IsWorld n (begin q)
  begin-IsWorld q e =
      let h = new-Holds n cap q e in
      record {
        shared = record {
          tail = h.tail;
          head = h.head;
          order = omega arith;
          room = omega arith;
          items = λ i x low f. absurd (cc);
          prefix = λ i x f. absurd (cc);
        };
        producer = tt;
        consumer = tt;
      }

  Step-IsWorld : {w u : World A} → Step n w u → IsWorld n w → IsWorld n u
  Step-IsWorld (load_tail w item e) v = record {
    shared = v.shared;
    producer = v.shared.tail;
    consumer = v.consumer;
  }
  Step-IsWorld (find_full w item t e full) v = record {
    shared = v.shared;
    producer = tt;
    consumer = v.consumer;
  }
  Step-IsWorld (find_room w item t e room) v =
      let at = producer_at w (has_tail item t) e v in
      record { shared = v.shared; producer = (at, room_found w t v at room); consumer = v.consumer }
  Step-IsWorld (write_slot w item t e) v =
      let (at, room) = producer_at w (may_write item t) e v in
      record {
        shared = write_slot-Shared n cap w.queue w.sent w.received item t at room v.shared;
        producer = (
          at,
          room,
          rw (at_slot n cap (length w.sent) t at)
              (update_self w.queue.buffer (length w.sent % n) (some item)),
        );
        consumer = v.consumer;
      }
  Step-IsWorld (store_tail w item t e) v =
      let (at, room, there) = producer_at w (wrote item t) e v in
      record {
        shared = store_tail-Shared n cap w.queue w.sent w.received item t at room there v.shared;
        producer = tt;
        consumer = sent-KnowsItem w.consumer w.sent item (length w.received) v.consumer;
      }
  Step-IsWorld (load_head w e) v = record {
    shared = v.shared;
    producer = v.producer;
    consumer = v.shared.head;
  }
  Step-IsWorld (find_empty w h e empty) v = record {
    shared = v.shared;
    producer = v.producer;
    consumer = tt;
  }
  Step-IsWorld (find_item w h e more) v =
      let at = consumer_at w (has_head h) e v in
      record { shared = v.shared; producer = v.producer; consumer = (at, item_found w h v at more) }
  Step-IsWorld (read_slot w h x e read) v =
      let (at, lt) = consumer_at w (may_read h) e v in
      let (y, made, found) = slot_read w h e v in
      record {
        shared = v.shared;
        producer = v.producer;
        consumer = (at, lt, found ∙ ap some (done-injective (sym made ∙ read)));
      }
  Step-IsWorld (store_head w h x e) v =
      let (at, lt, there) = consumer_at w (took x h) e v in
      record {
        shared = store_head-Shared n cap w.queue w.sent w.received x h at lt there v.shared;
        producer =
            subst
              (KnowsRoom n w.producer (record (w.queue) { head = wrapping_add h 1 })
                (length w.sent))
              (sym (length-snoc w.received x))
              (received-KnowsRoom n w.producer w.queue (length w.sent) (length w.received)
                (wrapping_add h 1) v.producer);
        consumer = tt;
      }

Reach-IsCapacity : {A : Type 0} (n : ℕ) {w : World A} → Reach n w → IsCapacity n
unfolding new
Reach-IsCapacity n (start q e) = elim (Bool-cases (is_power_of_two 64 n)) [
  | inl fits ↦ is_power_of_two-IsCapacity 64 n (omega arith) fits
  | inr bad ↦ absurd (ground (arith, e, bad))
]
Reach-IsCapacity n (next r s) = Reach-IsCapacity n r

Reach-IsWorld : {A : Type 0} (n : ℕ) → IsCapacity n → {w : World A} → Reach n w → IsWorld n w
Reach-IsWorld n cap (start q e) = begin-IsWorld n cap q e
Reach-IsWorld n cap (next r s) = Step-IsWorld n cap s (Reach-IsWorld n cap r)

-- However the steps of the producer and of the consumer are interleaved, the i-th item that `pop`
-- has returned is the i-th item that was pushed, and at most N items are pushed and not yet popped.
pub threads_first_in_first_out :
    {A : Type 0} (n : ℕ) (w : World A)
    → Reach n w
    → ((i : ℕ) (x : A) → get_elem? w.received i ≡ some x → get_elem? w.sent i ≡ some x)
      × (length w.received ≤ length w.sent)
      × (length w.sent ≤ length w.received + n)
threads_first_in_first_out n w r =
    let v = Reach-IsWorld n (Reach-IsCapacity n r) r in
    (v.shared.prefix, v.shared.order, v.shared.room)

-- However the steps are interleaved, a consumer that is about to read finds a slot that was
-- written, so that the read is defined and gives the next item in order; and a producer that is
-- about to write at that time does so in another slot.
pub threads_share_no_slot :
    {A : Type 0} (n : ℕ) (w : World A) (head : ℕ)
    → Reach n w
    → w.consumer ≡ may_read head
    → ((x : A) × (assume_init_read n w.queue head ≡ done x)
        × (get_elem? w.sent (length w.received) ≡ some x))
      × ((item : A) (tail : ℕ) → w.producer ≡ may_write item tail → slot n tail ≢ slot n head)
threads_share_no_slot n w head r e =
    let cap = Reach-IsCapacity n r in
    let v = Reach-IsWorld n cap r in
    let (at_head, lt) = consumer_at n cap w (may_read head) e v in
    (
      slot_read n cap w head e v,
      λ item tail f same.
          let (at_tail, room) = producer_at n cap w (may_write item tail) f v in
          slots_differ n (length w.received) (length w.sent) lt room (
            sym (at_slot n cap (length w.received) head at_head)
            ∙ sym same
            ∙ at_slot n cap (length w.sent) tail at_tail),
    )
