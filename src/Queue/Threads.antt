-- ===== src/Queue/Threads.antt =====
-- common/src/lf_queue.rs: `push` and `pop` in two threads, one atomic access at a time, in any order.
-- A step is a load or a store of a counter, or the access to a slot between them. The orderings
-- Acquire and Release make these accesses take effect in such an order.
pub mod Invariant
pub mod Fifo
mod Tests
use rust_low_latency_trading.Prelude.{
  ℕ, ◌+◌, ◌≡◌, true, false, some, List, [], ◌∷◌, ◌++◌, update, ◌==◌,
}
use rust_low_latency_trading.Prelude.Run.{Run, done}
use rust_low_latency_trading.Queue.{LfQueue, new, has_room, slot, wrapping_add, assume_init_read}

-- Where the producer stands in `push`, with its locals `item` and `tail`.
pub data Producer (A : Type 0) : Type 0 where
  ready : Producer A
  has_tail : A → ℕ → Producer A
  may_write : A → ℕ → Producer A
  wrote : A → ℕ → Producer A

-- Where the consumer stands in `pop`, with its locals `item` and `head`.
pub data Consumer (A : Type 0) : Type 0 where
  ready : Consumer A
  has_head : ℕ → Consumer A
  may_read : ℕ → Consumer A
  took : A → ℕ → Consumer A

-- The shared queue and both threads, with the items whose `push` has returned `Ok` and those that
-- `pop` has returned, each in order.
pub record World (A : Type 0) : Type 0 where
  pub queue : LfQueue A
  pub producer : Producer A
  pub consumer : Consumer A
  pub sent : List A
  pub received : List A

abbrev pub begin : {A : Type 0} → LfQueue A → World A
begin q = record {
  queue = q;
  producer = Producer.ready;
  consumer = Consumer.ready;
  sent = [];
  received = [];
}

module _ {A : Type 0} (n : ℕ) where
  pub data Step : World A → World A → Type 0 where
    load_tail :
        (w : World A) (item : A)
        → w.producer ≡ Producer.ready
        → Step w (record w { producer = has_tail item w.queue.tail })
    find_full :
        (w : World A) (item : A) (tail : ℕ)
        → w.producer ≡ has_tail item tail
        → has_room n tail w.queue.head ≡ false
        → Step w (record w { producer = Producer.ready })
    find_room :
        (w : World A) (item : A) (tail : ℕ)
        → w.producer ≡ has_tail item tail
        → has_room n tail w.queue.head ≡ true
        → Step w (record w { producer = may_write item tail })
    write_slot :
        (w : World A) (item : A) (tail : ℕ)
        → w.producer ≡ may_write item tail
        → Step w (record w {
          queue = record (w.queue) { buffer = update w.queue.buffer (slot n tail) (some item) };
          producer = wrote item tail;
        })
    store_tail :
        (w : World A) (item : A) (tail : ℕ)
        → w.producer ≡ wrote item tail
        → Step w (record w {
          queue = record (w.queue) { tail = wrapping_add tail 1 };
          producer = Producer.ready;
          sent = w.sent ++ (item ∷ []);
        })
    load_head :
        (w : World A)
        → w.consumer ≡ Consumer.ready
        → Step w (record w { consumer = has_head w.queue.head })
    find_empty :
        (w : World A) (head : ℕ)
        → w.consumer ≡ has_head head
        → (head == w.queue.tail) ≡ true
        → Step w (record w { consumer = Consumer.ready })
    find_item :
        (w : World A) (head : ℕ)
        → w.consumer ≡ has_head head
        → (head == w.queue.tail) ≡ false
        → Step w (record w { consumer = may_read head })
    read_slot :
        (w : World A) (head : ℕ) (x : A)
        → w.consumer ≡ may_read head
        → assume_init_read n w.queue head ≡ done x
        → Step w (record w { consumer = took x head })
    store_head :
        (w : World A) (head : ℕ) (x : A)
        → w.consumer ≡ took x head
        → Step w (record w {
          queue = record (w.queue) { head = wrapping_add head 1 };
          consumer = Consumer.ready;
          received = w.received ++ (x ∷ []);
        })

  pub data Reach : World A → Type 0 where
    start : (q : LfQueue A) → new n ≡ done q → Reach (begin q)
    next : {w u : World A} → Reach w → Step w u → Reach u
