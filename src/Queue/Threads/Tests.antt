-- ===== src/Queue/Threads/Tests.antt =====
-- common/src/lf_queue.rs: a consumer that reads while the producer is about to write.
use rust_low_latency_trading.Prelude.{
  ℕ, ◌+◌, ◌≡◌, ◌≢◌, ◌≤◌, refl, none, some, [], ◌∷◌, if◌then◌else◌, ◌==◌,
}
use rust_low_latency_trading.Prelude.Run.{done}
use rust_low_latency_trading.Queue.{LfQueue, new, is_power_of_two, slot, assume_init_read}
use rust_low_latency_trading.Queue.Spec.{length, get_elem?}
use rust_low_latency_trading.Queue.Threads.{
  may_write, may_read, World, Reach, start, next, load_tail, find_room, write_slot, store_tail,
  load_head, find_item,
}
use rust_low_latency_trading.Queue.Threads.Fifo.{threads_first_in_first_out, threads_share_no_slot}

abbrev fresh : LfQueue ℕ
fresh = record { buffer = λ _. none; tail = 0; head = 0 }

fresh-new : new 2 ≡ done fresh
unfolding new is_power_of_two
fresh-new = refl

-- 7 was pushed, the consumer has found it, and the producer has found room for 8.
abbrev both_inside : World ℕ
both_inside = record {
  queue = record { buffer = λ j. if 0 == j then some 7 else none; tail = 1; head = 0 };
  producer = may_write 8 1;
  consumer = may_read 0;
  sent = 7 ∷ [];
  received = [];
}

both_inside-Reach : Reach 2 both_inside
both_inside-Reach =
    next
      (next
        (next
          (next
            (next
              (next
                (next (next (start fresh fresh-new) (load_tail _ 7 refl))
                  (find_room _ 7 0 refl refl))
                (write_slot _ 7 0 refl))
              (store_tail _ 7 0 refl))
            (load_tail _ 8 refl))
          (load_head _ refl))
        (find_room _ 8 1 refl refl))
      (find_item _ 0 refl refl)

threads_first_in_first_out_example :
    ((i : ℕ) (x : ℕ)
      → get_elem? both_inside.received i ≡ some x
      → get_elem? both_inside.sent i ≡ some x)
    × (length both_inside.received ≤ length both_inside.sent)
    × (length both_inside.sent ≤ length both_inside.received + 2)
threads_first_in_first_out_example = threads_first_in_first_out 2 both_inside both_inside-Reach

threads_share_no_slot_example :
    ((x : ℕ) × (assume_init_read 2 both_inside.queue 0 ≡ done x)
      × (get_elem? both_inside.sent (length both_inside.received) ≡ some x))
    × ((item : ℕ) (tail : ℕ) → both_inside.producer ≡ may_write item tail → slot 2 tail ≢ slot 2 0)
threads_share_no_slot_example = threads_share_no_slot 2 both_inside 0 both_inside-Reach refl
