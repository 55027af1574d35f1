-- ===== src/Queue.antt =====
-- common/src/lf_queue.rs: the queue between one producer and one consumer.
-- `tail` and `head` are `usize` counters that wrap at 2^64. The capacity N is a power of two, so
-- that the mask with N - 1 is the remainder by N.
pub mod Arith
pub mod Spec
pub mod Refine
pub mod Threads
mod Tests
use rust_low_latency_trading.Prelude.{
  ℕ, zero, suc, ◌+◌, ◌-◌, ◌%◌, ◌^◌, Bool, true, false, ◌||◌, Option, none, some, if◌then◌else◌, leb,
  ◌==◌, update, wrap64, List, [], ◌∷◌,
}
use rust_low_latency_trading.Prelude.Run.{Run, done, fault, ◌>>=◌}

-- A slot that was never written holds nothing.
pub record LfQueue (A : Type 0) : Type 0 where
  pub buffer : ℕ → Option A
  pub tail : ℕ
  pub head : ℕ

abbrev pub wrapping_sub : ℕ → ℕ → ℕ
wrapping_sub a b = wrap64 (2 ^ 64 + a - b)

abbrev pub wrapping_add : ℕ → ℕ → ℕ
wrapping_add a b = wrap64 (a + b)

-- `usize::is_power_of_two`: a power 2^i with i below the number of bits.
unfoldable pub is_power_of_two : ℕ → ℕ → Bool
is_power_of_two zero n = false
is_power_of_two (suc i) n = (n == 2 ^ i) || is_power_of_two i n

-- The result of `push`: the item comes back from a full queue.
pub data Pushed (A : Type 0) : Type 0 where
  ok : Pushed A
  err : A → Pushed A

module _ (n : ℕ) where
  -- The test of `push` on the counters it has read, and the slot of a counter.
  abbrev pub has_room : ℕ → ℕ → Bool
  has_room tail head = if leb n (wrapping_sub tail head) then false else true

  abbrev pub slot : ℕ → ℕ
  slot i = i % n

module _ {A : Type 0} (n : ℕ) where
  unfoldable pub new : Run (LfQueue A)
  unfolding is_power_of_two
  new =
      if is_power_of_two 64 n
      then done (record { buffer = λ _. none; tail = 0; head = 0 })
      else fault

  unfoldable pub push : LfQueue A → A → Pushed A × LfQueue A
  push q item =
      if has_room n q.tail q.head
      then (
        ok,
        record q {
          buffer = update q.buffer (slot n q.tail) (some item);
          tail = wrapping_add q.tail 1;
        },
      )
      else (err item, q)

  -- The read of the slot that the consumer has come to.
  abbrev pub assume_init_read : LfQueue A → ℕ → Run A
  assume_init_read q head = elim (q.buffer (slot n head)) [ none ↦ fault | some x ↦ done x ]

  unfoldable pub pop : LfQueue A → Run (Option A × LfQueue A)
  pop q =
      if q.head == q.tail
      then done (none, q)
      else assume_init_read q q.head >>= λ x.
          done (some x, record q { head = wrapping_add q.head 1 })

  abbrev pub len : LfQueue A → ℕ
  len q = wrapping_sub q.tail q.head

  abbrev pub is_empty : LfQueue A → Bool
  is_empty q = len q == 0

  abbrev pub is_full : LfQueue A → Bool
  is_full q = leb n (len q)

  abbrev pub capacity : LfQueue A → ℕ
  capacity q = n

  -- `Drop::drop`: items are taken out until none is left, at most as often as the fuel says; what
  -- was taken out comes back.
  unfoldable pub drain : ℕ → LfQueue A → Run (List A × LfQueue A)
  unfolding pop
  drain zero q = fault
  drain (suc fuel) q = pop q >>= λ r. elim r.0 [
    | none ↦ done ([], r.1)
    | some x ↦ drain fuel r.1 >>= λ s. done (x ∷ s.0, s.1)
  ]
