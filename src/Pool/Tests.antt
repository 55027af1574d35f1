-- ===== src/Pool/Tests.antt =====
-- common/src/mem_pool.rs: a pool of three slots, run, and the theorems at it.
use rust_low_latency_trading.Prelude.{ℕ, ◌<◌, ◌≡◌, refl, true, false, Option, none, some, update}
use rust_low_latency_trading.Prelude.Run.{done, ◌>>=◌}
use rust_low_latency_trading.Pool.{
  MemPool, PoolPtr, new, allocate, deallocate_by_index, fill_free_list, write,
}
use rust_low_latency_trading.Pool.Owners.{
  World, Reach, start, next, take, store, Parted, Reach-Parted, allocate_exclusive,
}

abbrev fresh : MemPool ℕ
unfolding fill_free_list
fresh = record { storage = λ _. none; free_list = fill_free_list 3; free_count = 3 }

-- Slot 2, the top of the stack, is handed out and written.
abbrev taken : World ℕ
taken = record {
  pool = write (record fresh { free_count = 2 }) 2 42;
  held = update (λ _. false) 2 true;
}

taken-Reach : Reach 3 taken
unfolding new allocate fill_free_list
taken-Reach =
    next
      (next (start fresh refl) (
        take (record { pool = fresh; held = λ _. false }) (record { index = 2 })
          (record fresh { free_count = 2 }) refl))
      (store (record { pool = record fresh { free_count = 2 }; held = update (λ _. false) 2 true })
        2 42 refl)

Reach-Parted_example : Parted 3 taken
Reach-Parted_example = Reach-Parted 3 taken-Reach

allocate_exclusive_example :
    (r : Option PoolPtr × MemPool ℕ) × (allocate 3 taken.pool ≡ done r)
    × ((ptr : PoolPtr) → r.0 ≡ some ptr → (ptr.index < 3) × (taken.held ptr.index ≡ false))
    × (r.0 ≡ none → (x : ℕ) → x < 3 → taken.held x ≡ true)
allocate_exclusive_example = allocate_exclusive 3 taken taken-Reach

-- A slot that is given back is the next to be handed out.
last_in_first_out :
    (deallocate_by_index 3 taken.pool 2 >>= λ q. allocate 3 q >>= λ r. done r.0)
    ≡ done (some (record { index = 2 }))
unfolding allocate deallocate_by_index fill_free_list
last_in_first_out = refl
