-- ===== src/Pool.antt =====
-- common/src/mem_pool.rs: the pool of N slots with its stack of free indices.
-- A slot that was never written holds `none`; what the program would do by reading it is a fault.
-- A pool pointer is the index of its slot: its raw address is that of `storage[index]`.
pub mod Pigeonhole
pub mod Valid
pub mod Owners
mod Tests
use rust_low_latency_trading.Prelude.{
  ℕ, zero, suc, ◌+◌, ◌-◌, Option, none, some, ltb, ◌==◌, if◌then◌else◌, update,
}
use rust_low_latency_trading.Prelude.Run.{Run, done, fault, ◌>>=◌}

pub record MemPool {ℓ} (A : Type ℓ) : Type ℓ where
  pub storage : ℕ → Option A
  pub free_list : ℕ → ℕ
  pub free_count : ℕ

pub record PoolPtr : Type 0 where
  pub index : ℕ

-- The loop of the constructors: a zeroed array, with the first `n` places set to their index.
unfoldable pub fill_free_list : ℕ → ℕ → ℕ
fill_free_list zero = λ _. 0
fill_free_list (suc i) = update (fill_free_list i) i i

-- An access to `array[i]` of an array of N places.
abbrev pub index_array {ℓ} : {B : Type ℓ} → ℕ → (ℕ → B) → ℕ → Run B
index_array n array i = if ltb i n then done (array i) else fault

module _ {ℓ} {A : Type ℓ} (n : ℕ) where
  -- `new` builds the pool on the stack and `new_boxed` on the heap: the two write the same fields.
  unfoldable pub new : Run (MemPool A)
  unfolding fill_free_list
  new =
      if ltb 0 n
      then done (record { storage = λ _. none; free_list = fill_free_list n; free_count = n })
      else fault

  unfoldable pub allocate : MemPool A → Run (Option PoolPtr × MemPool A)
  allocate p = if p.free_count == 0 then done (none, p) else (do
    index ← index_array n p.free_list (p.free_count - 1)
    _ ← index_array n p.storage index
    done (some (record { index = index }), record p { free_count = p.free_count - 1 }))

  unfoldable pub deallocate_by_index : MemPool A → ℕ → Run (MemPool A)
  deallocate_by_index p index =
      if ltb p.free_count n
      then done (record p {
        free_list = update p.free_list p.free_count index;
        free_count = p.free_count + 1;
      })
      else fault

  unfoldable pub deallocate : MemPool A → PoolPtr → Run (MemPool A)
  unfolding deallocate_by_index
  deallocate p ptr = deallocate_by_index p ptr.index

  -- What `get_by_index` gives a place of: nothing when the index is out of range.
  abbrev pub get_by_index : MemPool A → ℕ → Option (Option A)
  get_by_index p index = if ltb index n then some (p.storage index) else none

module _ {ℓ} {A : Type ℓ} where
  abbrev pub get : MemPool A → PoolPtr → Run A
  get p ptr = elim (p.storage ptr.index) [ none ↦ fault | some a ↦ done a ]

  -- A write through the place that `get_mut` or `get_by_index` gives.
  abbrev pub write : MemPool A → ℕ → A → MemPool A
  write p index a = record p { storage = update p.storage index (some a) }

  abbrev pub available : MemPool A → ℕ
  available p = p.free_count
