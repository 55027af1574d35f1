-- ===== src/Pool/Valid.antt =====
-- common/src/mem_pool.rs: which slots are free, and what allocation does to them.
use rust_low_latency_trading.Prelude.{
  ℕ, zero, suc, ◌+◌, ◌-◌, ◌≤◌, ◌<◌, ◌≡◌, ◌≢◌, refl, arith, Option, none, some, update, sym, ◌∙◌, ap,
}
use native.Mathlib.Decide.{ℕ_discrete, dec_lt}
use rust_low_latency_trading.Prelude.Run.{done}
use rust_low_latency_trading.Pool.{
  MemPool, PoolPtr, fill_free_list, new, allocate, deallocate_by_index,
}
use rust_low_latency_trading.Pool.Pigeonhole.{IsInjectiveBelow, missed-lt}

-- The slot's index stands on the stack of free indices.
abbrev pub IsFree {ℓ} : {A : Type ℓ} → MemPool A → ℕ → Type 0
IsFree p x = (k : ℕ) × (k < p.free_count) × (p.free_list k ≡ x)

-- The stack fits the array, and holds different indices in range.
pub record IsValid {ℓ} {A : Type ℓ} (n : ℕ) (p : MemPool A) : Type 0 where
  pub fits : p.free_count ≤ n
  pub in_range : (i : ℕ) → i < p.free_count → p.free_list i < n
  pub distinct : IsInjectiveBelow p.free_count p.free_list

fill_free_list_lem : (n i : ℕ) → i < n → fill_free_list n i ≡ i
unfolding fill_free_list
fill_free_list_lem zero i h = elim h [ ]
fill_free_list_lem (suc n) i h = ground (arith, fill_free_list_lem n i)

module _ {ℓ} {A : Type ℓ} (n : ℕ) where
  -- A new pool is valid, and every slot of it is free and not written.
  pub new_lem :
      0 < n
      → (p : MemPool A) × (new n ≡ done p)
        × IsValid n p
        × ((x : ℕ) → x < n → IsFree p x)
        × ((x : ℕ) → p.storage x ≡ none)
        × (p.free_count ≡ n)
  unfolding new
  new_lem h = (
    record { storage = λ _. none; free_list = fill_free_list n; free_count = n },
    ground arith,
    record {
      fits = omega arith;
      in_range = λ i lt. rw (fill_free_list_lem n i lt) lt;
      distinct = λ i j lt hj e.
          omega (arith, fill_free_list_lem n i (omega arith), fill_free_list_lem n j hj, e);
    },
    (λ x lt. (x, lt, fill_free_list_lem n x lt)),
    (λ x. refl),
    refl,
  )

  -- What a call of `allocate` may leave: a refusal of an empty pool, which is left alone, or a
  -- pointer to a slot that was free.
  abbrev pub Allocates : MemPool A → Option PoolPtr × MemPool A → Type ℓ
  Allocates p (none, q) = (p.free_count ≡ 0) × (q ≡ p)
  Allocates p (some ptr, q) =
      (ptr.index < n)
      × IsFree p ptr.index
      × ¬ IsFree q ptr.index
      × ((x : ℕ) → IsFree q x → IsFree p x)
      × ((x : ℕ) → x ≢ ptr.index → IsFree p x → IsFree q x)
      × (q.storage ≡ p.storage)
      × (q.free_count + 1 ≡ p.free_count)

  pub allocate_lem :
      (p : MemPool A)
      → IsValid n p
      → (r : Option PoolPtr × MemPool A) × (allocate n p ≡ done r) × IsValid n r.1 × Allocates p r
  unfolding allocate
  allocate_lem p v = elim (ℕ_discrete p.free_count 0) [
    | yes e ↦ ((none, p), ground arith, v, (e, refl))
    | no ne ↦ allocated ne
  ]
    where
      top : ℕ
      top = p.free_count - 1

      rest : MemPool A
      rest = record p { free_count = top }

      below_top : (x : ℕ) → x ≢ p.free_list top → (f : IsFree p x) → f.0 < top
      below_top x away f = elim (ℕ_discrete f.0 top) [
        | yes e ↦ absurd (away (sym f.2 ∙ ap p.free_list e))
        | no ne ↦ omega (arith, f.1)
      ]

      allocated :
          p.free_count ≢ 0
          → (r : Option PoolPtr × MemPool A) × (allocate n p ≡ done r)
            × IsValid n r.1
            × Allocates p r
      allocated ne = (
        (some (record { index = p.free_list top }), rest),
        ground (arith, v.in_range top (omega arith), v.fits),
        record {
          fits = omega arith;
          in_range = λ i h. v.in_range i (omega arith);
          distinct = λ i j lt h. v.distinct i j lt (omega arith);
        },
        (
          v.in_range top (omega arith),
          (top, omega arith, refl),
          (λ f. v.distinct f.0 top f.1 (omega arith) f.2),
          (λ x f. (f.0, omega arith, f.2)),
          (λ x away f. (f.0, below_top x away f, f.2)),
          refl,
          omega arith,
        ),
      )

  -- A slot that is not free can be given back: the stack has room for it, and then holds it.
  pub deallocate_by_index_lem :
      (p : MemPool A) (index : ℕ)
      → IsValid n p
      → index < n
      → ¬ IsFree p index
      → (q : MemPool A) × (deallocate_by_index n p index ≡ done q)
        × IsValid n q
        × IsFree q index
        × ((x : ℕ) → IsFree p x → IsFree q x)
        × ((x : ℕ) → x ≢ index → IsFree q x → IsFree p x)
        × (q.storage ≡ p.storage)
        × (q.free_count ≡ p.free_count + 1)
  unfolding deallocate_by_index
  deallocate_by_index_lem p index v h held = (
    record p { free_list = update p.free_list p.free_count index; free_count = p.free_count + 1 },
    ground (arith, room),
    record {
      fits = omega (arith, room);
      in_range = λ i lt. ground (arith, v.in_range i);
      distinct = λ i j lt hj. ground (arith, v.distinct i j lt, missed i);
    },
    (p.free_count, omega arith, ground arith),
    (λ x f. (f.0, omega arith, ground arith)),
    (λ x away f. (f.0, ground arith, ground arith)),
    refl,
    refl,
  )
    where
      missed : (i : ℕ) → i < p.free_count → p.free_list i ≢ index
      missed i lt e = held (i, lt, e)

      room : p.free_count < n
      room = elim (dec_lt p.free_count n) [
        | yes lt ↦ lt
        | no full ↦ absurd (
            missed-lt n p.free_count index p.free_list v.in_range v.distinct (omega (arith, v.fits))
              h missed)
      ]
