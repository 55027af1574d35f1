-- ===== src/Pool/Owners.antt =====
-- common/src/mem_pool.rs: any sequence of calls by users who give back only what they hold.
use rust_low_latency_trading.Prelude.{
  ℕ, ◌+◌, ◌<◌, ◌≡◌, arith, Bool, true, false, Option, none, some, update, inl, inr, Bool-cases,
  ◌==◌, sym, ◌∙◌, subst,
}
use native.Mathlib.Decide.{dec_lt}
use rust_low_latency_trading.Prelude.Run.{done, done-injective}
use rust_low_latency_trading.Pool.{MemPool, PoolPtr, new, allocate, deallocate_by_index, write}
use rust_low_latency_trading.Pool.Valid.{
  IsFree, IsValid, Allocates, new_lem, allocate_lem, deallocate_by_index_lem,
}

-- The pool with the set of the slots that its users hold.
pub record World (A : Type 0) : Type 0 where
  pub pool : MemPool A
  pub held : ℕ → Bool

module _ {A : Type 0} (n : ℕ) where
  pub data Step : World A → World A → Type 0 where
    take :
        (w : World A) (ptr : PoolPtr) (q : MemPool A)
        → allocate n w.pool ≡ done (some ptr, q)
        → Step w (record { pool = q; held = update w.held ptr.index true })
    refuse :
        (w : World A) (q : MemPool A)
        → allocate n w.pool ≡ done (none, q)
        → Step w (record { pool = q; held = w.held })
    give :
        (w : World A) (x : ℕ) (q : MemPool A)
        → w.held x ≡ true
        → deallocate_by_index n w.pool x ≡ done q
        → Step w (record { pool = q; held = update w.held x false })
    store :
        (w : World A) (x : ℕ) (a : A)
        → w.held x ≡ true
        → Step w (record { pool = write w.pool x a; held = w.held })

  pub data Reach : World A → Type 0 where
    start : (p : MemPool A) → new n ≡ done p → Reach (record { pool = p; held = λ _. false })
    next : {w u : World A} → Reach w → Step w u → Reach u

  -- The slots in range are parted into those that are free and those that are held.
  pub record Parted (w : World A) : Type 0 where
    pub valid : IsValid n w.pool
    pub rest_free : (x : ℕ) → x < n → w.held x ≡ false → IsFree w.pool x
    pub held_in : (x : ℕ) → w.held x ≡ true → x < n
    pub held_out : (x : ℕ) → w.held x ≡ true → ¬ IsFree w.pool x

  take-Parted :
      (w : World A) (ptr : PoolPtr) (q : MemPool A)
      → Parted w
      → IsValid n q
      → Allocates n w.pool (some ptr, q)
      → Parted (record { pool = q; held = update w.held ptr.index true })
  take-Parted w ptr q v valid (lt, was, gone, back, kept, _, _) = record {
    valid = valid;
    rest_free = λ x h e. kept x (λ s. ground arith) (v.rest_free x h (ground arith));
    held_in = λ x e. ground (arith, v.held_in x);
    held_out = λ x e f. elim (Bool-cases (ptr.index == x)) [
      | inl same ↦ gone (f.0, f.1, ground arith)
      | inr other ↦ v.held_out x (ground arith) (back x f)
    ];
  }

  new-Parted : (p : MemPool A) → new n ≡ done p → Parted (record { pool = p; held = λ _. false })
  unfolding new
  new-Parted p e = elim (dec_lt 0 n) [
    | yes h ↦
        let (q, made, valid, free, _, _) = new_lem n h in
        let same : q ≡ p = done-injective (sym made ∙ e) in
        record {
          valid = subst (IsValid n) same valid;
          rest_free = λ x lt _. subst (λ r. IsFree r x) same (free x lt);
          held_in = λ x f. cc;
          held_out = λ x f. cc;
        }
    | no zero ↦ absurd (ground (arith, e))
  ]

  give-Parted :
      (w : World A) (x : ℕ) (q : MemPool A)
      → Parted w
      → w.held x ≡ true
      → deallocate_by_index n w.pool x ≡ done q
      → Parted (record { pool = q; held = update w.held x false })
  give-Parted w x q v h e =
      let (r, made, valid, here, kept, back, _, _) =
        deallocate_by_index_lem n w.pool x v.valid (v.held_in x h) (v.held_out x h) in
      let same : r ≡ q = done-injective (sym made ∙ e) in
      subst (λ (s : MemPool A). Parted (record { pool = s; held = update w.held x false })) same
        (record {
          valid = valid;
          rest_free = λ y lt f. elim (Bool-cases (x == y)) [
            | inl eq ↦ (here.0, here.1, ground (arith, here.2))
            | inr ne ↦ kept y (v.rest_free y lt (ground arith))
          ];
          held_in = λ y f. ground (arith, v.held_in y);
          held_out = λ y f g. v.held_out y (ground arith) (back y (λ s. ground arith) g);
        })

  Step-Parted : {w u : World A} → Step w u → Parted w → Parted u
  Step-Parted (take w ptr q e) v =
      let (r, made, valid, has) = allocate_lem n w.pool v.valid in
      let same : r ≡ (some ptr, q) = done-injective (sym made ∙ e) in
      take-Parted w ptr q v (subst (λ s. IsValid n s.1) same valid)
        (subst (Allocates n w.pool) same has)
  Step-Parted (refuse w q e) v =
      let (r, made, valid, has) = allocate_lem n w.pool v.valid in
      let same : r ≡ (none, q) = done-injective (sym made ∙ e) in
      subst (λ (s : MemPool A). Parted (record { pool = s; held = w.held }))
        (sym (subst (Allocates n w.pool) same has).1) v
  Step-Parted (give w x q h e) v = give-Parted w x q v h e
  Step-Parted (store w x a h) v = record {
    valid = record {
      fits = v.valid.fits;
      in_range = v.valid.in_range;
      distinct = v.valid.distinct;
    };
    rest_free = v.rest_free;
    held_in = v.held_in;
    held_out = v.held_out;
  }

  -- After any calls by users who give back only what they hold, every slot in range is either free
  -- or held, and never both.
  pub Reach-Parted : {w : World A} → Reach w → Parted w
  Reach-Parted (start p e) = new-Parted p e
  Reach-Parted (next r s) = Step-Parted s (Reach-Parted r)

  outcome :
      (w : World A)
      → Parted w
      → (r : Option PoolPtr × MemPool A) → Allocates n w.pool r
      → ((ptr : PoolPtr) → r.0 ≡ some ptr → (ptr.index < n) × (w.held ptr.index ≡ false))
        × (r.0 ≡ none → (x : ℕ) → x < n → w.held x ≡ true)
  outcome w v (none, q) has = (
    (λ ptr e. absurd (cc)),
    (λ _ x lt. elim (Bool-cases (w.held x)) [
      | inl e ↦ e
      | inr e ↦ absurd (omega (arith, (v.rest_free x lt e).1, has.0))
    ]),
  )
  outcome w v (some p, q) has = (
    (λ ptr e. elim (Bool-cases (w.held p.index)) [
      | inl h ↦ absurd (v.held_out p.index h has.1)
      | inr h ↦ ground (arith, has.0, h)
    ]),
    (λ e. absurd (cc)),
  )

  -- In any state that such calls lead to, `allocate` does not panic; a pointer that it gives out is
  -- in range and its slot was held by nobody, and it gives out none only when all N slots are held.
  pub allocate_exclusive :
      (w : World A)
      → Reach w
      → (r : Option PoolPtr × MemPool A) × (allocate n w.pool ≡ done r)
        × ((ptr : PoolPtr) → r.0 ≡ some ptr → (ptr.index < n) × (w.held ptr.index ≡ false))
        × (r.0 ≡ none → (x : ℕ) → x < n → w.held x ≡ true)
  allocate_exclusive w reach =
      let v = Reach-Parted reach in
      let (r, made, _, has) = allocate_lem n w.pool v.valid in
      let (some_held, none_left) = outcome w v r has in (r, made, some_held, none_left)

  -- In any such state, giving back a slot that its user holds does not panic, and frees it.
  pub deallocate_by_index_total :
      (w : World A) (x : ℕ)
      → Reach w
      → w.held x ≡ true
      → (q : MemPool A) × (deallocate_by_index n w.pool x ≡ done q)
        × IsFree q x
        × (q.free_count ≡ w.pool.free_count + 1)
  deallocate_by_index_total w x reach h =
      let v = Reach-Parted reach in
      let (q, made, _, here, _, _, _, count) =
        deallocate_by_index_lem n w.pool x v.valid (v.held_in x h) (v.held_out x h) in
      (q, made, here, count)
