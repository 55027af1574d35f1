-- ===== src/Queue/Refine.antt =====
-- common/src/lf_queue.rs: the queue behaves as the list of its items, wherever its counters stand.
use rust_low_latency_trading.Prelude.{
  ℕ, zero, suc, ◌+◌, ◌%◌, ◌^◌, ◌≤◌, ◌<◌, ◌≡◌, refl, arith, none, some, wrap64, subst, sym, ◌∙◌, ap,
  Bool-cases, inl, inr, ◌==◌, List, [], ◌∷◌, ◌++◌, ◌⊎◌, update, update_ne, update_self, true, false,
  leb,
}
use mathlib.Core.Option.{some-injective}
use rust_low_latency_trading.Prelude.Run.{done, done-injective}
use rust_low_latency_trading.Queue
use rust_low_latency_trading.Queue.{
  LfQueue, Pushed, ok, err, wrapping_sub, wrapping_add, is_power_of_two, slot, has_room,
  assume_init_read, drain, new, is_empty,
}
use rust_low_latency_trading.Queue.Arith.{
  IsCapacity, is_power_of_two-IsCapacity, slots_differ, slot-wrap64, wrapping_sub_lem,
  wrapping_add_lem,
}
use rust_low_latency_trading.Queue.Spec
use rust_low_latency_trading.Queue.Spec.{
  Call, put, take, Answer, pushed, popped, length, get_elem?, answers, run,
}

-- The queue holds the items `xs`, the first of which was the `c`-th to come.
pub record Holds {A : Type 0} (n : ℕ) (q : LfQueue A) (c : ℕ) (xs : List A) : Type 0 where
  pub head : q.head ≡ wrap64 c
  pub tail : q.tail ≡ wrap64 (c + length xs)
  pub room : length xs ≤ n
  pub items : (i : ℕ) (x : A) → get_elem? xs i ≡ some x → q.buffer ((c + i) % n) ≡ some x

module _ {A : Type 0} where
  pub length-snoc : (xs : List A) (x : A) → length (xs ++ (x ∷ [])) ≡ length xs + 1
  length-snoc [] x = refl
  length-snoc (y ∷ xs) x = omega (arith, length-snoc xs x)

  pub get_elem?-snoc :
      (xs : List A) (x y : A) (i : ℕ)
      → get_elem? (xs ++ (x ∷ [])) i ≡ some y
      → ((i < length xs) × (get_elem? xs i ≡ some y)) ⊎ ((i ≡ length xs) × (x ≡ y))
  get_elem?-snoc [] x y zero e = inr (refl, some-injective x y e)
  get_elem?-snoc [] x y (suc i) e = absurd (cc)
  get_elem?-snoc (z ∷ xs) x y zero e = inl (omega arith, e)
  get_elem?-snoc (z ∷ xs) x y (suc i) e = elim (get_elem?-snoc xs x y i e) [
    | inl (lt, f) ↦ inl (omega arith, f)
    | inr (eq, f) ↦ inr (ap suc eq, f)
  ]

module _ {A : Type 0} (n : ℕ) (cap : IsCapacity n) where
  pub new-Holds : (q : LfQueue A) → new n ≡ done q → Holds n q 0 []
  unfolding new
  new-Holds q e = elim (Bool-cases (is_power_of_two 64 n)) [
    | inl fits ↦ subst (λ s. Holds n s 0 []) (done-injective (sym (made fits) ∙ e)) fresh-Holds
    | inr bad ↦ absurd (ground (arith, e, bad))
  ]
    where
      fresh : LfQueue A
      fresh = record { buffer = λ _. none; tail = 0; head = 0 }

      made : is_power_of_two 64 n ≡ true → new n ≡ done fresh
      made fits = rw fits refl

      fresh-Holds : Holds n fresh 0 []
      fresh-Holds = record {
        head = refl;
        tail = refl;
        room = omega arith;
        items = λ i x h. absurd (cc);
      }

  pub len-Holds :
      (q : LfQueue A) (c : ℕ) (xs : List A)
      → Holds n q c xs
      → wrapping_sub q.tail q.head ≡ length xs
  len-Holds q c xs h =
      let near : c + length xs < c + 2 ^ 64 = omega (arith, h.room, cap.small) in
      rw (h.head, h.tail) (wrapping_sub_lem (c + length xs) c (omega arith) near ∙ omega arith)

  extend :
      (q : LfQueue A) (c : ℕ) (xs : List A) (x : A)
      → Holds n q c xs
      → length xs < n
      → Holds n
          (record q {
            buffer = update q.buffer (slot n q.tail) (some x);
            tail = wrapping_add q.tail 1;
          })
          c
          (xs ++ (x ∷ []))
  extend q c xs x h lt = record {
    head = h.head;
    tail = rw h.tail (wrapping_add_lem (c + length xs) ∙ omega (arith, length-snoc xs x));
    room = omega (arith, length-snoc xs x, lt);
    items = λ i y e. elim (get_elem?-snoc xs x y i e) [
      | inl (low, old) ↦
          update_ne q.buffer (slot n q.tail) ((c + i) % n) (some x) (λ same.
            slots_differ n (c + i) (c + length xs) (omega (arith, low)) (omega (arith, lt))
              (sym same ∙ at_tail))
          ∙ h.items i y old
      | inr (eq, same) ↦
          rw (at_tail, eq) (update_self q.buffer ((c + length xs) % n) (some x) ∙ ap some same)
    ];
  }
    where
      at_tail : slot n q.tail ≡ (c + length xs) % n
      at_tail = rw h.tail (slot-wrap64 n cap (c + length xs))

  pub push_refines :
      (q : LfQueue A) (c : ℕ) (xs : List A) (x : A)
      → Holds n q c xs
      → Holds n (Queue.push n q x).1 c (Spec.push n xs x).1
        × ((Queue.push n q x).0 ≡ (Spec.push n xs x).0)
  unfolding Queue.push
  push_refines q c xs x h = elim (Bool-cases (leb n (length xs))) [
    | inl full ↦ rw (len-Holds q c xs h, full) (h, refl)
    | inr room ↦ rw (len-Holds q c xs h, room) (extend q c xs x h (ground (arith, room)), refl)
  ]

  pub pop_refines :
      (q : LfQueue A) (c : ℕ) (xs : List A)
      → Holds n q c xs
      → (q' : LfQueue A) × (c' : ℕ) × (Queue.pop n q ≡ done ((Spec.pop xs).0, q'))
        × Holds n q' c' (Spec.pop xs).1
  unfolding Queue.pop
  pop_refines q c [] h =
      let meet : (q.head == q.tail) ≡ true = ground (arith, h.head, h.tail) in
      (q, c, rw (meet, Queue.pop) refl, h)
  pop_refines q c (x ∷ xs) h = (
    record q { head = wrapping_add q.head 1 },
    c + 1,
    rw (apart, assume_init_read, there) refl,
    drop_first,
  )
    where
      apart : (q.head == q.tail) ≡ false
      apart = ground (arith, h.head, h.tail, h.room, cap.small)

      there : q.buffer (slot n q.head) ≡ some x
      there =
          rw (h.head, slot-wrap64 n cap c)
            (subst (λ i. q.buffer (i % n) ≡ some x) (omega arith) (h.items 0 x refl))

      drop_first : Holds n (record q { head = wrapping_add q.head 1 }) (c + 1) xs
      drop_first = record {
        head = rw h.head (wrapping_add_lem c);
        tail = h.tail ∙ omega arith;
        room = omega (arith, h.room);
        items = λ i y e. subst (λ j. q.buffer (j % n) ≡ some y) (omega arith) (h.items (suc i) y e);
      }

  run-Holds :
      (calls : List (Call A)) (q : LfQueue A) (c : ℕ) (xs : List A)
      → Holds n q c xs
      → run n q calls ≡ done (answers n xs calls)
  unfolding run
  run-Holds [] q c xs h = refl
  run-Holds (put x ∷ calls) q c xs h =
      let (holds, same) = push_refines q c xs x h in
      rw (run-Holds calls (Queue.push n q x).1 c (Spec.push n xs x).1 holds, same) refl
  run-Holds (take ∷ calls) q c xs h =
      let (q', c', made, holds) = pop_refines q c xs h in
      rw (made, run-Holds calls q' c' (Spec.pop xs).1 holds) refl

  -- One turn of the loop, from what the turns after it do.
  turn :
      (fuel : ℕ) (q : LfQueue A) (c : ℕ) (xs : List A)
      → Holds n q c xs
      → length xs < suc fuel
      → ((q : LfQueue A) (c : ℕ) (xs : List A)
          → Holds n q c xs
          → length xs < fuel
          → (q' : LfQueue A) × (drain n fuel q ≡ done (xs, q')) × (is_empty n q' ≡ true))
      → (q' : LfQueue A) × (drain n (suc fuel) q ≡ done (xs, q')) × (is_empty n q' ≡ true)
  unfolding drain
  turn fuel q c [] h lt later =
      let (q', c', made, holds) = pop_refines q c [] h in
      (q', rw made refl, rw (len-Holds q' c' [] holds) refl)
  turn fuel q c (x ∷ xs) h lt later =
      let (q', c', made, holds) = pop_refines q c (x ∷ xs) h in
      let (q'', rest, none_left) = later q' c' xs holds (omega (arith, lt)) in
      (q'', rw (made, rest) refl, none_left)

  -- Dropping a queue that holds `xs` takes out exactly these items, in order, and ends: one more
  -- turn of the loop than the capacity is always enough. The queue is then empty.
  pub drain_takes_all :
      (q : LfQueue A) (c : ℕ) (xs : List A)
      → Holds n q c xs
      → (q' : LfQueue A) × (drain n (suc n) q ≡ done (xs, q')) × (is_empty n q' ≡ true)
  drain_takes_all q c xs h = go (suc n) q c xs h (omega (arith, h.room))
    where
      go :
          (fuel : ℕ) (q : LfQueue A) (c : ℕ) (xs : List A)
          → Holds n q c xs
          → length xs < fuel
          → (q' : LfQueue A) × (drain n fuel q ≡ done (xs, q')) × (is_empty n q' ≡ true)
      go zero q c xs h lt = absurd (omega (arith, lt))
      go (suc fuel) q c xs h lt = turn fuel q c xs h lt (go fuel)

-- From a queue that `new` made, any calls return without a panic and without reading a slot that
-- was never written, and are answered as the first-in first-out list of at most N items answers
-- them, however often the counters have gone round.
pub run_refines :
    {A : Type 0} (n : ℕ) (q : LfQueue A) (calls : List (Call A))
    → new n ≡ done q
    → run n q calls ≡ done (answers n [] calls)
unfolding new
run_refines n q calls made = elim (Bool-cases (is_power_of_two 64 n)) [
  | inl fits ↦
      let cap = is_power_of_two-IsCapacity 64 n (omega arith) fits in
      run-Holds n cap calls q 0 [] (new-Holds n cap q made)
  | inr bad ↦ absurd (ground (arith, made, bad))
]
