-- ===== src/Queue/Threads/Invariant.antt =====
-- common/src/lf_queue.rs: what holds after every step of the two threads.
use rust_low_latency_trading.Prelude.{
  ℕ, zero, suc, ◌+◌, ◌%◌, ◌≤◌, ◌<◌, ◌≡◌, refl, arith, some, wrap64, sym, ◌∙◌, ap, inl, inr, List,
  [], ◌∷◌, ◌++◌, update, update_ne,
}
use rust_low_latency_trading.Queue.{LfQueue, wrapping_add, slot}
use rust_low_latency_trading.Queue.Arith.{IsCapacity, slots_differ, slot-wrap64, wrapping_add_lem}
use rust_low_latency_trading.Queue.Spec.{length, get_elem?}
use rust_low_latency_trading.Queue.Refine.{length-snoc, get_elem?-snoc}
use rust_low_latency_trading.Queue.Threads.{
  Producer, Consumer, has_tail, may_write, wrote, has_head, may_read, took, World,
}

module _ {A : Type 0} where
  -- What the consumer knows of the items sent and the number received.
  abbrev pub KnowsItem : Consumer A → List A → ℕ → Type 0
  KnowsItem Consumer.ready sent c = Unit
  KnowsItem (has_head h) sent c = h ≡ wrap64 c
  KnowsItem (may_read h) sent c = (h ≡ wrap64 c) × (c < length sent)
  KnowsItem (took x h) sent c = (h ≡ wrap64 c) × (c < length sent) × (get_elem? sent c ≡ some x)

module _ {A : Type 0} (n : ℕ) where
  -- What the producer knows of the items sent (`p`) and received (`c`).
  abbrev pub KnowsRoom : Producer A → LfQueue A → ℕ → ℕ → Type 0
  KnowsRoom Producer.ready q p c = Unit
  KnowsRoom (has_tail item t) q p c = t ≡ wrap64 p
  KnowsRoom (may_write item t) q p c = (t ≡ wrap64 p) × (p < c + n)
  KnowsRoom (wrote item t) q p c = (t ≡ wrap64 p) × (p < c + n) × (q.buffer (p % n) ≡ some item)

  -- The queue with the items sent and received.
  pub record Shared (q : LfQueue A) (sent received : List A) : Type 0 where
    pub tail : q.tail ≡ wrap64 (length sent)
    pub head : q.head ≡ wrap64 (length received)
    pub order : length received ≤ length sent
    pub room : length sent ≤ length received + n
    pub items :
        (i : ℕ) (x : A)
        → length received ≤ i
        → get_elem? sent i ≡ some x
        → q.buffer (i % n) ≡ some x
    pub prefix : (i : ℕ) (x : A) → get_elem? received i ≡ some x → get_elem? sent i ≡ some x

  pub record IsWorld (w : World A) : Type 0 where
    pub shared : Shared w.queue w.sent w.received
    pub producer : KnowsRoom w.producer w.queue (length w.sent) (length w.received)
    pub consumer : KnowsItem w.consumer w.sent (length w.received)

module _ {A : Type 0} where
  pub get_elem?_lt : (xs : List A) (i : ℕ) (x : A) → get_elem? xs i ≡ some x → i < length xs
  get_elem?_lt [] i x e = absurd (cc)
  get_elem?_lt (y ∷ xs) zero x e = omega arith
  get_elem?_lt (y ∷ xs) (suc i) x e = omega (arith, get_elem?_lt xs i x e)

  pub get_elem?_found : (xs : List A) (i : ℕ) → i < length xs → (x : A) × (get_elem? xs i ≡ some x)
  get_elem?_found [] i h = absurd (omega (arith, h))
  get_elem?_found (y ∷ xs) zero h = (y, refl)
  get_elem?_found (y ∷ xs) (suc i) h = get_elem?_found xs i (omega (arith, h))

  pub snoc_keeps :
      (xs : List A) (i : ℕ) (x y : A)
      → get_elem? xs i ≡ some y
      → get_elem? (xs ++ (x ∷ [])) i ≡ some y
  snoc_keeps [] i x y e = absurd (cc)
  snoc_keeps (z ∷ xs) zero x y e = e
  snoc_keeps (z ∷ xs) (suc i) x y e = snoc_keeps xs i x y e

pub at_slot : (n : ℕ) → IsCapacity n → (i t : ℕ) → t ≡ wrap64 i → slot n t ≡ i % n
at_slot n cap i t e = rw e (slot-wrap64 n cap i)

module _ {A : Type 0} (n : ℕ) (cap : IsCapacity n) where
  pub write_slot-Shared :
      (q : LfQueue A) (sent received : List A) (item : A) (t : ℕ)
      → t ≡ wrap64 (length sent)
      → length sent < length received + n
      → Shared n q sent received
      → Shared n (record q { buffer = update q.buffer (slot n t) (some item) }) sent received
  write_slot-Shared q sent received item t at room v = record {
    tail = v.tail;
    head = v.head;
    order = v.order;
    room = v.room;
    items = λ i x low e.
        update_ne q.buffer (slot n t) (i % n) (some item) (λ same.
          slots_differ n i (length sent) (get_elem?_lt sent i x e) (omega (arith, room, low))
            (sym same ∙ at_slot n cap (length sent) t at))
        ∙ v.items i x low e;
    prefix = v.prefix;
  }

  pub store_tail-Shared :
      (q : LfQueue A) (sent received : List A) (item : A) (t : ℕ)
      → t ≡ wrap64 (length sent)
      → length sent < length received + n
      → q.buffer (length sent % n) ≡ some item
      → Shared n q sent received
      → Shared n (record q { tail = wrapping_add t 1 }) (sent ++ (item ∷ [])) received
  store_tail-Shared q sent received item t at room there v = record {
    tail = rw at (wrapping_add_lem (length sent) ∙ omega (arith, length-snoc sent item));
    head = v.head;
    order = omega (arith, length-snoc sent item, v.order);
    room = omega (arith, length-snoc sent item, room);
    items = λ i x low e. elim (get_elem?-snoc sent item x i e) [
      | inl (_, old) ↦ v.items i x low old
      | inr (eq, same) ↦ rw eq (there ∙ ap some same)
    ];
    prefix = λ i x e. snoc_keeps sent i item x (v.prefix i x e);
  }

  pub store_head-Shared :
      (q : LfQueue A) (sent received : List A) (x : A) (h : ℕ)
      → h ≡ wrap64 (length received)
      → length received < length sent
      → get_elem? sent (length received) ≡ some x
      → Shared n q sent received
      → Shared n (record q { head = wrapping_add h 1 }) sent (received ++ (x ∷ []))
  store_head-Shared q sent received x h at lt there v = record {
    tail = v.tail;
    head = rw at (wrapping_add_lem (length received) ∙ omega (arith, length-snoc received x));
    order = omega (arith, length-snoc received x, lt);
    room = omega (arith, length-snoc received x, v.room);
    items = λ i y low e. v.items i y (omega (arith, length-snoc received x, low)) e;
    prefix = λ i y e. elim (get_elem?-snoc received x y i e) [
      | inl (_, old) ↦ v.prefix i y old
      | inr (eq, same) ↦ rw eq (there ∙ ap some same)
    ];
  }

module _ {A : Type 0} where
  -- What the consumer knows stays known when an item more is sent.
  pub sent-KnowsItem :
      (s : Consumer A) (sent : List A) (item : A) (c : ℕ)
      → KnowsItem s sent c
      → KnowsItem s (sent ++ (item ∷ [])) c
  sent-KnowsItem Consumer.ready sent item c k = tt
  sent-KnowsItem (has_head h) sent item c k = k
  sent-KnowsItem (may_read h) sent item c (at, lt) = (at, omega (arith, length-snoc sent item, lt))
  sent-KnowsItem (took x h) sent item c (at, lt, there) =
      (at, omega (arith, length-snoc sent item, lt), snoc_keeps sent c item x there)

  -- What the producer knows stays known when an item more is received.
  pub received-KnowsRoom :
      (n : ℕ) (s : Producer A) (q : LfQueue A) (p c h : ℕ)
      → KnowsRoom n s q p c
      → KnowsRoom n s (record q { head = h }) p (c + 1)
  received-KnowsRoom n Producer.ready q p c h k = tt
  received-KnowsRoom n (has_tail item t) q p c h k = k
  received-KnowsRoom n (may_write item t) q p c h (at, room) = (at, omega (arith, room))
  received-KnowsRoom n (wrote item t) q p c h (at, room, there) = (at, omega (arith, room), there)
