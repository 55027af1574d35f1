-- ===== src/Book/Cancel.antt =====
-- exchange/src/order_book.rs: `cancel_order` keeps the invariant of the book.
use rust_low_latency_trading.Prelude.{
  ℕ, ◌+◌, ◌^◌, ◌<◌, ◌≤◌, ◌≡◌, ◌≢◌, refl, arith, Option, none, some, if◌then◌else◌, subst, subst₂,
  sym, ap, ◌∙◌, inl, inr, Bool-cases, ◌==◌, ==_iff, fun_ext, update, ltb,
}
use rust_low_latency_trading.Prelude.Run.{done}
use rust_low_latency_trading.Prelude.Map.{
  Map, lookup, insert, remove, lookup-insert, lookup-remove, remove-IsMap, size-remove, ℕ_eq, ℤ_eq,
  ◌==◌ as same,
}
use rust_low_latency_trading.Types.{Side, side_eq, Price}
use rust_low_latency_trading.Pool.{MemPool}
use rust_low_latency_trading.Pool.Valid.{IsFree, IsValid}
use rust_low_latency_trading.Book.{Order, PriceLevel, leave_level, modify}
use rust_low_latency_trading.Book.Weigh.{
  rests_at, one_at, qty_at, weigh, weigh-remove, weigh-le-size, weigh_zero,
}
use rust_low_latency_trading.Book.Invariant.{
  IsStore, Written, Tells, Holds, rests_at→eq, rests_at_self, lookup-new_levels,
}

-- Writing what a slot holds already changes nothing.
update-same :
    (slots : ℕ → Option Order) (i : ℕ) (a : Order)
    → slots i ≡ some a
    → update slots i (some a) ≡ slots
update-same slots i a e = fun_ext λ j. elim (Bool-cases (i == j)) [
  | inl hit ↦ rw hit (sym e ∙ ap slots ((==_iff i j).0 hit))
  | inr miss ↦ rw miss
]

-- A write that finds what it writes changes nothing.
modify_idle :
    (n : ℕ) (p : MemPool Order) (r : Option ℕ) (f : Order → Order)
    → ((j : ℕ) → r ≡ some j → (a : Order) × (p.storage j ≡ some a) × (f a ≡ a))
    → modify n p r f ≡ done p
unfolding modify
modify_idle n p none f h = refl
modify_idle n p (some j) f h =
    let (a, e, same) = h j refl in
    elim (Bool-cases (ltb j n)) [
      | inl lt ↦
          rw (lt, e, modify)
            (ap (λ (s : ℕ → Option Order). done (record p { storage = s }))
              (ap (λ (b : Order). update p.storage j (some b)) same ∙ update-same p.storage j a e))
      | inr ge ↦ rw (ge, modify)
    ]

module _ (n : ℕ) (p : MemPool Order) (m : Map ℕ ℕ) (lv : Side → Map Price PriceLevel)
    (v : IsStore n p m lv) where
  -- No order has a successor, so that the write to the predecessor's link changes nothing.
  pub modify_prev :
      (i : ℕ) (o : Order)
      → p.storage i ≡ some o
      → modify n p o.prev_idx (λ a. record a { next_idx = o.next_idx }) ≡ done p
  modify_prev i o e = modify_idle n p o.prev_idx _ λ j f.
      let (a, w) = v.prev_in i j o e f in (a, w, ground (arith, v.no_next i o e, v.no_next j a w))

module _ (n : ℕ) (small : n < 2 ^ 64) (p q : MemPool Order) (m : Map ℕ ℕ)
    (lv : Side → Map Price PriceLevel) (k idx : ℕ) (o : Order) (l : PriceLevel)
    (v : IsStore n p m lv) (found : lookup k m ≡ some idx) (reads : p.storage idx ≡ some o)
    (level : lookup o.price (lv o.side) ≡ some l) where
  abbrev left : PriceLevel
  left = leave_level l o

  abbrev ls' : Map Price PriceLevel
  ls' =
      if left.order_count == 0 then remove o.price (lv o.side) else insert o.price left (lv o.side)

  abbrev lv' : Side → Map Price PriceLevel
  lv' s = if side_eq o.side s then ls' else lv s

  abbrev entry : Option PriceLevel
  entry = if left.order_count == 0 then none else some left

  lookup-ls' :
      (price : Price)
      → lookup price ls' ≡ (if same o.price price then entry else lookup price (lv o.side))
  lookup-ls' price = elim (Bool-cases (left.order_count == 0)) [
    | inl e ↦ rw e (lookup-remove o.price price (lv o.side))
    | inr e ↦ rw e (lookup-insert o.price price left (lv o.side))
  ]

  lookup-lv' :
      (s : Side) (price : Price)
      → lookup price (lv' s) ≡ (if rests_at s price o then entry else lookup price (lv s))
  lookup-lv' = lookup-new_levels lv ls' o entry lookup-ls'

  weigh' : (f : Order → ℕ) → weigh f p.storage (remove k m) + f o ≡ weigh f p.storage m
  weigh' f =
      ap (λ (w : Option Order). weigh f p.storage (remove k m) + elim w [ none ↦ 0 | some a ↦ f a ])
        (sym reads)
      ∙ weigh-remove f p.storage k idx m v.unique found

  weigh_miss : (f : Order → ℕ) → f o ≡ 0 → weigh f p.storage m ≡ weigh f p.storage (remove k m)
  weigh_miss f h = omega (arith, weigh' f, h)

  weigh_hit :
      (f : Order → ℕ) (w : ℕ) → f o ≡ w → weigh f p.storage m ≡ weigh f p.storage (remove k m) + w
  weigh_hit f w h = omega (arith, weigh' f, h)

  -- The order that is named by the key carries the key as its identifier.
  named : o.order_id ≡ k
  named = let (a, e, same_id) = (v.slot k idx found).2 in ground (arith, e, reads, same_id)

  cancel-slot :
      ((x : ℕ) → x ≢ idx → IsFree q x → IsFree p x)
      → (j i : ℕ) → lookup j (remove k m) ≡ some i
      → Holds n (record q { storage = p.storage }) j i
  cancel-slot back j i e =
      let old : lookup j m ≡ some i = ground (arith, lookup-remove k j m, e) in
      let ne : k ≢ j = λ s. ground (arith, lookup-remove k j m, e, s) in
      let (lt, held, (a, w, id)) = v.slot j i old in
      (
        lt,
        (λ f. held (back i (λ s. ne (ground (arith, named, id, w, reads, ap p.storage s))) f)),
        (a, w, id),
      )

  cancel-tail_in :
      (s : Side) (price : Price) (r : PriceLevel) (t : ℕ)
      → lookup price (lv' s) ≡ some r
      → r.tail_idx ≡ some t
      → Written p.storage t
  unfolding leave_level
  cancel-tail_in s price r t e f = elim (Bool-cases (rests_at s price o)) [
    | inl hit ↦
        v.prev_in idx t o reads
          (ground (arith, lookup-lv' s price, hit, e, f, v.no_next idx o reads))
    | inr miss ↦ v.tail_in s price r t (ground (arith, lookup-lv' s price, miss, e)) f
  ]

  -- At the order's own level the count falls by one and the quantity by the order's; the level goes
  -- when it was the last order.
  left-Tells :
      (c w : ℕ)
      → c + 1 ≤ n
      → (c ≡ 0 → w ≡ 0)
      → Tells o.price (some l) (c + 1) (w + o.qty)
      → Tells o.price entry c w
  unfolding leave_level
  left-Tells c w h zero t = ground (arith, small, v.qty_in idx o reads, zero)

  cancel-Tells :
      (s : Side) (price : Price)
      → Tells price
          (lookup price (lv' s))
          (weigh (one_at s price) p.storage (remove k m))
          (weigh (qty_at s price) p.storage (remove k m))
  cancel-Tells s price = elim (Bool-cases (rests_at s price o)) [
    | inl hit ↦
        let (es, ep) = rests_at→eq s price o hit in
        rw (lookup-lv' s price, hit)
          (subst₂
            (λ t r.
              Tells r entry (weigh (one_at t r) p.storage (remove k m))
                (weigh (qty_at t r) p.storage (remove k m)))
            es ep at_level)
    | inr miss ↦
        rw (lookup-lv' s price, miss)
          (subst₂ (Tells price (lookup price (lv s))) (weigh_miss (one_at s price) (rw miss))
            (weigh_miss (qty_at s price) (rw miss)) (v.tells s price))
  ]
    where
      one : one_at o.side o.price o ≡ 1
      one = rw (rests_at_self o)

      qty : qty_at o.side o.price o ≡ o.qty
      qty = rw (rests_at_self o)

      at_most : weigh (one_at o.side o.price) p.storage (remove k m) + 1 ≤ n
      at_most = omega (
        arith,
        weigh_hit (one_at o.side o.price) 1 one,
        weigh-le-size (one_at o.side o.price) p.storage (λ a. ground arith) m,
        v.room,
      )

      at_level :
          Tells o.price entry
            (weigh (one_at o.side o.price) p.storage (remove k m))
            (weigh (qty_at o.side o.price) p.storage (remove k m))
      at_level = left-Tells _ _ at_most (weigh_zero o.side o.price p.storage (remove k m)) (
          subst₂ (λ c w. Tells o.price (some l) c w) (weigh_hit (one_at o.side o.price) 1 one)
            (weigh_hit (qty_at o.side o.price) o.qty qty)
            (subst
              (λ r.
                Tells o.price r (weigh (one_at o.side o.price) p.storage m)
                  (weigh (qty_at o.side o.price) p.storage m))
              level (v.tells o.side o.price)))

  pub cancel-IsStore :
      IsValid n q
      → ((x : ℕ) → x ≢ idx → IsFree q x → IsFree p x)
      → q.free_count ≡ p.free_count + 1
      → IsStore n
          (record q { storage = p.storage })
          (remove k m)
          (λ s. if side_eq o.side s then ls' else lv s)
  cancel-IsStore valid back count = record {
    valid = record { fits = valid.fits; in_range = valid.in_range; distinct = valid.distinct };
    unique = remove-IsMap k m v.unique;
    slot = cancel-slot back;
    room = omega (arith, size-remove k idx m v.unique found, v.room, count);
    no_next = v.no_next;
    qty_in = v.qty_in;
    prev_in = v.prev_in;
    tail_in = cancel-tail_in;
    tells = cancel-Tells;
  }
