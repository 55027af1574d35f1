-- ===== src/Book/Place.antt =====
-- exchange/src/order_book.rs: `add_order` keeps the invariant of the book.
use rust_low_latency_trading.Prelude.{
  ℕ, ◌+◌, ◌^◌, ◌<◌, ◌≤◌, ◌≡◌, ◌≢◌, refl, arith, Option, none, some, if◌then◌else◌, true, subst,
  subst₂, sym, ap, ap₂, ◌∙◌, inl, inr, Bool-cases, update, update_ne, update_self, ◌==◌, ==_iff,
}
use native.Mathlib.Nat.{add-zero}
use rust_low_latency_trading.Prelude.Map.{
  Map, lookup, insert, lookup-insert, insert-IsMap, size-insert_new, ℕ_eq, ℤ_eq,
}
use rust_low_latency_trading.Types.{Side, side_eq, Price}
use rust_low_latency_trading.Pool.{MemPool}
use rust_low_latency_trading.Pool.Valid.{IsFree, IsValid, Allocates}
use rust_low_latency_trading.Book.{Order, PriceLevel, join_level, level_at, new_level}
use rust_low_latency_trading.Book.Weigh.{
  rests_at, one_at, qty_at, weigh, weigh-insert_new, weigh-update_ne, weigh-le-size,
}
use rust_low_latency_trading.Book.Invariant.{
  IsStore, Written, Tells, Holds, rests_at→eq, lookup-new_levels,
}

-- A slot stays written when another is written.
Written-update :
    (slots : ℕ → Option Order) (i j : ℕ) (o : Order)
    → Written slots j
    → Written (update slots i (some o)) j
Written-update slots i j o w = elim (Bool-cases (i == j)) [
  | inl e ↦ (o, ground arith)
  | inr e ↦ (w.0, ground (arith, w.1))
]

module _ (n : ℕ) (small : n < 2 ^ 64) (p q : MemPool Order) (m : Map ℕ ℕ)
    (lv : Side → Map Price PriceLevel) (idx : ℕ) (o : Order) (v : IsStore n p m lv)
    (has : Allocates n p (some (record { index = idx }), q)) (fresh : lookup o.order_id m ≡ none)
    (prev : o.prev_idx ≡ (level_at (lv o.side) o.price).tail_idx) where
  slots : ℕ → Option Order
  slots = update p.storage idx (some o)

  abbrev joined : PriceLevel
  joined = join_level (level_at (lv o.side) o.price) idx o.qty

  abbrev lv' : Side → Map Price PriceLevel
  lv' s = if side_eq o.side s then insert o.price joined (lv o.side) else lv s

  away : (k i : ℕ) → lookup k m ≡ some i → i ≢ idx
  away k i e s = (v.slot k i e).1 (subst (IsFree p) (sym s) has.1)

  lookup-lv' :
      (s : Side) (price : Price)
      → lookup price (lv' s) ≡ (if rests_at s price o then some joined else lookup price (lv s))
  lookup-lv' =
      lookup-new_levels lv (insert o.price joined (lv o.side)) o (some joined)
        (λ price. lookup-insert o.price price joined (lv o.side))

  weigh' :
      (f : Order → ℕ)
      → weigh f (update p.storage idx (some o)) (insert o.order_id idx m)
        ≡ weigh f p.storage m + f o
  weigh' f =
      weigh-insert_new f (update p.storage idx (some o)) o.order_id idx m fresh
      ∙ ap₂ ◌+◌ (weigh-update_ne f p.storage idx (some o) m v.unique away) (
          ap (λ (w : Option Order). elim w [ none ↦ 0 | some a ↦ f a ])
            (update_self p.storage idx (some o)))

  place-slot :
      (k i : ℕ)
      → lookup k (insert o.order_id idx m) ≡ some i
      → Holds n (record q { storage = update p.storage idx (some o) }) k i
  place-slot k i e = elim (Bool-cases (o.order_id == k)) [
    | inl hit ↦
        let at : idx ≡ i = ground (arith, lookup-insert o.order_id k idx m, e) in
        (
          subst (λ j. j < n) at has.0,
          (λ f. has.2 (f.0, f.1, f.2 ∙ sym at)),
          (o, ground arith, (==_iff o.order_id k).0 hit),
        )
    | inr miss ↦
        let old : lookup k m ≡ some i = ground (arith, lookup-insert o.order_id k idx m, e) in
        let h = v.slot k i old in
        (
          h.0,
          (λ f. h.1 (has.3 i f)),
          (h.2.0, update_ne p.storage idx i (some o) (λ s. away k i old (sym s)) ∙ h.2.1, h.2.2),
        )
  ]

  place-prev_in :
      o.next_idx ≡ none
      → (i j : ℕ) (a : Order) → update p.storage idx (some o) i ≡ some a
      → a.prev_idx ≡ some j
      → Written (update p.storage idx (some o)) j
  place-prev_in nn i j a e f = Written-update p.storage idx j o (elim (Bool-cases (idx == i)) [
    | inl hit ↦ tail_written (lookup o.price (lv o.side)) refl (ground (arith, e))
    | inr miss ↦ v.prev_in i j a (ground (arith, e)) f
  ])
    where
      tail_written :
          (r : Option PriceLevel) → lookup o.price (lv o.side) ≡ r → o ≡ a → Written p.storage j
      tail_written none g same =
          absurd (ground (arith, prev, g, ap (λ (b : Order). b.prev_idx) same, f))
      tail_written (some l) g same =
          v.tail_in o.side o.price l j g
            (ground (arith, prev, g, ap (λ (b : Order). b.prev_idx) same, f))

  place-tail_in :
      (s : Side) (price : Price) (l : PriceLevel) (t : ℕ)
      → lookup price (lv' s) ≡ some l
      → l.tail_idx ≡ some t
      → Written (update p.storage idx (some o)) t
  unfolding join_level
  place-tail_in s price l t e f = elim (Bool-cases (rests_at s price o)) [
    | inl hit ↦
        let at : joined ≡ l = ground (arith, lookup-lv' s price, hit, e) in
        subst (Written (update p.storage idx (some o)))
          (ground (arith, ap (λ (k : PriceLevel). k.tail_idx) at, f))
          (o, update_self p.storage idx (some o))
    | inr miss ↦
        Written-update p.storage idx t o
          (v.tail_in s price l t (ground (arith, lookup-lv' s price, miss, e)) f)
  ]

  -- Fewer orders rest at a level than there are slots, so that its counter does not wrap.
  count_room : (s : Side) (price : Price) → weigh (one_at s price) p.storage m + 1 ≤ n
  count_room s price =
      omega (arith, weigh-le-size (one_at s price) p.storage (λ a. ground arith) m, v.room, has.6)

  -- At the order's own level the count grows by one and the quantity by the order's.
  joined-Tells :
      (r : Option PriceLevel) (c w : ℕ)
      → c + 1 ≤ n
      → Tells o.price r c w
      → Tells o.price
          (some (join_level (elim r [ none ↦ new_level o.price | some l ↦ l ]) idx o.qty))
          (c + 1)
          (w + o.qty)
  unfolding join_level
  joined-Tells none c w h t = ground (arith, small)
  joined-Tells (some l) c w h t = ground (arith, small)

  place-Tells :
      (s : Side) (price : Price)
      → Tells price
          (lookup price (lv' s))
          (weigh (one_at s price) (update p.storage idx (some o)) (insert o.order_id idx m))
          (weigh (qty_at s price) (update p.storage idx (some o)) (insert o.order_id idx m))
  place-Tells s price =
      rw (lookup-lv' s price, weigh' (one_at s price), weigh' (qty_at s price))
        (elim (Bool-cases (rests_at s price o)) [
          | inl hit ↦ rw hit (at_level hit)
          | inr miss ↦ rw miss (simp add-zero (v.tells s price))
        ])
    where
      at_level :
          rests_at s price o ≡ true
          → Tells price
              (some joined)
              (weigh (one_at s price) p.storage m + 1)
              (weigh (qty_at s price) p.storage m + o.qty)
      at_level hit =
          let (es, ep) = rests_at→eq s price o hit in
          subst₂
            (λ t r.
              Tells r (some joined) (weigh (one_at t r) p.storage m + 1)
                (weigh (qty_at t r) p.storage m + o.qty))
            es ep
            (joined-Tells (lookup o.price (lv o.side)) _ _ (count_room o.side o.price)
              (v.tells o.side o.price))

  same_order :
      (i : ℕ) (a : Order) → (idx == i) ≡ true → update p.storage idx (some o) i ≡ some a → o ≡ a
  same_order i a hit e = ground (arith, hit, e)

  pub place-IsStore :
      IsValid n q
      → o.next_idx ≡ none
      → o.qty < 2 ^ 32
      → IsStore n
          (record q { storage = update p.storage idx (some o) })
          (insert o.order_id idx m)
          (λ s. if side_eq o.side s then insert o.price joined (lv o.side) else lv s)
  place-IsStore valid nn range = record {
    valid = record { fits = valid.fits; in_range = valid.in_range; distinct = valid.distinct };
    unique = insert-IsMap o.order_id idx m v.unique;
    slot = place-slot;
    room = omega (arith, size-insert_new o.order_id idx m fresh, v.room, has.6);
    no_next = λ i a e. elim (Bool-cases (idx == i)) [
      | inl hit ↦ ground (arith, e, nn)
      | inr miss ↦ v.no_next i a (ground (arith, e))
    ];
    qty_in = λ i a e. elim (Bool-cases (idx == i)) [
      | inl hit ↦ omega (arith, ap (λ (b : Order). b.qty) (same_order i a hit e), range)
      | inr miss ↦ v.qty_in i a (ground (arith, e))
    ];
    prev_in = place-prev_in nn;
    tail_in = place-tail_in;
    tells = place-Tells;
  }
