-- ===== src/Book/Invariant.antt =====
-- exchange/src/order_book.rs: what every book that the code builds satisfies.
use rust_low_latency_trading.Prelude.{
  ℕ, ◌+◌, ◌<◌, ◌^◌, ◌≡◌, refl, arith, Option, none, some, wrap32, if◌then◌else◌, true, subst,
  fun_ext, sym, ap, ◌∙◌, inl, inr, Bool-cases,
}
use rust_low_latency_trading.Prelude.Map.{
  Map, lookup, size, IsMap, ℕ_eq, ℤ_eq, ℤ_beq_iff, ◌==◌ as same,
}
use rust_low_latency_trading.Types.{Side, buy, sell, side_eq, Price}
use rust_low_latency_trading.Pool.{MemPool}
use rust_low_latency_trading.Pool.Valid.{IsFree, IsValid}
use rust_low_latency_trading.Book.{Order, PriceLevel, OrderBook, levels, with_levels}
use rust_low_latency_trading.Book.Weigh.{rests_at, one_at, qty_at, weigh}

abbrev pub Written : (ℕ → Option Order) → ℕ → Type 0
Written slots i = (o : Order) × (slots i ≡ some o)

-- The level found at a price tells the number and the quantity (modulo 2^32) of the orders there;
-- there is none where no order rests.
abbrev pub Tells : Price → Option PriceLevel → ℕ → ℕ → Type 0
Tells price none count qty = (count ≡ 0) × (qty ≡ 0)
Tells price (some l) count qty =
    (l.price ≡ price) × (l.order_count ≡ count) × (0 < count) × (l.total_qty ≡ wrap32 qty)

abbrev pub Holds : ℕ → MemPool Order → ℕ → ℕ → Type 0
Holds n pool k i =
    (i < n) × ¬ IsFree pool i × ((o : Order) × (pool.storage i ≡ some o) × (o.order_id ≡ k))

-- The pool, the order map and the levels of each side agree.
pub record IsStore (n : ℕ) (pool : MemPool Order) (m : Map ℕ ℕ) (lv : Side → Map Price PriceLevel)
    : Type 0 where
  pub valid : IsValid n pool
  pub unique : IsMap m
  pub slot : (k i : ℕ) → lookup k m ≡ some i → Holds n pool k i
  pub room : size m + pool.free_count ≡ n
  pub no_next : (i : ℕ) (o : Order) → pool.storage i ≡ some o → o.next_idx ≡ none
  pub qty_in : (i : ℕ) (o : Order) → pool.storage i ≡ some o → o.qty < 2 ^ 32
  pub prev_in :
      (i p : ℕ) (o : Order) → pool.storage i ≡ some o → o.prev_idx ≡ some p → Written pool.storage p
  pub tail_in :
      (s : Side) (price : Price) (l : PriceLevel) (t : ℕ)
      → lookup price (lv s) ≡ some l
      → l.tail_idx ≡ some t
      → Written pool.storage t
  pub tells :
      (s : Side) (price : Price)
      → Tells price
          (lookup price (lv s))
          (weigh (one_at s price) pool.storage m)
          (weigh (qty_at s price) pool.storage m)

abbrev pub IsBook : ℕ → OrderBook → Type 0
IsBook n b = IsStore n b.order_pool b.order_map (levels b)

pub levels-with_levels :
    (b : OrderBook) (s t : Side) (ls : Map Price PriceLevel)
    → levels (with_levels b s ls) t ≡ (if side_eq s t then ls else levels b t)
levels-with_levels b buy buy ls = refl
levels-with_levels b buy sell ls = refl
levels-with_levels b sell buy ls = refl
levels-with_levels b sell sell ls = refl

-- So a book is judged by the parts that it was put together from.
pub IsBook-with_levels :
    (n : ℕ) (b : OrderBook) (s : Side) (ls : Map Price PriceLevel)
    (lv : Side → Map Price PriceLevel)
    → ((t : Side) → levels b t ≡ lv t)
    → IsStore n b.order_pool b.order_map (λ t. if side_eq s t then ls else lv t)
    → IsBook n (with_levels b s ls)
IsBook-with_levels n b buy ls lv e h =
    subst (IsStore n b.order_pool b.order_map)
      (fun_ext (λ t.
        ap (λ r. if side_eq buy t then ls else r) (sym (e t))
        ∙ sym (levels-with_levels b buy t ls)))
      h
IsBook-with_levels n b sell ls lv e h =
    subst (IsStore n b.order_pool b.order_map)
      (fun_ext (λ t.
        ap (λ r. if side_eq sell t then ls else r) (sym (e t))
        ∙ sym (levels-with_levels b sell t ls)))
      h

pub side_eq→eq : (s t : Side) → side_eq s t ≡ true → s ≡ t
side_eq→eq buy buy e = refl
side_eq→eq buy sell e = cc
side_eq→eq sell buy e = cc
side_eq→eq sell sell e = refl

-- What the test of a level says of an order.
pub rests_at→eq :
    (s : Side) (price : Price) (o : Order)
    → rests_at s price o ≡ true
    → (o.side ≡ s) × (o.price ≡ price)
rests_at→eq s price o h =
    (side_eq→eq o.side s (ground (arith, h)), (ℤ_beq_iff o.price price).0 (ground (arith, h)))

-- The levels after one entry of the order's own side has become `entry`, read at any side and price.
pub lookup-new_levels :
    (lv : Side → Map Price PriceLevel) (ls : Map Price PriceLevel) (o : Order)
    (entry : Option PriceLevel)
    → ((price : Price)
        → lookup price ls ≡ (if same o.price price then entry else lookup price (lv o.side)))
    → (s : Side) (price : Price)
    → lookup price (if side_eq o.side s then ls else lv s)
      ≡ (if rests_at s price o then entry else lookup price (lv s))
lookup-new_levels lv ls o entry h s price = elim (Bool-cases (side_eq o.side s)) [
  | inl e ↦ rw e (
      h price
      ∙ ap (λ t. if same o.price price then entry else lookup price (lv t)) (side_eq→eq o.side s e))
  | inr e ↦ rw e
]

pub side_eq_self : (s : Side) → side_eq s s ≡ true
side_eq_self buy = refl
side_eq_self sell = refl

pub rests_at_self : (o : Order) → rests_at o.side o.price o ≡ true
rests_at_self o = rw (side_eq_self o.side, (ℤ_beq_iff o.price o.price).1 refl)
