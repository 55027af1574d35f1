-- ===== src/Trade/Account.antt =====
-- trading/src/trade_engine.rs: the count of open orders and the pending quantities of each ticker
-- agree with the pending orders.
use rust_low_latency_trading.Prelude.{
  ℕ, ◌+◌, ◌-◌, ◌^◌, ◌<◌, ◌≡◌, refl, arith, ◌&&◌, Option, some, List, [], ◌∷◌, sym, ◌∙◌, ap,
  if◌then◌else◌, ◌==◌, Bool-cases, inl, inr, ==_iff,
}
use rust_low_latency_trading.Prelude.Map.{
  lookup, insert, remove, IsMap, lookup-insert, ℕ_eq, remove-IsMap,
}
use rust_low_latency_trading.Prelude.Totals.{total, total-remove}
use rust_low_latency_trading.Types.{OrderId, TickerId, Qty, Side, buy, sell, side_eq}
use rust_low_latency_trading.Bbo
use rust_low_latency_trading.Position
use rust_low_latency_trading.Position.{Position, add_open_order, remove_open_order}
use rust_low_latency_trading.Position.Keeper.{or_new}
use rust_low_latency_trading.Risk.Limits.{open_qty}
use rust_low_latency_trading.Trade.{
  TradeEngine, TrackedOrder, or_zero, pending_order_count, position_of, put_open, drop_order,
  init_tickers, TradeEngineConfig, new,
}

-- An order counts for its ticker, and its quantity for its ticker and side.
abbrev pub one_at : TickerId → TrackedOrder → ℕ
one_at t o = if o.ticker_id == t then 1 else 0

abbrev pub qty_at : TickerId → Side → TrackedOrder → ℕ
qty_at t side o = if (o.ticker_id == t) && side_eq o.side side then o.leaves_qty else 0

-- What the pending quantities of both sides become.
pub open-remove :
    (p : Position) (s side : Side) (x : Qty)
    → open_qty side (remove_open_order p s x)
      ≡ (if side_eq s side then open_qty side p - x else open_qty side p)
open-remove p buy buy x = refl
open-remove p buy sell x = refl
open-remove p sell buy x = refl
open-remove p sell sell x = refl

pub open-add :
    (p : Position) (s side : Side) (x : Qty)
    → open_qty s p + x < 2 ^ 32
    → open_qty side (add_open_order p s x)
      ≡ (if side_eq s side then open_qty side p + x else open_qty side p)
open-add p buy buy x h = omega arith
open-add p buy sell x h = refl
open-add p sell buy x h = refl
open-add p sell sell x h = omega arith

module _ {S : Type 0} where
  pub record IsAccount (e : TradeEngine S) : Type 0 where
    pub unique : IsMap e.pending_orders
    pub counts : (t : TickerId) → pending_order_count e t ≡ total (one_at t) e.pending_orders
    pub quantities :
        (t : TickerId) (side : Side)
        → open_qty side (position_of e t) ≡ total (qty_at t side) e.pending_orders

  pub count-put_open :
      (e : TradeEngine S) (t u : TickerId) (p : Position) (c : ℕ)
      → pending_order_count (put_open e t p c) u ≡ (if t == u then c else pending_order_count e u)
  count-put_open e t u p c =
      ap or_zero (lookup-insert t u c e.open_order_count)
      ∙ elim (Bool-cases (t == u)) [ inl hit ↦ rw hit refl | inr miss ↦ rw miss refl ]

  pub quantity-put_open :
      (e : TradeEngine S) (t u : TickerId) (p : Position) (c : ℕ) (side : Side)
      → open_qty side (position_of (put_open e t p c) u)
        ≡ (if t == u then open_qty side p else open_qty side (position_of e u))
  quantity-put_open e t u p c side =
      ap (λ (r : Option Position). open_qty side (or_new u r))
        (lookup-insert t u p e.position_keeper.positions)
      ∙ elim (Bool-cases (t == u)) [ inl hit ↦ rw hit refl | inr miss ↦ rw miss refl ]

  -- An order that leaves the tracking takes its share of both.
  pub drop_order-IsAccount :
      (e : TradeEngine S) (id : OrderId) (o : TrackedOrder)
      → lookup id e.pending_orders ≡ some o
      → IsAccount e
      → IsAccount (drop_order e o.ticker_id id o)
  drop_order-IsAccount e id o found v = record {
    unique = remove-IsMap id e.pending_orders v.unique;
    counts = λ u.
        count-put_open (record e { pending_orders = remove id e.pending_orders }) o.ticker_id u
          (remove_open_order (position_of e o.ticker_id) o.side o.leaves_qty)
          (pending_order_count e o.ticker_id - 1)
        ∙ ground (
          arith,
          v.counts u,
          v.counts o.ticker_id,
          total-remove (one_at u) id o e.pending_orders v.unique found,
          ==_iff o.ticker_id u,
        );
    quantities = λ u side.
        quantity-put_open (record e { pending_orders = remove id e.pending_orders }) o.ticker_id u
          (remove_open_order (position_of e o.ticker_id) o.side o.leaves_qty)
          (pending_order_count e o.ticker_id - 1) side
        ∙ ground (
          arith,
          v.quantities u side,
          v.quantities o.ticker_id side,
          total-remove (qty_at u side) id o e.pending_orders v.unique found,
          open-remove (position_of e o.ticker_id) o.side side o.leaves_qty,
          ==_iff o.ticker_id u,
        );
  }

  -- Counts of zero stay zero when the tickers of the configuration are set up.
  init_tickers-IsAccount :
      (ts : List TickerId) (e : TradeEngine S)
      → IsAccount e
      → ((t : TickerId) → pending_order_count e t ≡ 0)
      → IsAccount (init_tickers ts e)
  unfolding init_tickers
  init_tickers-IsAccount [] e v none_open = v
  init_tickers-IsAccount (t ∷ ts) e v none_open =
      init_tickers-IsAccount ts e₁
        (record {
          unique = v.unique;
          counts = λ u. zero_still u ∙ sym (none_open u) ∙ v.counts u;
          quantities = v.quantities;
        })
        zero_still
    where
      e₁ : TradeEngine S
      e₁ = record e {
        bbo_state = insert t Bbo.new e.bbo_state;
        open_order_count = insert t 0 e.open_order_count;
      }

      zero_still : (u : TickerId) → pending_order_count e₁ u ≡ 0
      zero_still u =
          ap or_zero (lookup-insert t u 0 e.open_order_count) ∙ ground (arith, none_open u)

  pub new-IsAccount : (config : TradeEngineConfig) → IsAccount (new config)
  unfolding new lookup total
  new-IsAccount config =
      init_tickers-IsAccount config.tickers _
        (record { unique = tt; counts = λ t. refl; quantities = λ t side. no_quantity t side })
        (λ t. refl)
    where
      no_quantity : (t : TickerId) (side : Side) → open_qty side (Position.new t) ≡ 0
      no_quantity t buy = refl
      no_quantity t sell = refl
