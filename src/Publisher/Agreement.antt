-- ===== src/Publisher/Agreement.antt =====
-- exchange/src/market_data.rs with trading/src/market_data.rs: both ends keep the best prices of a
-- ticker by code of their own. Where the two agree, and where they part.
use rust_low_latency_trading.Prelude.{
  ℕ, ◌-◌, ◌≤◌, ◌<◌, ◌≡◌, refl, arith, inl, false, some, if◌then◌else◌,
}
use rust_low_latency_trading.Prelude.Int.{pos, negsuc}
use rust_low_latency_trading.Prelude.Map.{◌==◌, ℕ_eq, ℤ_eq}
use rust_low_latency_trading.Types.{Price, Qty, Side, buy, sell, as_sign}
use rust_low_latency_trading.Protocol.Update.{MarketUpdateType}
use rust_low_latency_trading.Bbo
use rust_low_latency_trading.Publisher.Ticker
use rust_low_latency_trading.Publisher.Ticker.{TickerState, bid_shows}
use rust_low_latency_trading.Publisher.Sides.{
  SameSide, IsPrice, here_add, there_add, above, below, add_same_bid, add_same_ask, take_same,
  cancel_same, LeavesSome,
}

-- The two ends agree on a ticker.
pub record Agrees (st : TickerState) (b : Bbo.Bbo) : Type 0 where
  pub bid : SameSide st.bid_price st.bid_qty b.bid_price b.bid_qty
  pub ask : SameSide st.ask_price st.ask_qty b.ask_price b.ask_qty

-- The code of the two ends, by the sides.
here_buys :
    (st : TickerState) (price : Price) (qty : Qty)
    → let side = here_add above st.bid_price st.bid_qty price qty in
      Ticker.on_add st (pos 1) price qty ≡ record st { bid_price = side.0; bid_qty = side.1 }
here_buys st price qty = ground arith

here_sells :
    (st : TickerState) (price : Price) (qty : Qty)
    → let side = here_add below st.ask_price st.ask_qty price qty in
      Ticker.on_add st (negsuc 0) price qty ≡ record st { ask_price = side.0; ask_qty = side.1 }
here_sells st price qty = ground arith

there_buys :
    (b : Bbo.Bbo) (price : Price) (qty : Qty)
    → let side = there_add above b.bid_price b.bid_qty price qty in
      Bbo.on_add b (pos 1) price qty ≡ record b { bid_price = side.0; bid_qty = side.1 }
there_buys b price qty = ground arith

there_sells :
    (b : Bbo.Bbo) (price : Price) (qty : Qty)
    → let side = there_add below b.ask_price b.ask_qty price qty in
      Bbo.on_add b (negsuc 0) price qty ≡ record b { ask_price = side.0; ask_qty = side.1 }
there_sells b price qty = ground arith

adds_agree :
    (st : TickerState) (b : Bbo.Bbo) (s : Side) (n qty : ℕ)
    → IsPrice n
    → Agrees st b
    → Agrees (Ticker.on_add st (as_sign s) (pos n) qty) (Bbo.on_add b (as_sign s) (pos n) qty)
adds_agree st b buy n qty h a =
    rw (here_buys st (pos n) qty, there_buys b (pos n) qty)
      (record {
        bid = add_same_bid st.bid_price st.bid_qty b.bid_price b.bid_qty n qty h a.bid;
        ask = a.ask;
      })
adds_agree st b sell n qty h a =
    rw (here_sells st (pos n) qty, there_sells b (pos n) qty)
      (record {
        bid = a.bid;
        ask = add_same_ask st.ask_price st.ask_qty b.ask_price b.ask_qty n qty h a.ask;
      })

-- A side with less of its best level.
abbrev less : Price → Qty → Price → Qty → Qty
less p q price qty = if price == p then q - qty else q

here_trades_buy :
    (st : TickerState) (price : Price) (qty : Qty)
    → Ticker.on_trade st (pos 1) price qty
      ≡ record st { ask_qty = less st.ask_price st.ask_qty price qty }
here_trades_buy st price qty = ground arith

here_trades_sell :
    (st : TickerState) (price : Price) (qty : Qty)
    → Ticker.on_trade st (negsuc 0) price qty
      ≡ record st { bid_qty = less st.bid_price st.bid_qty price qty }
here_trades_sell st price qty = ground arith

there_trades_buy :
    (b : Bbo.Bbo) (price : Price) (qty : Qty)
    → Bbo.on_trade b (pos 1) price qty ≡ record b { ask_qty = less b.ask_price b.ask_qty price qty }
there_trades_buy b price qty = ground arith

there_trades_sell :
    (b : Bbo.Bbo) (price : Price) (qty : Qty)
    → Bbo.on_trade b (negsuc 0) price qty
      ≡ record b { bid_qty = less b.bid_price b.bid_qty price qty }
there_trades_sell b price qty = ground arith

trades_agree :
    (st : TickerState) (b : Bbo.Bbo) (s : Side) (n qty : ℕ)
    → IsPrice n
    → Agrees st b
    → Agrees (Ticker.on_trade st (as_sign s) (pos n) qty) (Bbo.on_trade b (as_sign s) (pos n) qty)
trades_agree st b buy n qty h a =
    rw (here_trades_buy st (pos n) qty, there_trades_buy b (pos n) qty)
      (record {
        bid = a.bid;
        ask = take_same st.ask_price st.ask_qty b.ask_price b.ask_qty n qty h a.ask;
      })
trades_agree st b sell n qty h a =
    rw (here_trades_sell st (pos n) qty, there_trades_sell b (pos n) qty)
      (record {
        bid = take_same st.bid_price st.bid_qty b.bid_price b.bid_qty n qty h a.bid;
        ask = a.ask;
      })

abbrev cancelled_price : Price → Qty → Price → Qty → Price
cancelled_price p q price qty = if price == p then Ticker.price_left p (q - qty) else p

abbrev cancelled_qty : Price → Qty → Price → Qty → Qty
cancelled_qty p q price qty = if price == p then Bbo.after_cancel qty q else q

here_cancels_buy :
    (st : TickerState) (price : Price) (qty : Qty)
    → Ticker.on_cancel st (pos 1) price qty ≡ record st {
      bid_price = cancelled_price st.bid_price st.bid_qty price qty;
      bid_qty = less st.bid_price st.bid_qty price qty;
    }
here_cancels_buy st price qty = ground arith

here_cancels_sell :
    (st : TickerState) (price : Price) (qty : Qty)
    → Ticker.on_cancel st (negsuc 0) price qty ≡ record st {
      ask_price = cancelled_price st.ask_price st.ask_qty price qty;
      ask_qty = less st.ask_price st.ask_qty price qty;
    }
here_cancels_sell st price qty = ground arith

there_cancels_buy :
    (b : Bbo.Bbo) (price : Price) (qty : Qty)
    → Bbo.on_cancel b (pos 1) price qty
      ≡ record b { bid_qty = cancelled_qty b.bid_price b.bid_qty price qty }
there_cancels_buy b price qty = ground arith

there_cancels_sell :
    (b : Bbo.Bbo) (price : Price) (qty : Qty)
    → Bbo.on_cancel b (negsuc 0) price qty
      ≡ record b { ask_qty = cancelled_qty b.ask_price b.ask_qty price qty }
there_cancels_sell b price qty = ground arith

-- The cancel leaves some of the best level of its side, if it is there.
abbrev pub LeavesSomeOf : TickerState → Side → ℕ → Qty → Type 0
LeavesSomeOf st buy n qty = LeavesSome st.bid_price st.bid_qty n qty
LeavesSomeOf st sell n qty = LeavesSome st.ask_price st.ask_qty n qty

cancels_agree :
    (st : TickerState) (b : Bbo.Bbo) (s : Side) (n qty : ℕ)
    → IsPrice n
    → LeavesSomeOf st s n qty
    → Agrees st b
    → Agrees (Ticker.on_cancel st (as_sign s) (pos n) qty) (Bbo.on_cancel b (as_sign s) (pos n) qty)
cancels_agree st b buy n qty h left a =
    rw (here_cancels_buy st (pos n) qty, there_cancels_buy b (pos n) qty)
      (record {
        bid = cancel_same st.bid_price st.bid_qty b.bid_price b.bid_qty n qty h left a.bid;
        ask = a.ask;
      })
cancels_agree st b sell n qty h left a =
    rw (here_cancels_sell st (pos n) qty, there_cancels_sell b (pos n) qty)
      (record {
        bid = a.bid;
        ask = cancel_same st.ask_price st.ask_qty b.ask_price b.ask_qty n qty h left a.ask;
      })

-- A cancel is to leave some of the best level; nothing is asked of the other kinds.
abbrev pub IsMild : MarketUpdateType → TickerState → Side → ℕ → Qty → Type 0
IsMild MarketUpdateType.cancel st s n qty = LeavesSomeOf st s n qty
IsMild _ st s n qty = Unit {0}

-- The publisher and a receiver, each by its own code, agree on the best bid and offer of a ticker
-- after every message on which they agreed before: additions, modifications, snapshots, trades and
-- clears at a price above 0 and below the invalid one, and cancels that leave some of the best level.
pub on_kind-Agrees :
    (kind : MarketUpdateType) (st : TickerState) (b : Bbo.Bbo) (s : Side) (n qty : ℕ)
    → IsPrice n
    → IsMild kind st s n qty
    → Agrees st b
    → Agrees
        (Ticker.on_kind (some kind) st (as_sign s) (pos n) qty)
        (Bbo.on_kind kind b (as_sign s) (pos n) qty)
on_kind-Agrees MarketUpdateType.add st b s n qty h mild a = adds_agree st b s n qty h a
on_kind-Agrees MarketUpdateType.modify st b s n qty h mild a = adds_agree st b s n qty h a
on_kind-Agrees MarketUpdateType.snapshot st b s n qty h mild a = adds_agree st b s n qty h a
on_kind-Agrees MarketUpdateType.trade st b s n qty h mild a = trades_agree st b s n qty h a
on_kind-Agrees MarketUpdateType.cancel st b s n qty h mild a = cancels_agree st b s n qty h mild a
on_kind-Agrees MarketUpdateType.clear st b s n qty h mild a = record {
  bid = inl (refl, refl, refl, refl);
  ask = inl (refl, refl, refl, refl);
}

-- A trade that takes all of the best bid leaves its price with quantity 0, as a cancel of the whole
-- level does not: a lower bid that is added then is ignored, so that the snapshot shows no bid though
-- there is one.
pub exhausted_best_hides_lower :
    (st : TickerState) (n m qty taken : ℕ)
    → IsPrice n
    → m < n
    → st.bid_price ≡ pos n
    → st.bid_qty ≤ taken
    → let after =
        Ticker.on_add (Ticker.on_trade st (as_sign sell) (pos n) taken) (as_sign buy) (pos m) qty in
      (bid_shows after ≡ false) × (after.bid_price ≡ pos n)
exhausted_best_hides_lower st n m qty taken h lower best all =
    rw
      (
        here_buys (Ticker.on_trade st (negsuc 0) (pos n) taken) (pos m) qty,
        here_trades_sell st (pos n) taken,
      )
      (ground (arith, h.0), ground (arith, h.0))
