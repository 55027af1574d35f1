-- ===== src/Publisher/Ticker.antt =====
-- exchange/src/market_data.rs: the best prices that the publisher keeps for one ticker, and the
-- messages that tell them to a client that joins late. A price of 0 stands for no order.
use rust_low_latency_trading.Prelude.{
  ℕ, ◌-◌, Bool, ◌&&◌, ◌||◌, Option, none, some, List, [], ◌∷◌, ◌++◌, if◌then◌else◌, ltb,
}
use rust_low_latency_trading.Prelude.Int.{ℤ, pos, ltb_ℤ}
use rust_low_latency_trading.Prelude.Map.{◌==◌, ℕ_eq, ℤ_eq}
use rust_low_latency_trading.Types.{TickerId, Price, Qty, as_sign, buy, sell}
use rust_low_latency_trading.Protocol.Update
use rust_low_latency_trading.Protocol.Update.{MarketUpdate, MarketUpdateType, update_type}

pub record TickerState : Type 0 where
  pub bid_price : Price
  pub bid_qty : Qty
  pub ask_price : Price
  pub ask_qty : Qty
  pub last_seq : ℕ

abbrev pub default_state : TickerState
default_state = record {
  bid_price = pos 0;
  bid_qty = 0;
  ask_price = pos 0;
  ask_qty = 0;
  last_seq = 0;
}

abbrev pub or_default : Option TickerState → TickerState
or_default none = default_state
or_default (some st) = st

abbrev pub on_add : TickerState → ℤ → Price → Qty → TickerState
on_add st side price qty =
    if side == as_sign buy
    then (if ltb_ℤ st.bid_price price || (st.bid_price == pos 0)
        then record st { bid_price = price; bid_qty = qty }
        else if price == st.bid_price
        then record st { bid_qty = qty }
        else st)
    else (if side == as_sign sell
        then (if (st.ask_price == pos 0) || ltb_ℤ price st.ask_price
            then record st { ask_price = price; ask_qty = qty }
            else if price == st.ask_price
            then record st { ask_qty = qty }
            else st)
        else st)

-- The price of a level goes with its quantity.
abbrev pub price_left : Price → Qty → Price
price_left price qty = if qty == 0 then pos 0 else price

abbrev pub on_cancel : TickerState → ℤ → Price → Qty → TickerState
on_cancel st side price qty =
    if (side == as_sign buy) && (price == st.bid_price)
    then record st {
      bid_qty = st.bid_qty - qty;
      bid_price = price_left st.bid_price (st.bid_qty - qty);
    }
    else (if (side == as_sign sell) && (price == st.ask_price)
        then record st {
          ask_qty = st.ask_qty - qty;
          ask_price = price_left st.ask_price (st.ask_qty - qty);
        }
        else st)

-- A trade leaves the price of the level that it takes from.
abbrev pub on_trade : TickerState → ℤ → Price → Qty → TickerState
on_trade st side price qty =
    if (side == as_sign buy) && (price == st.ask_price)
    then record st { ask_qty = st.ask_qty - qty }
    else (if (side == as_sign sell) && (price == st.bid_price)
        then record st { bid_qty = st.bid_qty - qty }
        else st)

abbrev pub on_kind : Option MarketUpdateType → TickerState → ℤ → Price → Qty → TickerState
on_kind (some MarketUpdateType.add) = on_add
on_kind (some MarketUpdateType.modify) = on_add
on_kind (some MarketUpdateType.snapshot) = on_add
on_kind (some MarketUpdateType.cancel) = on_cancel
on_kind (some MarketUpdateType.trade) = on_trade
on_kind (some MarketUpdateType.clear) = λ _ _ _ _. default_state
on_kind none = λ st _ _ _. st

-- The `match` of `update_ticker_state`.
unfoldable pub apply_update : TickerState → MarketUpdate → TickerState
apply_update st update = on_kind (update_type update) st update.side update.price update.qty

abbrev pub bid_shows : TickerState → Bool
bid_shows st = ltb_ℤ (pos 0) st.bid_price && ltb 0 st.bid_qty

abbrev pub ask_shows : TickerState → Bool
ask_shows st = ltb_ℤ (pos 0) st.ask_price && ltb 0 st.ask_qty

abbrev pub bid_message : TickerId → TickerState → ℕ → MarketUpdate
bid_message ticker_id st sequence =
    Update.create Update.snapshot ticker_id 0 (as_sign buy) st.bid_price st.bid_qty sequence

abbrev pub ask_message : TickerId → TickerState → ℕ → MarketUpdate
ask_message ticker_id st sequence =
    Update.create Update.snapshot ticker_id 0 (as_sign sell) st.ask_price st.ask_qty sequence

-- A message for each side that has a price and a quantity.
unfoldable pub snapshot_messages : TickerId → TickerState → ℕ → List MarketUpdate
snapshot_messages ticker_id st sequence =
    (if bid_shows st then bid_message ticker_id st sequence ∷ [] else [])
    ++ (if ask_shows st then ask_message ticker_id st sequence ∷ [] else [])
