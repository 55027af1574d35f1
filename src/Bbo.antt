-- ===== src/Bbo.antt =====
-- trading/src/market_data.rs: the best bid and offer of each ticker, as the receiver keeps them.
pub mod Stale
pub mod Poll
mod Tests
use rust_low_latency_trading.Prelude.{
  ℕ, ◌-◌, ◌+◌, Bool, true, false, ◌&&◌, ◌||◌, not, Option, none, some, List, [], ◌∷◌, if◌then◌else◌,
  ltb, leb,
}
use rust_low_latency_trading.Prelude.Int.{ℤ, pos, negsuc, ltb_ℤ}
use rust_low_latency_trading.Prelude.I64
use rust_low_latency_trading.Prelude.Map.{Map, lookup, insert, ◌==◌, ℕ_eq, ℤ_eq}
use rust_low_latency_trading.Types.{TickerId, Price, Qty, Side, buy, sell, as_sign, invalid_price}
use rust_low_latency_trading.Protocol.Update.{MarketUpdate, MarketUpdateType, update_type}

pub record Bbo : Type 0 where
  pub bid_price : Price
  pub bid_qty : Qty
  pub ask_price : Price
  pub ask_qty : Qty

abbrev pub new : Bbo
new = record { bid_price = invalid_price; bid_qty = 0; ask_price = invalid_price; ask_qty = 0 }

abbrev pub has_bid : Bbo → Bool
has_bid b = not (b.bid_price == invalid_price) && ltb 0 b.bid_qty

abbrev pub has_ask : Bbo → Bool
has_ask b = not (b.ask_price == invalid_price) && ltb 0 b.ask_qty

abbrev pub is_valid : Bbo → Bool
is_valid b = has_bid b && has_ask b

abbrev pub spread : Bbo → Option Price
spread b = if is_valid b then some (I64.sub b.ask_price b.bid_price) else none

abbrev pub mid_price : Bbo → Option Price
mid_price b =
    if is_valid b then some (I64.quotient (I64.add b.bid_price b.ask_price) (pos 2)) else none

-- An order that is added, or a level that is told anew.
abbrev pub on_add : Bbo → ℤ → Price → Qty → Bbo
on_add b side price qty =
    if side == as_sign buy
    then (if ltb_ℤ b.bid_price price || (b.bid_price == invalid_price)
        then record b { bid_price = price; bid_qty = qty }
        else if price == b.bid_price
        then record b { bid_qty = qty }
        else b)
    else (if side == as_sign sell
        then (if ltb_ℤ price b.ask_price || (b.ask_price == invalid_price)
            then record b { ask_price = price; ask_qty = qty }
            else if price == b.ask_price
            then record b { ask_qty = qty }
            else b)
        else b)

-- The quantity that a cancel leaves of the best level.
abbrev pub after_cancel : Qty → Qty → Qty
after_cancel qty level = if (qty == 0) || leb level qty then 0 else level - qty

abbrev pub on_cancel : Bbo → ℤ → Price → Qty → Bbo
on_cancel b side price qty =
    if (side == as_sign buy) && (price == b.bid_price)
    then record b { bid_qty = after_cancel qty b.bid_qty }
    else (if (side == as_sign sell) && (price == b.ask_price)
        then record b { ask_qty = after_cancel qty b.ask_qty }
        else b)

-- A buying trade takes from the ask, a selling one from the bid.
abbrev pub on_trade : Bbo → ℤ → Price → Qty → Bbo
on_trade b side price qty =
    if (side == as_sign buy) && (price == b.ask_price)
    then record b { ask_qty = b.ask_qty - qty }
    else (if (side == as_sign sell) && (price == b.bid_price)
        then record b { bid_qty = b.bid_qty - qty }
        else b)

-- The `match` on the kind of an update.
abbrev pub on_kind : MarketUpdateType → Bbo → ℤ → Price → Qty → Bbo
on_kind MarketUpdateType.add = on_add
on_kind MarketUpdateType.modify = on_add
on_kind MarketUpdateType.snapshot = on_add
on_kind MarketUpdateType.cancel = on_cancel
on_kind MarketUpdateType.trade = on_trade
on_kind MarketUpdateType.clear = λ _ _ _ _. new

abbrev pub or_new : Option Bbo → Bbo
or_new none = new
or_new (some b) = b

-- The receiver beside its socket, whose subscribers are called with what is told here.
pub record MarketDataReceiver : Type 0 where
  pub bbo : Map TickerId Bbo

-- `process_update`, with what every subscriber is called with.
unfoldable pub process_update :
    MarketDataReceiver → MarketUpdate → Option (TickerId × MarketUpdate × Bbo) × MarketDataReceiver
process_update r update = elim (update_type update) [
  | none ↦ (none, r)
  | some kind ↦
      let b =
        on_kind kind (or_new (lookup update.ticker_id r.bbo)) update.side update.price update.qty in
      (some (update.ticker_id, update, b), record r { bbo = insert update.ticker_id b r.bbo })
]

abbrev pub get_bbo : MarketDataReceiver → TickerId → Option Bbo
get_bbo r ticker_id = lookup ticker_id r.bbo
