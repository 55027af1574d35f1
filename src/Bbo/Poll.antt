-- ===== src/Bbo/Poll.antt =====
-- trading/src/market_data.rs: the reads of the receiver. What the socket gives is an argument.
use rust_low_latency_trading.Prelude.{
  ℕ, ◌+◌, Option, none, some, List, [], ◌∷◌, if◌then◌else◌, leb, wrap64,
}
use rust_low_latency_trading.Prelude.Lists.{length, take}
use rust_low_latency_trading.Prelude.Map.{lookup, insert, ℕ_eq}
use rust_low_latency_trading.Types.{TickerId}
use rust_low_latency_trading.Protocol.Update.{MarketUpdate}
use rust_low_latency_trading.Net.{Io, ok, err, Bytes}
use rust_low_latency_trading.Net.Wire.{Wire}
use rust_low_latency_trading.Bbo.{MarketDataReceiver, or_new, process_update}

module _ {Fits : MarketUpdate → Type 0} {size : ℕ} (w : Wire MarketUpdate Fits size) where
  -- Bytes behind the message are ignored, and so is a datagram that is too short, and an error.
  abbrev pub poll : Io (Option Bytes) → Option MarketUpdate
  poll (ok (some bytes)) = if leb size (length bytes) then w.from_bytes (take size bytes) else none
  poll (ok none) = none
  poll (err e) = none

  -- The loop ends with the first poll that gives no update.
  unfoldable pub poll_and_process :
      MarketDataReceiver → List (Io (Option Bytes)) → ℕ × MarketDataReceiver
  poll_and_process r [] = (0, r)
  poll_and_process r (read ∷ reads) = elim (poll read) [
    | none ↦ (0, r)
    | some update ↦
        let others = poll_and_process (process_update r update).1 reads in
        (wrap64 (others.0 + 1), others.1)
  ]

-- An entry for each ticker that has none.
unfoldable pub reserve_tickers : MarketDataReceiver → List TickerId → MarketDataReceiver
reserve_tickers r [] = r
reserve_tickers r (ticker_id ∷ tickers) =
    reserve_tickers (record r { bbo = insert ticker_id (or_new (lookup ticker_id r.bbo)) r.bbo })
      tickers
