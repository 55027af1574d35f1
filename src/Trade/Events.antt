-- ===== src/Trade/Events.antt =====
-- trading/src/trade_engine.rs: a cycle handles a bounded number of events, responses first.
use rust_low_latency_trading.Prelude.{
  ℕ, zero, suc, ◌+◌, ◌-◌, ◌≤◌, ◌≡◌, ◌⊎◌, refl, ap, arith, inl, inr, true, List, [], ◌∷◌, ◌++◌,
  wrap64,
}
use rust_low_latency_trading.Prelude.Run.{done}
use rust_low_latency_trading.Protocol.Response.{ClientResponse}
use rust_low_latency_trading.Protocol.Update.{MarketUpdate}
use rust_low_latency_trading.Trade.{TradeEngine, on_response, on_market_update}
use rust_low_latency_trading.Trade.Cycle.{take_responses, take_updates, run_cycle}

abbrev pub length {ℓ} : {A : Type ℓ} → List A → ℕ
length [] = 0
length (x ∷ xs) = suc (length xs)

module _ {S : Type 0} where
  -- The engine after some responses, one after the other, none of which makes it fail.
  abbrev pub Processes : TradeEngine S → List ClientResponse → TradeEngine S → Type 0
  Processes e [] last = e ≡ last
  Processes e (r ∷ rs) last = (f : TradeEngine S) × (on_response e r ≡ done f) × Processes f rs last

  -- The engine after some updates.
  abbrev pub after_updates : TradeEngine S → List MarketUpdate → TradeEngine S
  after_updates e [] = e
  after_updates e (u ∷ us) = after_updates (on_market_update e u) us

  -- The responses that are taken are the first ones that wait, as many as the limit allows.
  pub record Takes (max : ℕ) (e : TradeEngine S) (rs : List ClientResponse)
      (r : ℕ × TradeEngine S × List ClientResponse) : Type 0 where
    pub taken : List ClientResponse
    pub split : rs ≡ taken ++ r.2
    pub processed : Processes e taken (r.1)
    pub counted : r.0 ≡ length taken
    pub few : r.0 ≤ max
    pub all_or_full : (r.2 ≡ []) ⊎ (r.0 ≡ max)

  take_responses_lem :
      (max : ℕ) (e last : TradeEngine S) (rs : List ClientResponse)
      → Processes e rs last
      → (r : ℕ × TradeEngine S × List ClientResponse) × (take_responses max e rs ≡ done r)
        × Takes max e rs r
  unfolding take_responses
  take_responses_lem zero e last rs all = (
    (0, e, rs),
    refl,
    record {
      taken = [];
      split = refl;
      processed = refl;
      counted = refl;
      few = omega arith;
      all_or_full = inr refl;
    },
  )
  take_responses_lem (suc max) e last [] all = (
    (0, e, []),
    refl,
    record {
      taken = [];
      split = refl;
      processed = refl;
      counted = refl;
      few = omega arith;
      all_or_full = inl refl;
    },
  )
  take_responses_lem (suc max) e last (r ∷ rs) (f, made, all) =
      let (s, ran, others) = take_responses_lem max f last rs all in
      (
        (s.0 + 1, s.1, s.2),
        rw (made, ran) refl,
        record {
          taken = r ∷ others.taken;
          split = ap (λ xs. r ∷ xs) others.split;
          processed = (f, made, others.processed);
          counted = omega (arith, others.counted);
          few = omega (arith, others.few);
          all_or_full = ground (arith, others.all_or_full);
        },
      )

  -- The same of the updates.
  pub record Hears (max : ℕ) (e : TradeEngine S) (us : List MarketUpdate)
      (r : ℕ × TradeEngine S × List MarketUpdate) : Type 0 where
    pub heard : List MarketUpdate
    pub parts : us ≡ heard ++ r.2
    pub updated : r.1 ≡ after_updates e heard
    pub number : r.0 ≡ length heard
    pub at_most : r.0 ≤ max
    pub to_the_end : (r.2 ≡ []) ⊎ (r.0 ≡ max)

  take_updates_lem :
      (max : ℕ) (e : TradeEngine S) (us : List MarketUpdate)
      → Hears max e us (take_updates max e us)
  unfolding take_updates
  take_updates_lem zero e us = record {
    heard = [];
    parts = refl;
    updated = refl;
    number = refl;
    at_most = omega arith;
    to_the_end = inr refl;
  }
  take_updates_lem (suc max) e [] = record {
    heard = [];
    parts = refl;
    updated = refl;
    number = refl;
    at_most = omega arith;
    to_the_end = inl refl;
  }
  take_updates_lem (suc max) e (u ∷ us) =
      let others = take_updates_lem max (on_market_update e u) us in
      record {
        heard = u ∷ others.heard;
        parts = ap (λ xs. u ∷ xs) others.parts;
        updated = others.updated;
        number = omega (arith, others.number);
        at_most = omega (arith, others.at_most);
        to_the_end = ground (arith, others.to_the_end);
      }

  -- The engine with one cycle more.
  abbrev pub cycled : TradeEngine S → TradeEngine S
  cycled e = record e {
    stats = record (e.stats) { total_cycles = wrap64 (e.stats.total_cycles + 1) };
  }

  run_cycle_runs :
      (e : TradeEngine S) (rs : List ClientResponse) (us : List MarketUpdate)
      (a : ℕ × TradeEngine S × List ClientResponse)
      → take_responses e.config.max_events_per_cycle e rs ≡ done a
      → e.running ≡ true
      → let b = take_updates (e.config.max_events_per_cycle - a.0) a.1 us in
        run_cycle e rs us ≡ done (a.0 + b.0, cycled (b.1), a.2, b.2)
  unfolding run_cycle
  run_cycle_runs e rs us a ran on = rw (run_cycle, ran, on) refl

  -- A cycle of a running engine, over responses that it can process one after the other without a
  -- panic, returns. It processes the first responses that wait and then the first updates, in their
  -- order: as many responses as the configured number of events allows, and as many updates as are left
  -- of that number. The count that it returns is the number of both, what is left of each queue is the
  -- rest of it, and the engine is the one after just these events, with one cycle more.
  pub run_cycle_lem :
      (e last : TradeEngine S) (rs : List ClientResponse) (us : List MarketUpdate)
      → e.running ≡ true
      → Processes e rs last
      → let max = e.config.max_events_per_cycle in
        (a : ℕ × TradeEngine S × List ClientResponse) × (b : ℕ × TradeEngine S × List MarketUpdate)
        × (run_cycle e rs us ≡ done (a.0 + b.0, cycled b.1, a.2, b.2))
        × Takes max e rs a
        × Hears (max - a.0) a.1 us b
  unfolding run_cycle
  run_cycle_lem e last rs us on all =
      let max = e.config.max_events_per_cycle in
      let (a, ran, takes) = take_responses_lem max e last rs all in
      let b = take_updates (max - a.0) (a.1) us in
      (a, b, run_cycle_runs e rs us a ran on, takes, take_updates_lem (max - a.0) (a.1) us)
