-- ===== src/Taker/Interval.antt =====
-- trading/src/strategies/liquidity_taker.rs: the interval between orders, over whole runs.
use rust_low_latency_trading.Prelude.{
  ℕ, ◌+◌, ◌^◌, ◌≤◌, ◌<◌, ◌≡◌, ◌⊎◌, refl, sym, arith, inl, inr, zero, suc, Option, none, some, List,
  [], ◌∷◌, ◌++◌, subst, wrap64,
}
use rust_low_latency_trading.Prelude.Lists.{All}
use rust_low_latency_trading.Prelude.Int.{ℤ}
use rust_low_latency_trading.Prelude.Run.{Run, done, ◌>>=◌}
use rust_low_latency_trading.Types.{Price}
use rust_low_latency_trading.Trade.Actions.{StrategyAction, nothing, quote, take, cancel_all}
use rust_low_latency_trading.Float.{Float}
use rust_low_latency_trading.Features.{TickerFeatures}
use rust_low_latency_trading.Taker.{
  LiquidityTakerConfig, LiquidityTaker, record_order, on_features, on_fill, reset_cooldown,
  set_position, reset, activate, deactivate,
}
use rust_low_latency_trading.Taker.Pace.{IsPaced, IsCalm, record_order-IsPaced, on_fill-IsPaced}
use rust_low_latency_trading.Taker.Orders.{IsDecision, Allows, on_features-IsDecision}

module _ (f : Float) where
  -- What happens to a taker: features at a time, a fill, a new position, the end of a cooldown, a reset,
  -- and its start and stop.
  pub data Event : Type 0 where
    features : TickerFeatures f → ℕ → Price → Price → Event
    filled : Event
    position : ℤ → Event
    cooled_down restart started stopped : Event

  -- What is seen of a run: the time of each order, and each reset.
  pub data Mark : Type 0 where
    ordered : ℕ → Mark
    restarted : Mark

  abbrev pub order_time : StrategyAction → ℕ → List Mark
  order_time (take o) now = ordered now ∷ []
  order_time nothing now = []
  order_time (quote q) now = []
  order_time (cancel_all t) now = []

  unfoldable pub happens : Event → LiquidityTaker f → Run (List Mark × LiquidityTaker f)
  happens (features t now bid ask) k = do
    r ← on_features f k t now bid ask
    done (order_time (r.0) now, r.1)
  happens filled k = done ([], on_fill f k)
  happens (position p) k = done ([], set_position f k p)
  happens cooled_down k = done ([], reset_cooldown f k)
  happens restart k = done (restarted ∷ [], reset f k)
  happens started k = done ([], activate f k)
  happens stopped k = done ([], deactivate f k)

  unfoldable pub run : List Event → LiquidityTaker f → Run (List Mark × LiquidityTaker f)
  run [] k = done ([], k)
  run (e ∷ es) k = do
    first ← happens e k
    others ← run es (first.1)
    done (first.0 ++ others.0, others.1)

  -- Each order is `gap` after the one before at least, unless a reset came between them. The order
  -- before the first one is `last`, if there was any.
  abbrev pub Spaced : ℕ → Option ℕ → List Mark → Type 0
  Spaced gap last [] = Unit {0}
  Spaced gap none (ordered t ∷ ms) = Spaced gap (some t) ms
  Spaced gap (some last) (ordered t ∷ ms) = (last + gap ≤ t) × Spaced gap (some t) ms
  Spaced gap last (restarted ∷ ms) = Spaced gap none ms

  -- The time 0 stands for no order yet.
  abbrev pub last_of : ℕ → Option ℕ
  last_of zero = none
  last_of (suc n) = some (suc n)

  abbrev pub InTime : Event → Type 0
  InTime (features t now bid ask) = (0 < now) × (now < 2 ^ 63)
  InTime filled = Unit {0}
  InTime (position p) = Unit {0}
  InTime cooled_down = Unit {0}
  InTime restart = Unit {0}
  InTime started = Unit {0}
  InTime stopped = Unit {0}

  -- The part of the state that the events keep or bound.
  pub record IsTaker (c : LiquidityTakerConfig f) (k : LiquidityTaker f) : Type 0 where
    pub same : k.config ≡ c
    pub paced : IsPaced f k
    pub past : k.last_order_time_ns < 2 ^ 63

  ready_after :
      (k : LiquidityTaker f) (now : ℕ)
      → IsCalm f k.config
      → IsPaced f k
      → k.last_order_time_ns < 2 ^ 63
      → (k.last_order_time_ns ≡ 0) ⊎ (wrap64 (k.last_order_time_ns + k.effective_interval_ns) ≤ now)
      → (k.last_order_time_ns ≡ 0) ⊎ (k.last_order_time_ns + k.config.min_order_interval_ns ≤ now)
  ready_after k now c p past (inl first) = inl first
  ready_after k now c p past (inr over) = inr (omega (arith, c.short, p.low, p.high, over))

  -- An event makes no order and keeps the time of the last one, or is a reset, or makes one order after
  -- a gap.
  abbrev After : LiquidityTakerConfig f → LiquidityTaker f → List Mark → LiquidityTaker f → Type 0
  After c k ms k' =
      ((ms ≡ []) × (k'.last_order_time_ns ≡ k.last_order_time_ns))
      ⊎ ((ms ≡ restarted ∷ []) × (k'.last_order_time_ns ≡ 0))
      ⊎ ((t : ℕ) × (ms ≡ ordered t ∷ [])
          × (0 < t)
          × ((k.last_order_time_ns ≡ 0) ⊎ (k.last_order_time_ns + c.min_order_interval_ns ≤ t))
          × (k'.last_order_time_ns ≡ t))

  recorded :
      (c : LiquidityTakerConfig f) (k : LiquidityTaker f) (now : ℕ)
      → IsCalm f c
      → now < 2 ^ 63
      → IsTaker c k
      → IsTaker c (record_order f k now)
  unfolding record_order
  recorded c k now calm soon h =
      let calm' : IsCalm f k.config = subst (IsCalm f) (sym h.same) calm in
      record { same = h.same; paced = record_order-IsPaced f k now calm' h.paced; past = soon }

  decided :
      (c : LiquidityTakerConfig f) (k : LiquidityTaker f) (t : TickerFeatures f) (now : ℕ)
      (action : StrategyAction) (k' : LiquidityTaker f)
      → IsCalm f c
      → (0 < now) × (now < 2 ^ 63)
      → IsTaker c k
      → IsDecision f k t.trade_signal now action k'
      → Allows f k t now action
      → IsTaker c k' × After c k (order_time action now) k'
  unfolding record_order
  decided c k t now nothing k' calm soon h d a = rw d (h, inl (refl, refl))
  decided c k t now (take o) k' calm soon h d a =
      let calm' : IsCalm f k.config = subst (IsCalm f) (sym h.same) calm in
      let ready = ready_after k now calm' h.paced h.past (a.3) in
      let gap : (k.last_order_time_ns ≡ 0)
          ⊎ (k.last_order_time_ns + c.min_order_interval_ns ≤ now) =
        subst
          (λ (x : LiquidityTakerConfig f).
            (k.last_order_time_ns ≡ 0) ⊎ (k.last_order_time_ns + x.min_order_interval_ns ≤ now))
          h.same ready in
      rw (d.0) (recorded c k now calm (soon.1) h, inr (inr (now, refl, soon.0, gap, refl)))
  decided c k t now (quote q) k' calm soon h d a = absurd d
  decided c k t now (cancel_all i) k' calm soon h d a = absurd d

  happens_lem :
      (c : LiquidityTakerConfig f) (e : Event) (k : LiquidityTaker f)
      → IsCalm f c
      → 1 ≤ c.max_qty
      → InTime e
      → IsTaker c k
      → (r : List Mark × LiquidityTaker f) × (happens e k ≡ done r)
        × IsTaker c r.1
        × After c k r.0 r.1
  unfolding happens on_fill
  happens_lem c (features t now bid ask) k calm some_qty soon h =
      let d =
        on_features-IsDecision f k t now bid ask
          (subst (λ x. 1 ≤ x.max_qty) (sym h.same) some_qty) in
      let kept = decided c k t now (d.0) (d.1) calm soon h (d.3) (d.4) in
      ((order_time (d.0) now, d.1), rw (happens, d.2) refl, kept.0, kept.1)
  happens_lem c filled k calm some_qty soon h = (
    ([], on_fill f k),
    refl,
    record { same = h.same; paced = on_fill-IsPaced f k h.paced; past = h.past },
    inl (refl, refl),
  )
  happens_lem c (position p) k calm some_qty soon h = (
    ([], set_position f k p),
    refl,
    record {
      same = h.same;
      paced = record { low = h.paced.low; high = h.paced.high };
      past = h.past;
    },
    inl (refl, refl),
  )
  happens_lem c restart k calm some_qty soon h = (
    (restarted ∷ [], reset f k),
    refl,
    record {
      same = h.same;
      paced = record { low = omega arith; high = omega arith };
      past = omega arith;
    },
    inr (inl (refl, refl)),
  )
  happens_lem c started k calm some_qty soon h = (
    ([], activate f k),
    refl,
    record {
      same = h.same;
      paced = record { low = h.paced.low; high = h.paced.high };
      past = h.past;
    },
    inl (refl, refl),
  )
  happens_lem c stopped k calm some_qty soon h = (
    ([], deactivate f k),
    refl,
    record {
      same = h.same;
      paced = record { low = h.paced.low; high = h.paced.high };
      past = h.past;
    },
    inl (refl, refl),
  )
  happens_lem c cooled_down k calm some_qty soon h = (
    ([], reset_cooldown f k),
    refl,
    record {
      same = h.same;
      paced = record { low = omega arith; high = omega arith };
      past = h.past;
    },
    inl (refl, refl),
  )

  restart_again :
      (gap last : ℕ) (later : List Mark)
      → Spaced gap none later
      → Spaced gap (last_of last) (restarted ∷ later)
  restart_again gap zero later h = h
  restart_again gap (suc n) later h = h

  order_again :
      (gap last t : ℕ) (later : List Mark)
      → 0 < t
      → (last ≡ 0) ⊎ (last + gap ≤ t)
      → Spaced gap (last_of t) later
      → Spaced gap (last_of last) (ordered t ∷ later)
  order_again gap last zero later some_time rule h = absurd (omega arith)
  order_again gap zero (suc t) later some_time rule h = h
  order_again gap (suc n) (suc t) later some_time rule h = (ground arith, h)

  Spaced-append :
      (c : LiquidityTakerConfig f) (k k' : LiquidityTaker f) (ms later : List Mark)
      → After c k ms k'
      → Spaced c.min_order_interval_ns (last_of k'.last_order_time_ns) later
      → Spaced c.min_order_interval_ns (last_of k.last_order_time_ns) (ms ++ later)
  Spaced-append c k k' ms later (inl (none_yet, same)) h =
      rw none_yet (subst (λ n. Spaced c.min_order_interval_ns (last_of n) later) same h)
  Spaced-append c k k' ms later (inr (inl (one, same))) h = rw one (
      restart_again c.min_order_interval_ns k.last_order_time_ns later
        (subst (λ n. Spaced c.min_order_interval_ns (last_of n) later) same h))
  Spaced-append c k k' ms later (inr (inr (t, one, some_time, gap, same))) h = rw one (
      order_again c.min_order_interval_ns k.last_order_time_ns t later some_time gap
        (subst (λ n. Spaced c.min_order_interval_ns (last_of n) later) same h))

  -- Whatever happens to a taker whose greatest quantity is at least 1, be it features, fills, new
  -- positions, resets of the cooldown or of the whole, or its start and stop: it never fails, two orders
  -- are at least the least interval apart unless it was reset between them, and its interval stays from
  -- the least one up to ten times that. Times are to be above 0 and below 2^63, ten times the least
  -- interval is to be below 2^53, and the cooldown factor is to make no interval shorter.
  pub run-Spaced :
      (c : LiquidityTakerConfig f) (es : List Event) (k : LiquidityTaker f)
      → IsCalm f c
      → 1 ≤ c.max_qty
      → All InTime es
      → IsTaker c k
      → (r : List Mark × LiquidityTaker f) × (run es k ≡ done r)
        × Spaced c.min_order_interval_ns (last_of k.last_order_time_ns) r.0
        × IsTaker c r.1
  unfolding run
  run-Spaced c [] k calm some_qty soon h = (([], k), refl, tt, h)
  run-Spaced c (e ∷ es) k calm some_qty (soon, later) h =
      let first = happens_lem c e k calm some_qty soon h in
      let others = run-Spaced c es (first.0.1) calm some_qty later (first.2) in
      (
        (first.0.0 ++ others.0.0, others.0.1),
        rw (run, first.1, others.1) refl,
        Spaced-append c k (first.0.1) (first.0.0) (others.0.0) (first.3) (others.2),
        others.3,
      )
