-- ===== src/Position/Keeper/Total.antt =====
-- trading/src/position.rs: the cached total is the sum over all positions, and a call for a ticker
-- leaves the other tickers alone.
use rust_low_latency_trading.Prelude.{
  ◌+◌, ◌^◌, ◌<◌, ◌≡◌, refl, arith, none, some, List, [], ◌∷◌, sym, ◌∙◌, ap, Bool-cases,
  Option-cases, inl, inr, false, ==_iff,
}
use mathlib.Core.Option.{none-ne-some}
use rust_low_latency_trading.Prelude.Int.{ℤ, pos, ◌+ℤ◌, +ℤ_comm}
use rust_low_latency_trading.Prelude.I64
use rust_low_latency_trading.Prelude.I64.{wrap, wrap-add_wrap}
use rust_low_latency_trading.Prelude.Run.{done}
use rust_low_latency_trading.Prelude.Map.{lookup, values, lookup-insert, ◌==◌, ℕ_eq}
use rust_low_latency_trading.Types.{TickerId, Price, Qty, Side}
use rust_low_latency_trading.Position
use rust_low_latency_trading.Position.{Position}
use rust_low_latency_trading.Position.Fills.{magnitude, exact, on_fill_lem}
use rust_low_latency_trading.Position.Keeper.{
  PositionKeeper, new, or_new, sum, all_positions, recalculate_total_pnl, put_position, on_fill,
  update_market_price,
}

-- The sum of the profits as integers, which no order of the map and no wrap in between changes.
abbrev pub exact_sum : List Position → ℤ
exact_sum [] = pos 0
exact_sum (p ∷ ps) = p.realized_pnl +ℤ p.unrealized_pnl +ℤ exact_sum ps

pub record IsKeeper (k : PositionKeeper) : Type 0 where
  pub total : k.total_pnl ≡ wrap (exact_sum (all_positions k))
  pub tickers : (t : TickerId) (p : Position) → lookup t k.positions ≡ some p → p.ticker_id ≡ t

sum_lem : (ps : List Position) → sum ps ≡ wrap (exact_sum ps)
unfolding sum I64.wrap
sum_lem [] = refl
sum_lem (p ∷ ps) =
    let gain = p.realized_pnl +ℤ p.unrealized_pnl in
    ap (λ t. wrap (wrap gain +ℤ t)) (sum_lem ps)
    ∙ wrap-add_wrap (wrap gain) (exact_sum ps)
    ∙ ap wrap (+ℤ_comm (wrap gain) (exact_sum ps))
    ∙ wrap-add_wrap (exact_sum ps) gain
    ∙ ap wrap (+ℤ_comm (exact_sum ps) gain)

put_lem :
    (k : PositionKeeper) (t : TickerId) (p : Position)
    → IsKeeper k
    → p.ticker_id ≡ t
    → IsKeeper (recalculate_total_pnl (put_position k t p))
unfolding sum all_positions
put_lem k t p v ticker = record {
  total = sum_lem (all_positions (put_position k t p));
  tickers = λ u q e. elim (Bool-cases (t == u)) [
    | inl hit ↦
        let same : p ≡ q = ground (arith, lookup-insert t u p k.positions, e, hit) in
        sym (ap (λ (r : Position). r.ticker_id) same) ∙ ticker ∙ (==_iff t u).0 hit
    | inr miss ↦ v.tickers u q (ground (arith, lookup-insert t u p k.positions, e, miss))
  ];
}

or_new_ticker :
    (k : PositionKeeper) (t : TickerId)
    → IsKeeper k
    → (or_new t (lookup t k.positions)).ticker_id ≡ t
or_new_ticker k t v = elim (Option-cases (lookup t k.positions)) [
  | inl absent ↦ rw absent refl
  | inr (p, found) ↦ rw found (v.tickers t p found)
]

pub new-IsKeeper : IsKeeper new
unfolding all_positions values I64.wrap lookup
new-IsKeeper = record { total = refl; tickers = λ t p e. absurd (cc) }

-- Beside a ticker, both keepers have the same positions.
abbrev pub SameBeside : TickerId → PositionKeeper → PositionKeeper → Type 0
SameBeside t k k' = (u : TickerId) → (t == u) ≡ false → lookup u k'.positions ≡ lookup u k.positions

-- On a keeper whose total is the sum and whose positions stand under their tickers, a fill that
-- keeps the position in range is booked without a panic: both hold again, the position of the
-- ticker, new if there was none, moves by exactly the signed quantity, and the positions of the
-- other tickers do not change.
pub on_fill_keeps_total :
    (k : PositionKeeper) (t : TickerId) (side : Side) (qty : Qty) (price : Price)
    → IsKeeper k
    → magnitude ((or_new t (lookup t k.positions)).position) + qty < 2 ^ 63
    → (k' : PositionKeeper) × (q : Position) × (on_fill k t side qty price ≡ done k')
      × IsKeeper k'
      × (lookup t k'.positions ≡ some q)
      × (q.position ≡ (or_new t (lookup t k.positions)).position +ℤ exact side qty)
      × SameBeside t k k'
unfolding on_fill
on_fill_keeps_total k t side qty price v range =
    let (q, made, (net, _, _, _, ticker)) =
      on_fill_lem (or_new t (lookup t k.positions)) side qty price range in
    (
      recalculate_total_pnl (put_position k t q),
      q,
      rw made refl,
      put_lem k t q v (ticker ∙ or_new_ticker k t v),
      lookup-insert t t q k.positions ∙ ground arith,
      net,
      λ u beside. lookup-insert t u q k.positions ∙ rw beside refl,
    )

-- A fill leaves the pending quantities of every ticker alone.
pub on_fill_pending :
    (k : PositionKeeper) (t : TickerId) (side : Side) (qty : Qty) (price : Price)
    → magnitude ((or_new t (lookup t k.positions)).position) + qty < 2 ^ 63
    → (k' : PositionKeeper) × (on_fill k t side qty price ≡ done k')
      × ((u : TickerId)
          → ((or_new u (lookup u k'.positions)).open_buy_qty
              ≡ (or_new u (lookup u k.positions)).open_buy_qty)
            × ((or_new u (lookup u k'.positions)).open_sell_qty
                ≡ (or_new u (lookup u k.positions)).open_sell_qty))
unfolding on_fill
on_fill_pending k t side qty price range =
    let (q, made, (_, _, buys, sells, _)) =
      on_fill_lem (or_new t (lookup t k.positions)) side qty price range in
    (
      recalculate_total_pnl (put_position k t q),
      rw made refl,
      λ u. elim (Bool-cases (t == u)) [
        | inl hit ↦
            let same = (==_iff t u).0 hit in
            rw (lookup-insert t u q k.positions, hit)
              (
                buys ∙ ap (λ w. (or_new w (lookup w k.positions)).open_buy_qty) same,
                sells ∙ ap (λ w. (or_new w (lookup w k.positions)).open_sell_qty) same,
              )
        | inr miss ↦ rw (lookup-insert t u q k.positions, miss) (refl, refl)
      ],
    )

-- On such a keeper, `update_market_price` keeps both, adds no ticker, and changes only the position
-- of its ticker.
pub update_market_price_keeps_total :
    (k : PositionKeeper) (t : TickerId) (price : Price)
    → IsKeeper k
    → IsKeeper (update_market_price k t price)
      × SameBeside t k (update_market_price k t price)
      × (lookup t k.positions ≡ none → update_market_price k t price ≡ k)
unfolding update_market_price
update_market_price_keeps_total k t price v = elim (Option-cases (lookup t k.positions)) [
  | inl absent ↦ rw (absent, update_market_price) (v, (λ u beside. refl), λ e. refl)
  | inr (p, found) ↦
      rw (found, update_market_price)
        (
          put_lem k t (Position.update_market_price p price) v (v.tickers t p found),
          (λ u beside.
              lookup-insert t u (Position.update_market_price p price) k.positions
              ∙ rw beside refl),
          λ e. absurd (none-ne-some p (sym e)),
        )
]
