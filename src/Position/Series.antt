-- ===== src/Position/Series.antt =====
-- trading/src/position.rs: the net position after a series of fills.
use rust_low_latency_trading.Prelude.{
  ℕ, ◌+◌, ◌^◌, ◌<◌, ◌≤◌, ◌≡◌, refl, arith, List, [], ◌∷◌, ◌∙◌, ap, ap₂,
}
use rust_low_latency_trading.Prelude.Int.{pos, ◌+ℤ◌, ◌-ℤ◌}
use rust_low_latency_trading.Prelude.Run.{Run, done, ◌>>=◌}
use rust_low_latency_trading.Types.{TickerId, Price, Qty, Side, buy, sell}
use rust_low_latency_trading.Position.{Position, new, on_fill}
use rust_low_latency_trading.Position.Fills.{magnitude, exact, on_fill_lem}

pub record Fill : Type 0 where
  pub side : Side
  pub qty : Qty
  pub price : Price

unfoldable pub fill_all : Position → List Fill → Run Position
fill_all p [] = done p
fill_all p (f ∷ fills) = on_fill p f.side f.qty f.price >>= λ q. fill_all q fills

-- The quantity that the fills of a side add up to.
abbrev pub counts_for : Side → Side → Qty → Qty
counts_for buy buy qty = qty
counts_for sell sell qty = qty
counts_for _ _ qty = 0

abbrev pub filled : Side → List Fill → ℕ
filled side [] = 0
filled side (f ∷ fills) = counts_for side f.side f.qty + filled side fills

net_step :
    (b s : ℕ) (side : Side) (qty : Qty)
    → pos b -ℤ pos s +ℤ exact side qty
      ≡ pos (b + counts_for buy side qty) -ℤ pos (s + counts_for sell side qty)
unfolding ◌+ℤ◌ ◌-ℤ◌
net_step b s buy qty = ground arith
net_step b s sell qty = ground arith

counts_sum : (side : Side) (qty : Qty) → counts_for buy side qty + counts_for sell side qty ≡ qty
counts_sum buy qty = omega arith
counts_sum sell qty = omega arith

net_small : (b s : ℕ) → magnitude (pos b -ℤ pos s) ≤ b + s
unfolding magnitude ◌-ℤ◌
net_small b s = ground arith

-- What is known after the quantities `b` and `s` have been bought and sold.
abbrev Traded : ℕ → ℕ → Position → Type 0
Traded b s p =
    (p.position ≡ pos b -ℤ pos s)
    × (p.volume_traded ≡ b + s)
    × (p.open_buy_qty ≡ 0)
    × (p.open_sell_qty ≡ 0)

fill_all_from :
    (p : Position) (fills : List Fill) (b s : ℕ)
    → Traded b s p
    → b + s + (filled buy fills + filled sell fills) < 2 ^ 63
    → (q : Position) × (fill_all p fills ≡ done q)
      × Traded (b + filled buy fills) (s + filled sell fills) q
unfolding fill_all
fill_all_from p [] b s (at, volume, buys, sells) small = (
  p,
  refl,
  (
    at ∙ ap₂ (λ x y. pos x -ℤ pos y) (omega arith) (omega arith),
    omega (arith, volume),
    buys,
    sells,
  ),
)
fill_all_from p (f ∷ fills) b s (at, volume, buys, sells) small =
    let b' = b + counts_for buy f.side f.qty in
    let s' = s + counts_for sell f.side f.qty in
    let near : magnitude p.position + f.qty < 2 ^ 63 =
      omega (arith, ap magnitude at, net_small b s, counts_sum f.side f.qty, small) in
    let (q, made, (net, traded, b_kept, s_kept, _)) = on_fill_lem p f.side f.qty f.price near in
    let (r, rest, (net', traded', b_last, s_last)) =
      fill_all_from q fills b' s'
        (
          net ∙ ap (λ a. a +ℤ exact f.side f.qty) at ∙ net_step b s f.side f.qty,
          omega (arith, traded, volume, counts_sum f.side f.qty, small),
          b_kept ∙ buys,
          s_kept ∙ sells,
        )
        (omega (arith, small)) in
    (
      r,
      rw made rest,
      (
        net' ∙ ap₂ (λ x y. pos x -ℤ pos y) (omega arith) (omega arith),
        omega (arith, traded'),
        b_last,
        s_last,
      ),
    )

-- From a new position, a series of fills whose quantities together stay below 2^63 is booked
-- without a panic, whatever the prices: the net position is what was bought less what was sold, the
-- volume is the sum of both, and no pending quantity appears.
pub fill_all_lem :
    (t : TickerId) (fills : List Fill)
    → filled buy fills + filled sell fills < 2 ^ 63
    → (q : Position) × (fill_all (new t) fills ≡ done q)
      × (q.position ≡ pos (filled buy fills) -ℤ pos (filled sell fills))
      × (q.volume_traded ≡ filled buy fills + filled sell fills)
      × (q.open_buy_qty ≡ 0)
      × (q.open_sell_qty ≡ 0)
unfolding ◌-ℤ◌
fill_all_lem t fills small =
    let (q, made, (net, traded, buys, sells)) =
      fill_all_from (new t) fills 0 0 (refl, refl, refl, refl) (omega (arith, small)) in
    (
      q,
      made,
      net ∙ ap₂ (λ x y. pos x -ℤ pos y) (omega arith) (omega arith),
      omega (arith, traded),
      buys,
      sells,
    )
