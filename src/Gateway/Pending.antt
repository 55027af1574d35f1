-- ===== src/Gateway/Pending.antt =====
-- trading/src/order_gateway.rs: the table of the orders that are pending.
use rust_low_latency_trading.Prelude.{
  ℕ, suc, ◌+◌, ◌^◌, ◌<◌, ◌≡◌, refl, ap, ◌∙◌, arith, inl, inr, Bool, true, false, Option, none, some,
  List, [], ◌∷◌, ◌++◌, ◌&&◌, if◌then◌else◌, Bool-cases, Option-cases, subst₂, leb,
}
use rust_low_latency_trading.Prelude.Lists.{length, take}
use rust_low_latency_trading.Prelude.Map.{Map, lookup, ◌==◌, ℕ_eq, lookup-insert, lookup-remove}
use rust_low_latency_trading.Types.{
  ClientId, OrderId, TickerId, Price, Qty, Side, buy, sell, as_sign,
}
use rust_low_latency_trading.Protocol.Request.{ClientRequest}
use rust_low_latency_trading.Prelude.Int.{pos, negsuc}
use rust_low_latency_trading.Protocol.Response.{ClientResponse, ClientResponseType, response_type}
use rust_low_latency_trading.Net.{Io, ok, err, Bytes}
use rust_low_latency_trading.Net.Wire.{Wire}
use rust_low_latency_trading.Gateway.{
  PendingOrder, OrderGateway, settle, send_new_order, take_response, poll,
}

-- Whether a response ends its order, by the words of the source: a cancel, a refusal of a cancel, an
-- invalid request, or a fill that leaves nothing.
abbrev pub ends : Option ClientResponseType → ℕ → Bool
ends none left = false
ends (some ClientResponseType.canceled) left = true
ends (some ClientResponseType.cancel_rejected) left = true
ends (some ClientResponseType.invalid_request) left = true
ends (some ClientResponseType.filled) left = left == 0
ends (some ClientResponseType.accepted) left = false

lookup-settle :
    (kind : Option ClientResponseType) (r : ClientResponse) (pending : Map OrderId PendingOrder)
    (id : OrderId)
    → lookup id (settle kind r pending)
      ≡ (if ends kind r.leaves_qty && (r.client_order_id == id) then none else lookup id pending)
lookup-settle none r pending id = refl
lookup-settle (some ClientResponseType.canceled) r pending id =
    lookup-remove r.client_order_id id pending ∙ ground arith
lookup-settle (some ClientResponseType.cancel_rejected) r pending id =
    lookup-remove r.client_order_id id pending ∙ ground arith
lookup-settle (some ClientResponseType.invalid_request) r pending id =
    lookup-remove r.client_order_id id pending ∙ ground arith
lookup-settle (some ClientResponseType.filled) r pending id =
    ground (arith, lookup-remove r.client_order_id id pending)
lookup-settle (some ClientResponseType.accepted) r pending id = refl

-- Whether the response that a poll returns, if any, ends the order.
abbrev ended_by : Option ClientResponse → OrderId → Bool
ended_by none id = false
ended_by (some r) id = ends (response_type r) r.leaves_qty && (r.client_order_id == id)

-- What a program does with its gateway, and what it sees of that.
pub record Order : Type 0 where
  pub ticker_id : TickerId
  pub side : Side
  pub price : Price
  pub qty : Qty

pub data Call : Type 0 where
  sends : ℕ → Order → Call
  polls : Io (Option Bytes) → Call

-- Of a send: its time and order, and the identifier and the message that the gateway made of it.
pub data Seen : Type 0 where
  placed : ℕ → Order → OrderId → ClientRequest → Seen
  answered : Option ClientResponse → Seen

-- An order as it is kept, under the identifier that its send returned.
abbrev pub tracked : OrderId → ℕ → Order → PendingOrder
tracked id now o = record {
  order_id = id;
  ticker_id = o.ticker_id;
  side = o.side;
  price = o.price;
  qty = o.qty;
  sent_time = now;
}

-- What became of an order, by what was seen: it is pending from its send until a response ends it.
abbrev pub fate : OrderId → Option PendingOrder → List Seen → Option PendingOrder
fate id now [] = now
fate id now (placed at o k m ∷ seen) = fate id (if k == id then some (tracked k at o) else now) seen
fate id now (answered r ∷ seen) = fate id (if ended_by r id then none else now) seen

-- The message asks for the order, as a new one (1, by the protocol) of the client, under its identifier;
-- a buy has the side 1 and a sell the side -1.
pub record AsksFor (client : ClientId) (o : Order) (id : OrderId) (m : ClientRequest) : Type 0 where
  pub asks_new : m.msg_type ≡ 1
  pub by_client : m.client_id ≡ client
  pub of_ticker : m.ticker_id ≡ o.ticker_id
  pub under_id : m.order_id ≡ id
  pub on_side : m.side ≡ (elim o.side [ buy ↦ pos 1 | sell ↦ negsuc 0 ])
  pub at_price : m.price ≡ o.price
  pub of_qty : m.qty ≡ o.qty

-- The identifiers of the orders that were placed count on from `n`, and each message asks for its order.
abbrev pub PlacedFrom : ClientId → ℕ → List Seen → Type 0
PlacedFrom client n [] = Unit
PlacedFrom client n (placed at o k m ∷ seen) =
    (k ≡ n) × AsksFor client o k m × PlacedFrom client (n + 1) seen
PlacedFrom client n (answered r ∷ seen) = PlacedFrom client n seen

side_of_order : (side : Side) → as_sign side ≡ (elim side [ buy ↦ pos 1 | sell ↦ negsuc 0 ])
side_of_order buy = refl
side_of_order sell = refl

-- A send stores its order under the next identifier, which it returns, and asks for the order.
send_tracks :
    (g : OrderGateway) (now : ℕ) (o : Order) (id : OrderId)
    → g.next_order_id + 1 < 2 ^ 64
    → let s = send_new_order g now o.ticker_id o.side o.price o.qty in
      (lookup id s.2.pending_orders
        ≡ (if s.0 == id then some (tracked (s.0) now o) else lookup id g.pending_orders))
      × (s.2.next_order_id ≡ g.next_order_id + 1)
      × (s.0 ≡ g.next_order_id)
      × AsksFor g.client_id o (s.0) (s.1)
      × (s.2.client_id ≡ g.client_id)
unfolding send_new_order
send_tracks g now o id room = (
  lookup-insert g.next_order_id id (tracked g.next_order_id now o) g.pending_orders,
  omega arith,
  refl,
  record {
    asks_new = refl;
    by_client = refl;
    of_ticker = refl;
    under_id = refl;
    on_side = side_of_order o.side;
    at_price = refl;
    of_qty = refl;
  },
  refl,
)

module _ {Fits : ClientResponse → Type 0} {width : ℕ} (w : Wire ClientResponse Fits width) where
  lookup-take_response :
      (g : OrderGateway) (id : OrderId)
      → (lookup id (take_response w g).1.pending_orders
          ≡ (if ended_by (take_response w g).0 id then none else lookup id g.pending_orders))
        × ((take_response w g).1.next_order_id ≡ g.next_order_id)
        × ((take_response w g).1.client_id ≡ g.client_id)
  unfolding take_response
  lookup-take_response g id = elim (Bool-cases (leb width (length g.recv_buffer))) [
    | inr short ↦ rw (take_response, short) (refl, refl, refl)
    | inl whole ↦ elim (Option-cases (w.from_bytes (take width g.recv_buffer))) [
      | inl e ↦ rw (take_response, whole, e) (refl, refl, refl)
      | inr (r, e) ↦
          rw (take_response, whole, e)
            (lookup-settle (response_type r) r g.pending_orders id, refl, refl)
    ]
  ]

  lookup-poll :
      (g : OrderGateway) (read : Io (Option Bytes)) (id : OrderId)
      → (lookup id (poll w g read).1.pending_orders
          ≡ (if ended_by (poll w g read).0 id then none else lookup id g.pending_orders))
        × ((poll w g read).1.next_order_id ≡ g.next_order_id)
        × ((poll w g read).1.client_id ≡ g.client_id)
  unfolding poll
  lookup-poll g (ok (some bytes)) id =
      lookup-take_response (record g { recv_buffer = g.recv_buffer ++ bytes }) id
  lookup-poll g (ok none) id = lookup-take_response g id
  lookup-poll g (err k) id = (refl, refl, refl)

  abbrev pub does : OrderGateway → Call → Seen × OrderGateway
  does g (sends now o) =
      let s = send_new_order g now o.ticker_id o.side o.price o.qty in
      (placed now o (s.0) (s.1), s.2)
  does g (polls read) = let p = poll w g read in (answered (p.0), p.1)

  unfoldable pub run : OrderGateway → List Call → List Seen × OrderGateway
  run g [] = ([], g)
  run g (call ∷ calls) =
      let d = does g call in let others = run (d.1) calls in (d.0 ∷ others.0, others.1)

  abbrev pub sent : List Call → ℕ
  sent [] = 0
  sent (sends now o ∷ calls) = suc (sent calls)
  sent (polls read ∷ calls) = sent calls

  -- Whatever orders a program sends and whatever it polls, the table has exactly the orders that it sent
  -- and that no returned response has ended since, each as it was sent, under the identifier that its
  -- send returned, beside those that it had. These identifiers are those from the next one on, with no
  -- gap, and the message of each send asks for its order, as a new one of this client, under its
  -- identifier; as long as they stay below 2^64.
  pub run_tracks :
      (g : OrderGateway) (calls : List Call) (id : OrderId)
      → g.next_order_id + sent calls < 2 ^ 64
      → (lookup id (run g calls).1.pending_orders
          ≡ fate id (lookup id g.pending_orders) (run g calls).0)
        × PlacedFrom g.client_id g.next_order_id (run g calls).0
        × ((run g calls).1.next_order_id ≡ g.next_order_id + sent calls)
  unfolding run
  run_tracks g [] id room = (refl, tt, omega arith)
  run_tracks g (sends now o ∷ calls) id room =
      let g' = (does g (sends now o)).1 in
      let stored = send_tracks g now o id (omega arith) in
      let others = run_tracks g' calls id (omega (arith, stored.1)) in
      (
        others.0 ∙ ap (λ (p : Option PendingOrder). fate id p (run g' calls).0) (stored.0),
        (
          stored.2,
          stored.3,
          subst₂ (λ c n. PlacedFrom c n (run g' calls).0) (stored.4) (stored.1) (others.1),
        ),
        omega (arith, stored.1, others.2),
      )
  run_tracks g (polls read ∷ calls) id room =
      let p = poll w g read in
      let step = lookup-poll g read id in
      let others = run_tracks (p.1) calls id (omega (arith, step.1)) in
      (
        others.0 ∙ ap (λ (o : Option PendingOrder). fate id o (run (p.1) calls).0) (step.0),
        subst₂ (λ c n. PlacedFrom c n (run (p.1) calls).0) (step.2) (step.1) (others.1),
        omega (arith, step.1, others.2),
      )
