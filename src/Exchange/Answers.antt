-- ===== src/Exchange/Answers.antt =====
-- exchange/src/main.rs: every request is answered.
use rust_low_latency_trading.Prelude.{
  ℕ, ◌+◌, ◌^◌, ◌<◌, ◌≤◌, ◌≡◌, refl, sym, ap, ◌∙◌, subst, arith, inl, inr, Option, none, some, List,
  [], ◌∷◌, ◌++◌, if◌then◌else◌, Bool-cases, wrap64,
}
use rust_low_latency_trading.Prelude.Lists.{length, length-append, All}
use rust_low_latency_trading.Prelude.Run.{done}
use rust_low_latency_trading.Prelude.Map.{lookup, ◌==◌, ℕ_eq}
use rust_low_latency_trading.Types.{ClientId}
use rust_low_latency_trading.Protocol.Request.{ClientRequest, ClientRequestType}
use rust_low_latency_trading.Protocol.Response.{ClientResponse}
use rust_low_latency_trading.Protocol.Update.{MarketUpdate}
use rust_low_latency_trading.Net.{Io, ok, Bytes}
use rust_low_latency_trading.Net.Wire.{Wire, stream}
use rust_low_latency_trading.Engine.{MatchingEngine, Reply}
use rust_low_latency_trading.Engine.Invariant.{IsEngine}
use rust_low_latency_trading.Engine.Histories.{Handles, Handles-next, process_request_lem}
use rust_low_latency_trading.Server.{OrderServer, SequencedRequest, poll, send_response}
use rust_low_latency_trading.Server.Numbers.{polls}
use rust_low_latency_trading.Server.Requests.{requests_of}
use rust_low_latency_trading.Server.Delivery.{Round, reads_of, waiting_in_all, polls_lem}
use rust_low_latency_trading.Server.Identities.{IsServer}
use rust_low_latency_trading.Server.Connection.{connection}
use rust_low_latency_trading.Server.Streams.{gained_in_all}
use rust_low_latency_trading.Exchange.{Exchange, Answer, publish_each, answer_each, turn, turns}

-- Two lists that agree in length, with related items at each place.
abbrev pub Pairwise : {A B : Type 0} → (A → B → Type 0) → List A → List B → Type 0
Pairwise R [] [] = Unit
Pairwise R (a ∷ rest) (b ∷ bs) = R a b × Pairwise R rest bs
Pairwise R [] (b ∷ bs) = ⊥
Pairwise R (a ∷ rest) [] = ⊥

-- A response to a request names its client, its ticker and its order.
abbrev pub Concerns : ClientRequest → ClientResponse → Type 0
Concerns r a =
    (a.client_id ≡ r.client_id) × (a.ticker_id ≡ r.ticker_id) × (a.client_order_id ≡ r.order_id)

-- The answer goes to the client that sent the request, and is about that request.
abbrev pub Replies : SequencedRequest → Answer → Type 0
Replies q a = (a.client_id ≡ q.client_id) × Concerns q.request a.response

abbrev pub IsSmall : SequencedRequest → Type 0
IsSmall q = q.request.qty < 2 ^ 32

append-IsSmall :
    (qs qs' : List SequencedRequest) → All IsSmall (qs ++ qs') → All IsSmall qs × All IsSmall qs'
append-IsSmall [] qs' h = (tt, h)
append-IsSmall (q ∷ qs) qs' h =
    let others = append-IsSmall qs qs' (h.1) in ((h.0, others.0), others.1)

append-Answered :
    (qs : List SequencedRequest) (xs : List Answer) (qs' : List SequencedRequest)
    (xs' : List Answer)
    → Pairwise Replies qs xs
    → Pairwise Replies qs' xs'
    → Pairwise Replies (qs ++ qs') (xs ++ xs')
append-Answered [] [] qs' xs' h h' = h'
append-Answered (q ∷ qs) (x ∷ xs) qs' xs' h h' = (h.0, append-Answered qs xs qs' xs' (h.1) h')
append-Answered [] (x ∷ xs) qs' xs' h h' = absurd h
append-Answered (q ∷ qs) [] qs' xs' h h' = absurd h

-- The responses that go to one client.
unfoldable pub responses_to : ClientId → List Answer → List ClientResponse
responses_to id [] = []
responses_to id (a ∷ rest) =
    if a.client_id == id then a.response ∷ responses_to id rest else responses_to id rest

responses_to-Pairwise :
    (id : ClientId) (qs : List SequencedRequest) (rest : List Answer)
    → Pairwise Replies qs rest
    → Pairwise Concerns (requests_of id qs) (responses_to id rest)
unfolding requests_of responses_to
responses_to-Pairwise id [] [] p = tt
responses_to-Pairwise id (q ∷ qs) (a ∷ rest) p =
    let others = responses_to-Pairwise id qs rest (p.1) in
    rw p.0.0 (elim (Bool-cases (q.client_id == id)) [
      | inl mine ↦ rw mine (p.0.1, others)
      | inr other ↦ rw other others
    ])
responses_to-Pairwise id [] (a ∷ rest) p = absurd p
responses_to-Pairwise id (q ∷ qs) [] p = absurd p

reply-Concerns : (r : ClientRequest) {x y : Reply} → x ≡ y → Concerns r (y.0) → Concerns r (x.0)
reply-Concerns r e h = subst (λ (t : Reply). Concerns r (t.0)) (sym e) h

Handles-Concerns :
    (n : ℕ) (e : MatchingEngine) (r : ClientRequest) (kind : Option ClientRequestType)
    (s : Reply × MatchingEngine)
    → Handles n e r kind s
    → Concerns r (s.0.0)
Handles-Concerns n e r none s h =
    reply-Concerns r (ap (λ (t : Reply × MatchingEngine). t.0) h) (refl, refl, refl)
Handles-Concerns n e r (some ClientRequestType.new) s (inl h) =
    reply-Concerns r (h.4) (refl, refl, refl)
Handles-Concerns n e r (some ClientRequestType.new) s (inr h) =
    reply-Concerns r (h.0) (refl, refl, refl)
Handles-Concerns n e r (some ClientRequestType.cancel) s (inl h) =
    reply-Concerns r (h.2) (refl, refl, refl)
Handles-Concerns n e r (some ClientRequestType.cancel) s (inr h) =
    reply-Concerns r (h.1) (refl, refl, refl)

module _ {S : Type 0} (send_update : S → MarketUpdate → Io ℕ × S) (n : ℕ) (small : n < 2 ^ 64)
    {Fits : ClientRequest → Type 0} {width : ℕ} (w : Wire ClientRequest Fits width)
    (send : ClientId → Bytes → Io ℕ) (as_bytes : ClientResponse → Bytes) where
  -- What answering some requests makes of the exchange.
  pub record Served (x : Exchange S) (qs : List SequencedRequest) (t : List Answer × Exchange S)
      : Type 0 where
    pub engine : IsEngine n t.1.matching_engine
    pub used : t.1.matching_engine.next_order_id ≤ x.matching_engine.next_order_id + length qs
    pub answered : Pairwise Replies qs (t.0)

  answer_each_lem :
      (x : Exchange S) (qs : List SequencedRequest)
      → IsEngine n x.matching_engine
      → x.matching_engine.next_order_id + length qs < 2 ^ 64
      → All IsSmall qs
      → (t : List Answer × Exchange S) × (answer_each send_update n w send as_bytes x qs ≡ done t)
        × Served x qs t
        × (t.1.order_server ≡ x.order_server)
  unfolding answer_each
  answer_each_lem x [] v ids range =
      (([], x), refl, record { engine = v; used = omega arith; answered = tt }, refl)
  answer_each_lem x (q ∷ qs) v ids range =
      let (s, made, kept, handled) =
        process_request_lem n small x.matching_engine q.request v (omega arith) (range.0) in
      let next = Handles-next n small x.matching_engine q.request _ s handled in
      let p = publish_each send_update x.market_data_publisher x.socket (s.0.1) in
      let x' : Exchange S = record x {
        matching_engine = s.1;
        market_data_publisher = p.0;
        socket = p.1;
      } in
      let (t, others, served, same) = answer_each_lem x' qs kept (omega (arith, next)) (range.1) in
      let a : Answer = record {
        client_id = q.client_id;
        response = s.0.0;
        result = send_response send as_bytes x.order_server q.client_id (s.0.0);
      } in
      (
        (a ∷ t.0, t.1),
        rw (made, others) refl,
        record {
          engine = served.engine;
          used = omega (arith, next, served.used);
          answered =
              ((refl, Handles-Concerns n x.matching_engine q.request _ s handled), served.answered);
        },
        same,
      )

  -- A whole row of turns.
  turns_serve :
      (rounds : List Round) (x : Exchange S) (s : OrderServer)
      → x.order_server ≡ s
      → let p = polls w rounds s in
        IsEngine n x.matching_engine
        → x.matching_engine.next_order_id + length p.0 < 2 ^ 64
        → All IsSmall p.0
        → (t : List Answer × Exchange S) × (turns send_update n w send as_bytes rounds x ≡ done t)
          × Served x (p.0) t
          × (t.1.order_server ≡ p.1)
  unfolding polls turns turn
  turns_serve [] x s e v ids range =
      (([], x), refl, record { engine = v; used = omega arith; answered = tt }, e)
  turns_serve ((waiting, reads) ∷ rounds) x s e v ids range =
      let p = poll w waiting reads s in
      let later = polls w rounds (p.1) in
      let counted = length-append (p.0) (later.0) in
      let small_each = append-IsSmall (p.0) (later.0) range in
      let (t, made, served, same) =
        answer_each_lem (record x { order_server = p.1 }) (p.0) v (omega (arith, counted))
          (small_each.0) in
      let x' : Exchange S = record (t.1) { stats_interval = wrap64 (t.1.stats_interval + 1) } in
      let (u, others, served', same') =
        turns_serve rounds x' (p.1) same served.engine (omega (arith, counted, served.used))
          (small_each.1) in
      (
        (t.0 ++ u.0, u.1),
        rw (turn, e, made, others) refl,
        record {
          engine = served'.engine;
          used = omega (arith, counted, served.used, served'.used);
          answered = append-Answered (p.0) (t.0) (later.0) (u.0) served.answered served'.answered;
        },
        same',
      )

  -- However the requests of a connected client are cut into the reads of some turns of the loop, if
  -- none of these reads is an error or the end of the stream, the turns return without a panic: every
  -- request that the server took in, from whichever client, is answered once, in its order, to its
  -- sender; the client gets one response for each of its requests, in the order in which it sent them,
  -- which names the request's client, ticker and order; it stays connected; and the engine keeps its
  -- invariant. That is so whatever the sockets answer to what is sent, as long as the books have fewer
  -- than 2^64 slots, the quantities are u32 and the numbers of clients, requests and orders do not
  -- reach the ends of their ranges.
  pub turns_lem :
      (rounds : List Round) (x : Exchange S) (id : ClientId) (ms : List ClientRequest)
      (rest : Bytes)
      → let p = polls w rounds x.order_server in
        IsServer x.order_server
        → IsEngine n x.matching_engine
        → x.order_server.next_client_id + waiting_in_all rounds < 2 ^ 32
        → x.order_server.sequencer_state.next_seq + length p.0 < 2 ^ 64
        → x.matching_engine.next_order_id + length p.0 < 2 ^ 64
        → All IsSmall p.0
        → lookup id x.order_server.clients ≡ some (connection id)
        → All Fits ms
        → length rest < width
        → gained_in_all (reads_of id rounds) ≡ ok (stream w ms ++ rest)
        → (t : List Answer × Exchange S) × (turns send_update n w send as_bytes rounds x ≡ done t)
          × IsEngine n t.1.matching_engine
          × Pairwise Replies p.0 t.0
          × Pairwise Concerns ms (responses_to id t.0)
          × (lookup id t.1.order_server.clients
              ≡ some (record (connection id) { recv_buffer = rest }))
  turns_lem rounds x id ms rest h v clients numbers orders range found fits short cut =
      let (t, made, served, same) = turns_serve rounds x x.order_server refl v orders range in
      let taken =
        polls_lem w rounds x.order_server id ms rest h clients numbers found fits short cut in
      (
        t,
        made,
        served.engine,
        served.answered,
        subst (λ rs. Pairwise Concerns rs (responses_to id t.0)) (taken.0)
            (responses_to-Pairwise id _ t.0 served.answered),
        ap (λ s. lookup id s.clients) same ∙ taken.1,
      )
