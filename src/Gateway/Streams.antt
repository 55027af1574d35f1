-- ===== src/Gateway/Streams.antt =====
-- trading/src/order_gateway.rs: the responses that a row of polls returns.
use rust_low_latency_trading.Prelude.{
  ℕ, zero, suc, ◌≤◌, ◌<◌, ◌≡◌, refl, sym, ap, ◌∙◌, arith, inl, inr, Option, none, some, List, [],
  ◌∷◌, ◌++◌, leb, Bool-cases, subst,
}
use rust_low_latency_trading.Prelude.Lists.{
  length, take, drop, All, length-append, append_assoc, append-nil, take-append, drop-append,
  take_all, drop_all,
}
use rust_low_latency_trading.Protocol.Response.{ClientResponse, response_type}
use rust_low_latency_trading.Net.{Io, ok, err, Bytes}
use rust_low_latency_trading.Net.Wire.{Wire, stream}
use rust_low_latency_trading.Gateway.{OrderGateway, settle, take_response, poll}

abbrev tail : List ClientResponse → List ClientResponse
tail [] = []
tail (m ∷ ms) = ms

module _ {Fits : ClientResponse → Type 0} {width : ℕ} (w : Wire ClientResponse Fits width) where
  -- A gateway with more bytes in its buffer.
  abbrev with_bytes : OrderGateway → Bytes → OrderGateway
  with_bytes g bytes = record g { recv_buffer = g.recv_buffer ++ bytes }

  -- What is still to come if `m` is taken.
  abbrev taken : OrderGateway → ClientResponse → OrderGateway
  taken g r = record g {
    recv_buffer = drop width g.recv_buffer;
    pending_orders = settle (response_type r) r g.pending_orders;
  }

  take_short : (g : OrderGateway) → length g.recv_buffer < width → take_response w g ≡ (none, g)
  unfolding take_response
  take_short g h = ground arith

  take_whole :
      (g : OrderGateway) (r : ClientResponse)
      → width ≤ length g.recv_buffer
      → w.from_bytes (take width g.recv_buffer) ≡ some r
      → take_response w g ≡ (some r, taken g r)
  unfolding take_response
  take_whole g r h e = rw e (ground arith)

  -- A message at the front of a buffer that holds it is taken, and the rest is left and to come.
  take_cons :
      (g : OrderGateway) (future : Bytes) (m : ClientResponse) (others : Bytes)
      → Fits m
      → width ≤ length g.recv_buffer
      → g.recv_buffer ++ future ≡ w.to_bytes m ++ others
      → (take_response w g ≡ (some m, taken g m)) × (drop width g.recv_buffer ++ future ≡ others)
  take_cons g future m others fit whole joined =
      let sized = w.length-to_bytes m in
      let front : take width g.recv_buffer ≡ w.to_bytes m =
        sym (take-append width g.recv_buffer future whole)
        ∙ ap (take width) joined
        ∙ take-append width (w.to_bytes m) others (omega arith)
        ∙ take_all width (w.to_bytes m) sized in
      (
        take_whole g m whole (rw front (w.from_bytes-to_bytes m fit)),
        sym (drop-append width g.recv_buffer future whole)
            ∙ ap (drop width) joined
            ∙ drop-append width (w.to_bytes m) others (omega arith)
            ∙ ap (λ (t : Bytes). t ++ others) (drop_all width (w.to_bytes m) sized),
      )

  -- The bytes that a read adds, and what a poll makes of the buffer then. An error adds none.
  abbrev gained : Io (Option Bytes) → Bytes
  gained (ok (some bytes)) = bytes
  gained (ok none) = []
  gained (err e) = []

  -- The bytes that some reads gave in all.
  abbrev pub gained_in_all : List (Io (Option Bytes)) → Bytes
  gained_in_all [] = []
  gained_in_all (read ∷ reads) = gained read ++ gained_in_all reads

  abbrev response_to_list : Option ClientResponse → List ClientResponse
  response_to_list none = []
  response_to_list (some r) = r ∷ []

  -- Some polls in a row, with the responses that they return.
  unfoldable pub polls :
      OrderGateway → List (Io (Option Bytes)) → List ClientResponse × OrderGateway
  polls g [] = ([], g)
  polls g (read ∷ reads) =
      let p = poll w g read in
      let others = polls (p.1) reads in (response_to_list (p.0) ++ others.0, others.1)

  -- One poll returns at most the first message, and the others are left and to come.
  abbrev Polled :
      Option ClientResponse × OrderGateway → Bytes → List ClientResponse → Bytes → Type 0
  Polled p future ms rest =
      (later : List ClientResponse) × (ms ≡ response_to_list p.0 ++ later)
      × (p.1.recv_buffer ++ future ≡ stream w later ++ rest)

  take_response-Polled :
      (g : OrderGateway) (future : Bytes) (ms : List ClientResponse) (rest : Bytes)
      → All Fits ms
      → length rest < width
      → g.recv_buffer ++ future ≡ stream w ms ++ rest
      → Polled (take_response w g) future ms rest
  take_response-Polled g future [] rest fits short e =
      let bounded = ap (λ (t : Bytes). length t) e in
      rw (take_short g (omega (arith, bounded, length-append g.recv_buffer future))) ([], refl, e)
  take_response-Polled g future (m ∷ later) rest (fit, fits) short e =
      elim (Bool-cases (leb width (length g.recv_buffer))) [
        | inr less ↦ rw (take_short g (ground arith)) (m ∷ later, refl, e)
        | inl whole ↦
            let first =
              take_cons g future m (stream w later ++ rest) fit (ground arith)
                (e ∙ append_assoc (w.to_bytes m) (stream w later) rest) in
            rw first.0 (later, refl, first.1)
      ]

  poll-Polled :
      (g : OrderGateway) (read : Io (Option Bytes)) (future : Bytes) (ms : List ClientResponse)
      (rest : Bytes)
      → All Fits ms
      → length rest < width
      → g.recv_buffer ++ (gained read ++ future) ≡ stream w ms ++ rest
      → Polled (poll w g read) future ms rest
  unfolding poll
  poll-Polled g (ok (some bytes)) future ms rest fits short e =
      take_response-Polled (with_bytes g bytes) future ms rest fits short
        (append_assoc g.recv_buffer bytes future ∙ e)
  poll-Polled g (ok none) future ms rest fits short e =
      take_response-Polled g future ms rest fits short e
  poll-Polled g (err k) future ms rest fits short e = (ms, refl, e)

  All-later :
      (ms front later : List ClientResponse) → ms ≡ front ++ later → All Fits ms → All Fits later
  All-later ms [] later e fits = subst (All Fits) e fits
  All-later [] (m ∷ front) later e fits = cc
  All-later (x ∷ ms) (m ∷ front) later e fits = All-later ms front later (ap tail e) fits.1

  -- However the network cuts the bytes of the responses, the polls of a row return a front part of
  -- them, in order, none twice and none left out, and the gateway's buffer has exactly the bytes of
  -- the others and of a last response that is not whole.
  pub polls-stream :
      (g : OrderGateway) (reads : List (Io (Option Bytes))) (ms : List ClientResponse)
      (rest : Bytes)
      → All Fits ms
      → length rest < width
      → g.recv_buffer ++ gained_in_all reads ≡ stream w ms ++ rest
      → (later : List ClientResponse) × (ms ≡ (polls g reads).0 ++ later)
        × ((polls g reads).1.recv_buffer ≡ stream w later ++ rest)
  unfolding polls
  polls-stream g [] ms rest fits short e = (ms, refl, sym (append-nil g.recv_buffer) ∙ e)
  polls-stream g (read ∷ reads) ms rest fits short e =
      let p = poll w g read in
      let first = poll-Polled g read (gained_in_all reads) ms rest fits short e in
      let others =
        polls-stream (p.1) reads (first.0) rest
          (All-later ms (response_to_list p.0) (first.0) (first.1) fits) short (first.2) in
      (
        others.0,
        first.1
            ∙ ap (λ (t : List ClientResponse). response_to_list p.0 ++ t) (others.1)
            ∙ sym (append_assoc (response_to_list p.0) (polls (p.1) reads).0 (others.0)),
        others.2,
      )

  -- Polls that find nothing more to read.
  abbrev pub idle : ℕ → List (Io (Option Bytes))
  idle zero = []
  idle (suc n) = ok none ∷ idle n

  stream_whole :
      (m : ClientResponse) (ms : List ClientResponse) (rest : Bytes)
      → width ≤ length (stream w (m ∷ ms) ++ rest)
  stream_whole m ms rest = omega (
    arith,
    w.length-to_bytes m,
    length-append (w.to_bytes m ++ stream w ms) rest,
    length-append (w.to_bytes m) (stream w ms),
  )

  polls-idle :
      (g : OrderGateway) (ms : List ClientResponse) (rest : Bytes)
      → All Fits ms
      → length rest < width
      → g.recv_buffer ≡ stream w ms ++ rest
      → ((polls g (idle (length ms))).0 ≡ ms) × ((polls g (idle (length ms))).1.recv_buffer ≡ rest)
  unfolding polls poll
  polls-idle g [] rest fits short e = (refl, e)
  polls-idle g (m ∷ ms) rest (fit, fits) short e =
      let whole : width ≤ length g.recv_buffer = rw e (stream_whole m ms rest) in
      let first =
        take_cons g [] m (stream w ms ++ rest) fit whole
          (append-nil g.recv_buffer ∙ e ∙ append_assoc (w.to_bytes m) (stream w ms) rest) in
      let others =
        polls-idle (taken g m) ms rest fits short
          (sym (append-nil (drop width g.recv_buffer)) ∙ first.1) in
      rw (polls, poll, first.0) (ap (λ (t : List ClientResponse). m ∷ t) (others.0), others.1)

  -- No response is lost: after reads that gave all the bytes, further polls return the responses that
  -- are left, one each, until all of them were returned in their order and only the bytes of a last
  -- response that is not whole are in the buffer.
  pub polls_catch_up :
      (g : OrderGateway) (reads : List (Io (Option Bytes))) (ms : List ClientResponse)
      (rest : Bytes)
      → All Fits ms
      → length rest < width
      → g.recv_buffer ++ gained_in_all reads ≡ stream w ms ++ rest
      → let g' = (polls g reads).1 in
        (n : ℕ) × (ms ≡ (polls g reads).0 ++ (polls g' (idle n)).0)
        × (n ≡ length (polls g' (idle n)).0)
        × ((polls g' (idle n)).1.recv_buffer ≡ rest)
  polls_catch_up g reads ms rest fits short e =
      let p = polls-stream g reads ms rest fits short e in
      let more =
        polls-idle (polls g reads).1 (p.0) rest (All-later ms (polls g reads).0 (p.0) (p.1) fits)
          short (p.2) in
      (
        length p.0,
        p.1 ∙ ap (λ (t : List ClientResponse). (polls g reads).0 ++ t) (sym (more.0)),
        ap (λ (t : List ClientResponse). length t) (sym (more.0)),
        more.1,
      )
