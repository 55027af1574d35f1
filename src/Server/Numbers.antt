-- ===== src/Server/Numbers.antt =====
-- exchange/src/order_server.rs: the numbers that the sequencer gives.
use rust_low_latency_trading.Prelude.{
  ℕ, zero, suc, ◌+◌, ◌^◌, ◌<◌, ◌≡◌, refl, ap, ap₂, ◌∙◌, arith, Bool, true, false, Option, subst,
  List, [], ◌∷◌, ◌++◌,
}
use rust_low_latency_trading.Prelude.Lists.{length, length-append}
use rust_low_latency_trading.Prelude.Map.{Map}
use rust_low_latency_trading.Types.{ClientId}
use rust_low_latency_trading.Protocol.Request.{ClientRequest}
use rust_low_latency_trading.Net.{Io, ok, err, Bytes}
use rust_low_latency_trading.Net.Wire.{Wire}
use rust_low_latency_trading.Server.Connection.{ClientConnection, receive}
use rust_low_latency_trading.Server.{
  next, FifoSequencer, SequencedRequest, OrderServer, accept, accept_connections, sorted_in,
  sort_by_number, assign, take_in, visit, poll,
}

abbrev pub numbers : List SequencedRequest → List ℕ
numbers [] = []
numbers (r ∷ rs) = r.sequence_number ∷ numbers rs

-- `k` numbers in a row.
abbrev pub count_from : ℕ → ℕ → List ℕ
count_from n zero = []
count_from n (suc k) = n ∷ count_from (n + 1) k

abbrev head_or : ℕ → List ℕ → ℕ
head_or d [] = d
head_or d (n ∷ ns) = n

abbrev tail : List ℕ → List ℕ
tail [] = []
tail (n ∷ ns) = ns

-- The numbers of some requests are those from `n` on.
pub InARow : ℕ → List SequencedRequest → Type 0
InARow n rs = numbers rs ≡ count_from n (length rs)

append-InARow :
    (n : ℕ) (xs ys : List SequencedRequest)
    → InARow n xs
    → InARow (n + length xs) ys
    → InARow n (xs ++ ys)
unfolding InARow
append-InARow n [] ys hx hy = hy ∙ ap (λ (m : ℕ). count_from m (length ys)) (omega arith)
append-InARow n (x ∷ xs) ys hx hy =
    ap₂ (λ (m : ℕ) (ms : List ℕ). m ∷ ms) (ap (head_or 0) hx)
      (append-InARow (n + 1) xs ys (ap tail hx)
        (hy ∙ ap (λ (m : ℕ). count_from m (length ys)) (omega arith)))

-- `q` goes on after the requests, which are numbered from `n` on.
pub record IsNumbered (n : ℕ) (rs : List SequencedRequest) (q : FifoSequencer) : Type 0 where
  pub in_a_row : InARow n rs
  pub goes_on : q.next_seq ≡ n + length rs

pub append-IsNumbered :
    (n : ℕ) (xs ys : List SequencedRequest) (q q' : FifoSequencer)
    → IsNumbered n xs q
    → IsNumbered q.next_seq ys q'
    → IsNumbered n (xs ++ ys) q'
append-IsNumbered n xs ys q q' hx hy = record {
  in_a_row = append-InARow n xs ys hx.in_a_row (subst (λ m. InARow m ys) hx.goes_on hy.in_a_row);
  goes_on = omega (arith, length-append xs ys, hx.goes_on, hy.goes_on);
}

length-assign :
    (id : ClientId) (ms : List ClientRequest) (q : FifoSequencer)
    → length (assign id ms q).0 ≡ length ms
unfolding assign
length-assign id [] q = refl
length-assign id (m ∷ ms) q = omega (arith, length-assign id ms (next q).1)

assign-IsNumbered :
    (id : ClientId) (ms : List ClientRequest) (q : FifoSequencer) (n : ℕ)
    → q.next_seq ≡ n
    → n + length ms < 2 ^ 64
    → IsNumbered n (assign id ms q).0 (assign id ms q).1
unfolding assign InARow
assign-IsNumbered id [] q n e h = record { in_a_row = refl; goes_on = omega arith }
assign-IsNumbered id (m ∷ ms) q n e h =
    let others = assign-IsNumbered id ms (next q).1 (n + 1) (omega arith) (omega arith) in
    record {
      in_a_row = ap₂ (λ (k : ℕ) (ks : List ℕ). k ∷ ks) e others.in_a_row;
      goes_on = omega (arith, others.goes_on);
    }

take_in-IsNumbered :
    (id : ClientId) (r : Io (List ClientRequest)) (q : FifoSequencer)
    → q.next_seq + length (take_in id r q).0 < 2 ^ 64
    → IsNumbered q.next_seq (take_in id r q).0 (take_in id r q).2
unfolding InARow
take_in-IsNumbered id (ok ms) q h =
    assign-IsNumbered id ms q q.next_seq refl (omega (arith, length-assign id ms q))
take_in-IsNumbered id (err e) q h = record { in_a_row = refl; goes_on = omega arith }

-- Sorting by the number changes nothing.
sorted_in_least :
    (n : ℕ) (r : SequencedRequest) (rs : List SequencedRequest)
    → r.sequence_number < n
    → InARow n rs
    → sorted_in r rs ≡ r ∷ rs
unfolding sorted_in InARow
sorted_in_least n r [] h e = refl
sorted_in_least n r (x ∷ xs) h e = ground (arith, ap (head_or 0) e)

pub sort_by_number-InARow :
    (n : ℕ) (rs : List SequencedRequest) → InARow n rs → sort_by_number rs ≡ rs
unfolding sort_by_number InARow
sort_by_number-InARow n [] e = refl
sort_by_number-InARow n (r ∷ rs) e =
    rw (sort_by_number-InARow (n + 1) rs (ap tail e))
      (sorted_in_least (n + 1) r rs (omega (arith, ap (head_or 0) e)) (ap tail e))

length-sorted_in :
    (r : SequencedRequest) (rs : List SequencedRequest) → length (sorted_in r rs) ≡ suc (length rs)
unfolding sorted_in
length-sorted_in r [] = refl
length-sorted_in r (x ∷ xs) = ground (arith, length-sorted_in r xs)

length-sort_by_number : (rs : List SequencedRequest) → length (sort_by_number rs) ≡ length rs
unfolding sort_by_number
length-sort_by_number [] = refl
length-sort_by_number (r ∷ rs) =
    length-sorted_in r (sort_by_number rs) ∙ ap (λ (n : ℕ). suc n) (length-sort_by_number rs)

pub next-accept_connections :
    (waiting : List Bool) (s : OrderServer)
    → (accept_connections waiting s).sequencer_state ≡ s.sequencer_state
unfolding accept_connections
next-accept_connections [] s = refl
next-accept_connections (true ∷ waiting) s = next-accept_connections waiting (accept true s)
next-accept_connections (false ∷ waiting) s = next-accept_connections waiting (accept false s)

module _ {Fits : ClientRequest → Type 0} {width : ℕ} (w : Wire ClientRequest Fits width) where
  visit-IsNumbered :
      (reads : ClientId → Io (Option Bytes)) (clients : Map ClientId ClientConnection)
      (q : FifoSequencer)
      → q.next_seq + length (visit w reads clients q).0 < 2 ^ 64
      → IsNumbered q.next_seq (visit w reads clients q).0 (visit w reads clients q).3
  unfolding visit InARow
  visit-IsNumbered reads [] q h = record { in_a_row = refl; goes_on = omega arith }
  visit-IsNumbered reads ((id, c) ∷ clients) q h =
      let t = take_in id (receive w c (reads id)).0 q in
      let others = visit w reads clients (t.2) in
      let counted = length-append (t.0) (others.0) in
      let mine = take_in-IsNumbered id (receive w c (reads id)).0 q (omega arith) in
      append-IsNumbered q.next_seq (t.0) (others.0) (t.2) (others.3) mine
        (visit-IsNumbered reads clients (t.2) (omega (arith, mine.goes_on)))

  accepted_visit-IsNumbered :
      (waiting : List Bool) (reads : ClientId → Io (Option Bytes)) (s : OrderServer)
      → let a = accept_connections waiting s in
        let v = visit w reads a.clients a.sequencer_state in
        s.sequencer_state.next_seq + length (poll w waiting reads s).0 < 2 ^ 64
        → IsNumbered s.sequencer_state.next_seq (v.0) (v.3)
  unfolding poll
  accepted_visit-IsNumbered waiting reads s h =
      let a = accept_connections waiting s in
      let v = visit w reads a.clients a.sequencer_state in
      let same : a.sequencer_state.next_seq ≡ s.sequencer_state.next_seq =
        ap (λ (q : FifoSequencer). q.next_seq) (next-accept_connections waiting s) in
      subst (λ n. IsNumbered n (v.0) (v.3)) same
        (visit-IsNumbered reads a.clients a.sequencer_state
          (omega (arith, length-sort_by_number (v.0))))

  -- One poll returns its requests as they were taken, and numbers them in a row.
  pub poll_in_order :
      (waiting : List Bool) (reads : ClientId → Io (Option Bytes)) (s : OrderServer)
      → let a = accept_connections waiting s in
        s.sequencer_state.next_seq + length (poll w waiting reads s).0 < 2 ^ 64
        → (poll w waiting reads s).0 ≡ (visit w reads a.clients a.sequencer_state).0
  unfolding poll
  poll_in_order waiting reads s h =
      let a = accept_connections waiting s in
      sort_by_number-InARow s.sequencer_state.next_seq (visit w reads a.clients a.sequencer_state).0
        (accepted_visit-IsNumbered waiting reads s h).in_a_row

  pub poll-IsNumbered :
      (waiting : List Bool) (reads : ClientId → Io (Option Bytes)) (s : OrderServer)
      → let p = poll w waiting reads s in
        s.sequencer_state.next_seq + length p.0 < 2 ^ 64
        → IsNumbered s.sequencer_state.next_seq (p.0) p.1.sequencer_state
  unfolding poll
  poll-IsNumbered waiting reads s h =
      let numbered = accepted_visit-IsNumbered waiting reads s h in
      rw (sort_by_number-InARow s.sequencer_state.next_seq _ numbered.in_a_row) numbered

  -- Some polls in a row, each with the connections that wait and the reads that it meets.
  unfoldable pub polls :
      List (List Bool × (ClientId → Io (Option Bytes)))
      → OrderServer
      → List SequencedRequest × OrderServer
  polls [] s = ([], s)
  polls ((waiting, reads) ∷ rounds) s =
      let p = poll w waiting reads s in
      let others = polls rounds (p.1) in (p.0 ++ others.0, others.1)

  -- The requests that any row of polls returns, in the order in which they are returned, have the
  -- numbers from the server's counter on, with no gap and no number twice, and the counter goes on
  -- after them, as long as it does not reach 2^64.
  pub polls-IsNumbered :
      (rounds : List (List Bool × (ClientId → Io (Option Bytes)))) (s : OrderServer)
      → s.sequencer_state.next_seq + length (polls rounds s).0 < 2 ^ 64
      → IsNumbered s.sequencer_state.next_seq (polls rounds s).0 (polls rounds s).1.sequencer_state
  unfolding polls InARow
  polls-IsNumbered [] s h = record { in_a_row = refl; goes_on = omega arith }
  polls-IsNumbered ((waiting, reads) ∷ rounds) s h =
      let p = poll w waiting reads s in
      let others = polls rounds (p.1) in
      let counted = length-append (p.0) (others.0) in
      let first = poll-IsNumbered waiting reads s (omega arith) in
      append-IsNumbered s.sequencer_state.next_seq (p.0) (others.0) p.1.sequencer_state
        others.1.sequencer_state first
        (polls-IsNumbered rounds (p.1) (omega (arith, first.goes_on)))
