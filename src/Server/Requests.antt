-- ===== src/Server/Requests.antt =====
-- exchange/src/order_server.rs: the requests of one client, and the clients that a poll drops.
use rust_low_latency_trading.Prelude.{
  ◌≡◌, refl, ◌∙◌, arith, Bool, false, none, List, [], ◌∷◌, ◌++◌, ◌||◌, if◌then◌else◌,
}
use rust_low_latency_trading.Prelude.Map.{Map, lookup, remove, ◌==◌, ℕ_eq, lookup-remove}
use rust_low_latency_trading.Types.{ClientId}
use rust_low_latency_trading.Protocol.Request.{ClientRequest}
use rust_low_latency_trading.Server.Connection.{ClientConnection}
use rust_low_latency_trading.Server.{next, FifoSequencer, SequencedRequest, assign, remove_each}

-- The requests of one client among some.
unfoldable pub requests_of : ClientId → List SequencedRequest → List ClientRequest
requests_of id [] = []
requests_of id (r ∷ rs) =
    if r.client_id == id then r.request ∷ requests_of id rs else requests_of id rs

pub requests_of-append :
    (id : ClientId) (xs ys : List SequencedRequest)
    → requests_of id (xs ++ ys) ≡ requests_of id xs ++ requests_of id ys
unfolding requests_of
requests_of-append id [] ys = refl
requests_of-append id (x ∷ xs) ys = ground (arith, requests_of-append id xs ys)

pub requests_of-assign :
    (id j : ClientId) (ms : List ClientRequest) (q : FifoSequencer)
    → requests_of id (assign j ms q).0 ≡ (if j == id then ms else [])
unfolding requests_of assign
requests_of-assign id j [] q = ground arith
requests_of-assign id j (m ∷ ms) q = ground (arith, requests_of-assign id j ms (next q).1)

unfoldable pub contains : ClientId → List ClientId → Bool
contains id [] = false
contains id (j ∷ ids) = (j == id) || contains id ids

pub contains-append :
    (id : ClientId) (xs ys : List ClientId)
    → contains id (xs ++ ys) ≡ (contains id xs || contains id ys)
unfolding contains
contains-append id [] ys = refl
contains-append id (x ∷ xs) ys = ground (arith, contains-append id xs ys)

pub lookup-remove_each :
    (ids : List ClientId) (id : ClientId) (clients : Map ClientId ClientConnection)
    → lookup id (remove_each ids clients) ≡ (if contains id ids then none else lookup id clients)
unfolding remove_each contains
lookup-remove_each [] id clients = refl
lookup-remove_each (j ∷ ids) id clients =
    lookup-remove_each ids id (remove j clients) ∙ ground (arith, lookup-remove j id clients)
