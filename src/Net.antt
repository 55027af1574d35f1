-- ===== src/Net.antt =====
-- common/src/net/tcp.rs and common/src/net/multicast.rs: what a read gives. The operating
-- system's sockets are third-party code: what their calls return is an argument.
pub mod Wire
pub mod Packed
pub mod Messages
use rust_low_latency_trading.Prelude.{
  ℕ, Bool, true, false, Option, none, some, List, if◌then◌else◌, ◌≡◌, refl, ap, ◌⊎◌, inl, inr,
}

-- `io::ErrorKind`, as far as the program tells kinds apart.
pub data ErrorKind : Type 0 where
  would_block connection_reset not_connected invalid_input other : ErrorKind

-- `io::Result`.
pub data Io {ℓ} (A : Type ℓ) : Type ℓ where
  ok : A → Io A
  err : ErrorKind → Io A

infixl 5 ◌>>=◌
abbrev pub ◌>>=◌ {ℓ κ} : {A : Type ℓ} {B : Type κ} → Io A → (A → Io B) → Io B
ok a >>= f = f a
err e >>= f = err e

abbrev pub Bytes : Type 0
Bytes = List ℕ

-- The answer of a read: nothing to read is no error.
abbrev received : Io Bytes → Io (Option Bytes)
received (ok bytes) = ok (some bytes)
received (err ErrorKind.would_block) = ok none
received (err e) = err e

-- `TcpSocket::try_recv` and `MulticastSocket::try_recv`. The arguments answer for the socket: its
-- mode, the calls that set it, and the read.
unfoldable pub try_recv : Io Bool → (Bool → Io (Unit {0})) → Io Bytes → Io (Option Bytes)
try_recv nonblocking set_nonblocking recv = do
  was ← nonblocking
  _ ← if was then ok tt else set_nonblocking true
  _ ← if was then ok tt else set_nonblocking false
  received recv

pub Io-cases {ℓ} :
    {A : Type ℓ} (r : Io A) → ((a : A) × (r ≡ ok a)) ⊎ ((e : ErrorKind) × (r ≡ err e))
Io-cases (ok a) = inl (a, refl)
Io-cases (err e) = inr (e, refl)

abbrev from_ok {ℓ} : {A : Type ℓ} → A → Io A → A
from_ok d (ok a) = a
from_ok d (err e) = d

pub ok-injective {ℓ} : {A : Type ℓ} {a b : A} → ok a ≡ ok b → a ≡ b
ok-injective {a = a} e = ap (from_ok a) e
