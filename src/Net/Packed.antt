-- ===== src/Net/Packed.antt =====
-- The packed layout of exchange/src/protocol.rs, on a machine that puts low bytes first: it shows that
-- what is assumed of the byte views can hold.
use rust_low_latency_trading.Prelude.{
  ℕ, zero, suc, ◌+◌, ◌-◌, ◌*◌, ◌/◌, ◌%◌, ◌^◌, ◌<◌, ◌≤◌, ◌≡◌, refl, ap, arith, List, [], ◌∷◌, ◌++◌,
  ltb, if◌then◌else◌,
}
use rust_low_latency_trading.Prelude.Lists.{
  length, take, drop, All, length-append, take-append, drop-append, take_all, drop_all,
}
use rust_low_latency_trading.Prelude.Int.{ℤ, pos, negsuc, pos_part, neg_part}
use rust_low_latency_trading.Prelude.I64.{to_bits, from_bits, IsI64, wrap, wrap_small}

-- A number in `k` bytes.
abbrev pub bytes_of : ℕ → ℕ → List ℕ
bytes_of zero v = []
bytes_of (suc k) v = v % 256 ∷ bytes_of k (v / 256)

abbrev pub number_of : List ℕ → ℕ
number_of [] = 0
number_of (b ∷ bytes) = b + 256 * number_of bytes

-- The bound of `k` bytes, as a product.
abbrev pub bound : ℕ → ℕ
bound zero = 1
bound (suc k) = 256 * bound k

number_of-bytes_of : (k v : ℕ) → v < bound k → number_of (bytes_of k v) ≡ v
number_of-bytes_of zero v h = omega arith
number_of-bytes_of (suc k) v h = omega (arith, number_of-bytes_of k (v / 256) (omega arith))

length-bytes_of : (k v : ℕ) → length (bytes_of k v) ≡ k
length-bytes_of zero v = refl
length-bytes_of (suc k) v = omega (arith, length-bytes_of k (v / 256))

-- Fields in a row, each a width and a value.
abbrev pub Fields : Type 0
Fields = List (ℕ × ℕ)

unfoldable pub pack : Fields → List ℕ
pack [] = []
pack ((k, v) ∷ fields) = bytes_of k v ++ pack fields

unfoldable pub unpack : List ℕ → List ℕ → List ℕ
unpack [] bytes = []
unpack (k ∷ widths) bytes = number_of (take k bytes) ∷ unpack widths (drop k bytes)

abbrev pub widths : Fields → List ℕ
widths [] = []
widths ((k, v) ∷ fields) = k ∷ widths fields

abbrev pub values : Fields → List ℕ
values [] = []
values ((k, v) ∷ fields) = v ∷ values fields

abbrev pub sum : List ℕ → ℕ
sum [] = 0
sum (k ∷ ks) = k + sum ks

abbrev pub InWidth : ℕ × ℕ → Type 0
InWidth (k, v) = v < bound k

pub length-pack : (fields : Fields) → length (pack fields) ≡ sum (widths fields)
unfolding pack
length-pack [] = refl
length-pack ((k, v) ∷ fields) =
    omega
      (arith, length-append (bytes_of k v) (pack fields), length-bytes_of k v, length-pack fields)

pub unpack-pack :
    (fields : Fields) → All InWidth fields → unpack (widths fields) (pack fields) ≡ values fields
unfolding pack unpack
unpack-pack [] h = refl
unpack-pack ((k, v) ∷ fields) (fits, others) =
    let sized = length-bytes_of k v in
    rw
      (
        take-append k (bytes_of k v) (pack fields) (omega arith),
        drop-append k (bytes_of k v) (pack fields) (omega arith),
        take_all k (bytes_of k v) sized,
        drop_all k (bytes_of k v) sized,
        number_of-bytes_of k v fits,
      )
      (ap (λ (t : List ℕ). v ∷ t) (unpack-pack fields others))

abbrev pub at : ℕ → List ℕ → ℕ
at i [] = 0
at zero (v ∷ vs) = v
at (suc i) (v ∷ vs) = at i vs

-- The byte of an `i8`, and back.
abbrev pub to_byte : ℤ → ℕ
to_byte (pos n) = n % 256
to_byte (negsuc n) = 255 - n % 256

abbrev pub from_byte : ℕ → ℤ
from_byte m = if ltb m 128 then pos m else negsuc (255 - m)

pub record IsI8 (a : ℤ) : Type 0 where
  pub above : pos_part a < 2 ^ 7
  pub below : neg_part a ≤ 2 ^ 7

pub from_byte-to_byte : (a : ℤ) → IsI8 a → from_byte (to_byte a) ≡ a
from_byte-to_byte (pos n) h = ground (arith, h.above)
from_byte-to_byte (negsuc n) h = ground (arith, h.below)

pub to_byte_small : (a : ℤ) → to_byte a < 256
to_byte_small (pos n) = omega arith
to_byte_small (negsuc n) = omega arith

pub from_bits-to_bits : (a : ℤ) → IsI64 a → from_bits (to_bits a) ≡ a
unfolding wrap
from_bits-to_bits a h = wrap_small a h

pub to_bits_small : (a : ℤ) → to_bits a < 2 ^ 64
to_bits_small (pos n) = omega arith
to_bits_small (negsuc n) = omega arith
