-- ===== src/Prelude/Map.antt =====
-- The hash maps of the program: association lists under a test of keys, with no order promised.
use rust_low_latency_trading.Prelude.{
  ℕ, suc, ◌+◌, ◌≡◌, ◌↔◌, refl, ◌∙◌, Bool, true, false, Option, none, some, List, [], ◌∷◌, arith,
  if◌then◌else◌, ==_iff,
}
use rust_low_latency_trading.Prelude
use rust_low_latency_trading.Prelude.Int.{ℤ, pos, negsuc}

pub record Eq {ℓ} (K : Type ℓ) : Type ℓ where
  pub beq : K → K → Bool
  pub beq_iff : (a b : K) → (beq a b ≡ true) ↔ (a ≡ b)

infix 50 ◌==◌
abbrev pub ◌==◌ {ℓ} : {K : Type ℓ} ⦃e : Eq K⦄ → K → K → Bool
◌==◌ ⦃e⦄ = e.beq

abbrev ℕ_beq : ℕ → ℕ → Bool
ℕ_beq a b = Prelude.◌==◌ a b

instance abbrev pub ℕ_eq : Eq ℕ
ℕ_eq = record { beq = ℕ_beq; beq_iff = ==_iff }

abbrev ℤ_beq : ℤ → ℤ → Bool
ℤ_beq (pos a) (pos b) = Prelude.◌==◌ a b
ℤ_beq (negsuc a) (negsuc b) = Prelude.◌==◌ a b
ℤ_beq _ _ = false

pub ℤ_beq_iff : (a b : ℤ) → (ℤ_beq a b ≡ true) ↔ (a ≡ b)
ℤ_beq_iff (pos a) (pos b) = ground arith
ℤ_beq_iff (pos a) (negsuc b) = ground arith
ℤ_beq_iff (negsuc a) (pos b) = ground arith
ℤ_beq_iff (negsuc a) (negsuc b) = ground arith

instance abbrev pub ℤ_eq : Eq ℤ
ℤ_eq = record { beq = ℤ_beq; beq_iff = ℤ_beq_iff }

abbrev pub Map {ℓ κ} : Type κ → Type ℓ → Type (ℓ ⊔ κ)
Map K V = List (K × V)

module _ {ℓ κ} {K : Type κ} {V : Type ℓ} where
  unfoldable pub size : Map K V → ℕ
  size [] = 0
  size (e ∷ m) = suc (size m)

  unfoldable pub keys : Map K V → List K
  keys [] = []
  keys ((k, v) ∷ m) = k ∷ keys m

  unfoldable pub values : Map K V → List V
  values [] = []
  values ((k, v) ∷ m) = v ∷ values m

module _ {ℓ κ} {K : Type κ} {V : Type ℓ} ⦃e : Eq K⦄ where
  unfoldable pub lookup : K → Map K V → Option V
  lookup key [] = none
  lookup key ((j, value) ∷ others) = if j == key then some value else lookup key others

  -- A value that stands under the key is replaced where it stands.
  unfoldable pub insert : K → V → Map K V → Map K V
  insert key value [] = (key, value) ∷ []
  insert key value ((j, old) ∷ others) =
      if j == key then (key, value) ∷ others else (j, old) ∷ insert key value others

  unfoldable pub remove : K → Map K V → Map K V
  remove k [] = []
  remove k ((j, w) ∷ m) = let rest = remove k m in if j == k then rest else (j, w) ∷ rest

  pub lookup-insert :
      (key j : K) (value : V) (others : Map K V)
      → lookup j (insert key value others) ≡ (if key == j then some value else lookup j others)
  unfolding lookup insert
  lookup-insert key j value [] = refl
  lookup-insert key j value ((i, old) ∷ others) =
      ground
        (arith, lookup-insert key j value others, e.beq_iff key j, e.beq_iff i j, e.beq_iff i key)

  pub lookup-insert_self :
      (key : K) (value : V) (others : Map K V) → lookup key (insert key value others) ≡ some value
  lookup-insert_self key value others =
      lookup-insert key key value others ∙ ground (arith, (e.beq_iff key key).1 refl)

  pub lookup-remove :
      (k j : K) (m : Map K V) → lookup j (remove k m) ≡ (if k == j then none else lookup j m)
  unfolding lookup remove
  lookup-remove k j [] = ground arith
  lookup-remove k j ((i, w) ∷ m) =
      ground (arith, e.beq_iff i k, e.beq_iff i j, e.beq_iff k j, lookup-remove k j m)

  pub size-insert_new :
      (k : K) (v : V) (m : Map K V) → lookup k m ≡ none → size (insert k v m) ≡ size m + 1
  unfolding lookup insert size
  size-insert_new k v [] h = omega arith
  size-insert_new k v ((i, w) ∷ m) h = ground (arith, size-insert_new k v m)

  pub size-insert_old :
      (k : K) (v w : V) (m : Map K V) → lookup k m ≡ some w → size (insert k v m) ≡ size m
  unfolding lookup insert size
  size-insert_old k v w [] h = ground arith
  size-insert_old k v w ((i, u) ∷ m) h = ground (arith, size-insert_old k v w m)

  pub remove_absent : (k : K) (m : Map K V) → lookup k m ≡ none → remove k m ≡ m
  unfolding lookup remove
  remove_absent k [] h = refl
  remove_absent k ((i, u) ∷ m) h = ground (arith, remove_absent k m)

  -- No key stands twice.
  abbrev pub IsMap : Map K V → Type ℓ
  IsMap [] = Unit
  IsMap ((k, v) ∷ m) = (lookup k m ≡ none) × IsMap m

  pub insert-IsMap : (k : K) (v : V) (m : Map K V) → IsMap m → IsMap (insert k v m)
  unfolding lookup insert
  insert-IsMap k v [] h = (refl, tt)
  insert-IsMap k v ((i, w) ∷ m) h =
      ground (arith, e.beq_iff i k, e.beq_iff k i, insert-IsMap k v m h.1, lookup-insert k i v m)

  pub remove-IsMap : (k : K) (m : Map K V) → IsMap m → IsMap (remove k m)
  unfolding lookup remove
  remove-IsMap k [] h = tt
  remove-IsMap k ((i, w) ∷ m) h =
      ground (arith, e.beq_iff i k, e.beq_iff k i, remove-IsMap k m h.1, lookup-remove k i m)

  pub size-remove :
      (k : K) (v : V) (m : Map K V) → IsMap m → lookup k m ≡ some v → size (remove k m) + 1 ≡ size m
  unfolding lookup remove size
  size-remove k v [] u h = ground arith
  size-remove k v ((i, w) ∷ m) u h =
      ground (arith, e.beq_iff i k, size-remove k v m u.1, remove_absent k m)
