-- ===== src/Prelude/Maps.antt =====
-- `std::map` as a list of entries in key order. The laws need only the test of equality.
use Prim.Native.Nat.{◌+◌, ◌≤◌}
use mathlib.Core.Path.{◌≡◌, refl}
use mathlib.Core.Logic.{◌↔◌}
use mathlib.Core.Bool.{Bool, true, false}
use mathlib.Core.List.{List, [], ◌∷◌}
use mathlib.Core.Option.{Option, none, some}
use native.Mathlib.Omega.{arith}
use mathlib.Core.Logic.{inl, inr}
use p2p_demo.Prelude.Tests.{if◌then◌else◌, Bool-cases}
use p2p_demo.Prelude.Lists.{length, All}

-- What `std::less` gives a map: the order of keys, and when two keys are one.
pub record Key {ℓ} (K : Type ℓ) : Type ℓ where
  pub same : K → K → Bool
  pub before : K → K → Bool
  pub same_iff : (a b : K) → (same a b ≡ true) ↔ (a ≡ b)
  pub before_irrefl : (a : K) → before a a ≡ false
  pub before_trans : (a b c : K) → before a b ≡ true → before b c ≡ true → before a c ≡ true
  pub before_total : (a b : K) → same a b ≡ false → before b a ≡ false → before a b ≡ true

module _ {ℓ κ} {K : Type ℓ} ⦃o : Key K⦄ {V : Type κ} where
  unfoldable pub lookup : K → List (K × V) → Option V
  lookup k [] = none
  lookup k ((j, v) ∷ m) = if o.same j k then some v else lookup k m

  unfoldable pub insert : K → V → List (K × V) → List (K × V)
  insert k v [] = (k, v) ∷ []
  insert k v ((j, w) ∷ m) =
      if o.same j k
      then (k, v) ∷ m
      else if o.before k j
      then (k, v) ∷ (j, w) ∷ m
      else (j, w) ∷ insert k v m

  unfoldable pub erase : K → List (K × V) → List (K × V)
  erase k [] = []
  erase k ((j, w) ∷ m) = if o.same j k then erase k m else (j, w) ∷ erase k m

  pub lookup-insert :
      (k j : K) (v : V) (m : List (K × V))
      → lookup j (insert k v m) ≡ (if o.same k j then some v else lookup j m)
  unfolding lookup insert
  lookup-insert k j v [] = refl
  lookup-insert k j v ((i, w) ∷ m) =
      ground (arith, o.same_iff k j, o.same_iff i k, o.same_iff i j, lookup-insert k j v m)

  pub lookup-erase :
      (k j : K) (m : List (K × V))
      → lookup j (erase k m) ≡ (if o.same k j then none else lookup j m)
  unfolding lookup erase
  lookup-erase k j [] = ground arith
  lookup-erase k j ((i, w) ∷ m) =
      ground (arith, o.same_iff k j, o.same_iff i k, o.same_iff i j, lookup-erase k j m)

  pub length-insert : (k : K) (v : V) (m : List (K × V)) → length (insert k v m) ≤ length m + 1
  unfolding insert
  length-insert k v [] = omega arith
  length-insert k v ((j, w) ∷ m) = ground (arith, length-insert k v m)

  pub length-erase : (k : K) (m : List (K × V)) → length (erase k m) ≤ length m
  unfolding erase
  length-erase k [] = omega arith
  length-erase k ((j, w) ∷ m) = ground (arith, length-erase k m)

module _ {ℓ} {K : Type ℓ} ⦃o : Key K⦄ {V : Type 0} where
  -- The keys stand in strictly rising order, so no key stands twice.
  abbrev pub IsSorted : List (K × V) → Type 0
  IsSorted [] = Unit {0}
  IsSorted ((k, v) ∷ m) = All (λ (e : K × V). o.before k e.0 ≡ true) m × IsSorted m

  pub lookup_below :
      (k : K) (m : List (K × V)) → All (λ (e : K × V). o.before k e.0 ≡ true) m → lookup k m ≡ none
  unfolding lookup
  lookup_below k [] h = refl
  lookup_below k ((j, v) ∷ m) h =
      ground (arith, h.0, o.same_iff j k, o.before_irrefl k, lookup_below k m h.1)

  All-insert :
      (P : K → Type 0) (k : K) (v : V) (m : List (K × V))
      → P k
      → All (λ (e : K × V). P e.0) m
      → All (λ (e : K × V). P e.0) (insert k v m)
  unfolding insert
  All-insert P k v [] hk h = (hk, tt)
  All-insert P k v ((j, w) ∷ m) hk h = elim (Bool-cases (o.same j k)) [
    | inl same ↦ rw same (hk, h.1)
    | inr other ↦ elim (Bool-cases (o.before k j)) [
      | inl front ↦ rw (other, front) (hk, h)
      | inr later ↦ rw (other, later) (h.0, All-insert P k v m hk h.1)
    ]
  ]

  All-erase :
      (P : K → Type 0) (k : K) (m : List (K × V))
      → All (λ (e : K × V). P e.0) m
      → All (λ (e : K × V). P e.0) (erase k m)
  unfolding erase
  All-erase P k [] h = tt
  All-erase P k ((j, w) ∷ m) h = elim (Bool-cases (o.same j k)) [
    | inl same ↦ rw same (All-erase P k m h.1)
    | inr other ↦ rw other (h.0, All-erase P k m h.1)
  ]

  All-before :
      (j k : K) (m : List (K × V))
      → o.before j k ≡ true
      → All (λ (e : K × V). o.before k e.0 ≡ true) m
      → All (λ (e : K × V). o.before j e.0 ≡ true) m
  All-before j k [] h hs = tt
  All-before j k ((i, w) ∷ m) h hs = (o.before_trans j k i h hs.0, All-before j k m h hs.1)

  pub insert-IsSorted : (k : K) (v : V) (m : List (K × V)) → IsSorted m → IsSorted (insert k v m)
  unfolding insert
  insert-IsSorted k v [] h = (tt, tt)
  insert-IsSorted k v ((j, w) ∷ m) h = elim (Bool-cases (o.same j k)) [
    | inl same ↦ rw same (rw ((o.same_iff j k).0 same) at h.0, h.1)
    | inr other ↦ elim (Bool-cases (o.before k j)) [
      | inl front ↦ rw (other, front) ((front, All-before k j m front h.0), h)
      | inr later ↦
          rw (other, later)
            (
              All-insert (λ e. o.before j e ≡ true) k v m (o.before_total j k other later) h.0,
              insert-IsSorted k v m h.1,
            )
    ]
  ]

  pub erase-IsSorted : (k : K) (m : List (K × V)) → IsSorted m → IsSorted (erase k m)
  unfolding erase
  erase-IsSorted k [] h = tt
  erase-IsSorted k ((j, w) ∷ m) h = elim (Bool-cases (o.same j k)) [
    | inl same ↦ rw same (erase-IsSorted k m h.1)
    | inr other ↦ rw other (All-erase (λ e. o.before j e ≡ true) k m h.0, erase-IsSorted k m h.1)
  ]
