-- ===== src/Base/OrdMap.antt =====
-- `std::map` and `std::set` of the standard library: entries in the order of their keys, one for
-- a key. The comparator is an instance; `erase` drops every entry with the key.
use mathlib.Core.List.{List, [], ◌∷◌}
use mathlib.Core.Path.{◌≡◌, refl}
use mathlib.Core.Logic.{◌↔◌}
use mathlib.Core.Bool.{Bool, true, false}
use mathlib.Core.Option.{Option, none, some}
use Prim.Native.Nat.{ℕ, ◌≤◌, ◌<◌}
use native.Mathlib.Omega.{arith}
use mega_feed_handler.Base.Tests.{if◌then◌else◌, is_some, ltb, ◌==◌, ==_iff}
use mega_feed_handler.Base.Lists.{length}

pub record Order {ℓ} (K : Type ℓ) : Type ℓ where
  pub before : K → K → Bool
  pub same : K → K → Bool
  pub same_iff : (a b : K) → (same a b ≡ true) ↔ (a ≡ b)
  pub irreflexive : (a : K) → before a a ≡ false
  pub transitive : (a b c : K) → before a b ≡ true → before b c ≡ true → before a c ≡ true
  pub total : (a b : K) → before a b ≡ false → before b a ≡ false → a ≡ b

pub ascending_total : (a b : ℕ) → ltb a b ≡ false → ltb b a ≡ false → a ≡ b
ascending_total a b p q = ground arith

pub ascending_transitive : (a b c : ℕ) → ltb a b ≡ true → ltb b c ≡ true → ltb a c ≡ true
ascending_transitive a b c p q = ground arith

pub ascending_irreflexive : (a : ℕ) → ltb a a ≡ false
ascending_irreflexive a = ground arith

instance abbrev pub ascending : Order ℕ
ascending = record {
  before = ltb;
  same = ◌==◌;
  same_iff = ==_iff;
  irreflexive = ascending_irreflexive;
  transitive = ascending_transitive;
  total = ascending_total;
}

abbrev pub OrdMap {ℓ κ} : Type ℓ → Type κ → Type (ℓ ⊔ κ)
OrdMap K V = List (K × V)

module _ {ℓ κ} {K : Type ℓ} {V : Type κ} where
  -- `begin()`
  unfoldable pub first : OrdMap K V → Option (K × V)
  first [] = none
  first (e ∷ m) = some e

module _ {ℓ κ} {K : Type ℓ} {V : Type κ} ⦃o : Order K⦄ where
  unfoldable pub find : K → OrdMap K V → Option V
  find k [] = none
  find k ((j, v) ∷ m) = if o.same j k then some v else find k m

  -- `count(k) != 0`
  unfoldable pub contains : K → OrdMap K V → Bool
  contains k m = is_some (find k m)

  -- `m[k] = v`
  unfoldable pub insert : K → V → OrdMap K V → OrdMap K V
  insert k v [] = (k, v) ∷ []
  insert k v ((j, w) ∷ m) =
      if o.same j k
      then (k, v) ∷ m
      else (if o.before k j then (k, v) ∷ (j, w) ∷ m else (j, w) ∷ insert k v m)

  unfoldable pub erase : K → OrdMap K V → OrdMap K V
  erase k [] = []
  erase k ((j, w) ∷ m) = if o.same j k then erase k m else (j, w) ∷ erase k m

  pub find-insert :
      (k j : K) (v : V) (m : OrdMap K V)
      → find j (insert k v m) ≡ (if o.same k j then some v else find j m)
  unfolding find insert
  find-insert k j v [] = refl
  find-insert k j v ((i, w) ∷ m) =
      ground (arith, o.same_iff k j, o.same_iff i k, o.same_iff i j, find-insert k j v m)

  pub find-erase :
      (k j : K) (m : OrdMap K V) → find j (erase k m) ≡ (if o.same k j then none else find j m)
  unfolding find erase
  find-erase k j [] = ground arith
  find-erase k j ((i, w) ∷ m) =
      ground (arith, o.same_iff k j, o.same_iff i k, o.same_iff i j, find-erase k j m)

  length-erase_le : (k : K) (m : OrdMap K V) → length (erase k m) ≤ length m
  unfolding erase
  length-erase_le k [] = omega arith
  length-erase_le k ((i, w) ∷ m) = ground (arith, length-erase_le k m)

  pub length-erase :
      (k : K) (m : OrdMap K V) (v : V) → find k m ≡ some v → length (erase k m) < length m
  unfolding find erase
  length-erase k [] v h = ground arith
  length-erase k ((i, w) ∷ m) v h = ground (arith, length-erase_le k m, length-erase k m v)

module _ {ℓ κ} {K : Type ℓ} {V : Type κ} ⦃o : Order K⦄ where
  pub contains-insert :
      (k j : K) (v : V) (m : OrdMap K V)
      → contains j (insert k v m) ≡ (if o.same k j then true else contains j m)
  unfolding contains
  contains-insert k j v m = ground (arith, find-insert k j v m)

  pub contains-erase :
      (k j : K) (m : OrdMap K V)
      → contains j (erase k m) ≡ (if o.same k j then false else contains j m)
  unfolding contains
  contains-erase k j m = ground (arith, find-erase k j m)

  pub contains_of_find : (k : K) (v : V) (m : OrdMap K V) → find k m ≡ some v → contains k m ≡ true
  unfolding contains
  contains_of_find k v m h = rw h

  pub contains_of_none : (k : K) (m : OrdMap K V) → find k m ≡ none → contains k m ≡ false
  unfolding contains
  contains_of_none k m h = rw h

  pub find_of_contains :
      (k : K) (m : OrdMap K V) → contains k m ≡ true → (v : V) × (find k m ≡ some v)
  unfolding contains
  find_of_contains k m h = ground arith
