-- ===== src/Base/Sorted.antt =====
-- The order that `std::map` keeps: its operations keep the keys strictly increasing, so `begin()`
-- is the entry with the first key.
use mathlib.Core.List.{[], ◌∷◌}
use mathlib.Core.Path.{◌≡◌, ap}
use mathlib.Core.Logic.{◌⊎◌}
use mathlib.Core.Bool.{true}
use mathlib.Core.Option.{some}
use native.Mathlib.Omega.{arith}
use mega_feed_handler.Base.OrdMap.{Order, OrdMap, first, find, insert, erase}

module _ {ℓ κ} {K : Type ℓ} {V : Type κ} ⦃o : Order K⦄ where
  abbrev pub Above : K → OrdMap K V → Type 0
  Above k [] = Unit
  Above k ((j, v) ∷ m) = (o.before k j ≡ true) × Above k m

  abbrev pub Sorted : OrdMap K V → Type 0
  Sorted [] = Unit
  Sorted ((k, v) ∷ m) = Above k m × Sorted m

  Above-insert :
      (a k : K) (v : V) (m : OrdMap K V) → o.before a k ≡ true → Above a m → Above a (insert k v m)
  unfolding insert
  Above-insert a k v [] b h = (b, tt)
  Above-insert a k v ((j, w) ∷ m) b h = ground (arith, Above-insert a k v m b h.1)

  Above-erase : (a k : K) (m : OrdMap K V) → Above a m → Above a (erase k m)
  unfolding erase
  Above-erase a k [] h = tt
  Above-erase a k ((j, w) ∷ m) h = ground (arith, Above-erase a k m h.1)

  Above-trans : (a b : K) (m : OrdMap K V) → o.before a b ≡ true → Above b m → Above a m
  Above-trans a b [] h s = tt
  Above-trans a b ((j, w) ∷ m) h s = (o.transitive a b j h s.0, Above-trans a b m h s.1)

  pub insert-Sorted : (k : K) (v : V) (m : OrdMap K V) → Sorted m → Sorted (insert k v m)
  unfolding insert
  insert-Sorted k v [] s = (tt, tt)
  insert-Sorted k v ((j, w) ∷ m) s = ground (
    arith,
    o.same_iff j k,
    o.total k j,
    ap (λ i. Above i m) {x = j} {y = k},
    Above-trans k j m,
    Above-insert j k v m,
    insert-Sorted k v m s.1,
  )

  pub erase-Sorted : (k : K) (m : OrdMap K V) → Sorted m → Sorted (erase k m)
  unfolding erase
  erase-Sorted k [] s = tt
  erase-Sorted k ((j, w) ∷ m) s = ground (arith, erase-Sorted k m s.1, Above-erase j k m s.0)

  pub find-Above :
      (a k : K) (v : V) (m : OrdMap K V) → Above a m → find k m ≡ some v → o.before a k ≡ true
  unfolding find
  find-Above a k v [] h e = ground arith
  find-Above a k v ((j, w) ∷ m) h e = ground (arith, o.same_iff j k, find-Above a k v m h.1)

  -- `begin()` holds an entry of the map, and no key comes before its key.
  pub first-find : (k : K) (v : V) (m : OrdMap K V) → first m ≡ some (k, v) → find k m ≡ some v
  unfolding first find
  first-find k v [] e = ground arith
  first-find k v ((j, w) ∷ m) e = ground (arith, o.same_iff j k)

  pub first-le :
      (k j : K) (v w : V) (m : OrdMap K V)
      → Sorted m
      → first m ≡ some (k, v)
      → find j m ≡ some w
      → (k ≡ j) ⊎ (o.before k j ≡ true)
  unfolding first find
  first-le k j v w [] s e h = ground arith
  first-le k j v w ((i, x) ∷ m) s e h = ground (arith, o.same_iff i j, find-Above i j w m s.0)
