-- ===== src/Base/HashMap.antt =====
-- `std::unordered_map` of the standard library: an association list with one entry for a key.
-- The order of its entries is never read.
use mathlib.Core.List.{List, [], ◌∷◌}
use mathlib.Core.Path.{◌≡◌, refl}
use mathlib.Core.Logic.{◌↔◌}
use mathlib.Core.Bool.{Bool, true, false, ◌&&◌}
use mathlib.Core.Option.{Option, none, some}
use Prim.Native.Nat.{ℕ}
use native.Mathlib.Omega.{arith}
use mega_feed_handler.Base.Tests.{if◌then◌else◌, ◌==◌, ==_iff}
use mega_feed_handler.Base.Int.{ℤ, eqb_ℤ, eqb_ℤ_iff}

-- Equality of keys.
pub record Key {ℓ} (K : Type ℓ) : Type ℓ where
  pub same : K → K → Bool
  pub same_iff : (a b : K) → (same a b ≡ true) ↔ (a ≡ b)

instance abbrev pub nat_key : Key ℕ
nat_key = record { same = ◌==◌; same_iff = ==_iff }

instance abbrev pub int_key : Key ℤ
int_key = record { same = eqb_ℤ; same_iff = eqb_ℤ_iff }

unfoldable pub text_eq : List ℕ → List ℕ → Bool
text_eq [] [] = true
text_eq (a ∷ s) (b ∷ t) = a == b && text_eq s t
text_eq _ _ = false

pub text_eq_iff : (s t : List ℕ) → (text_eq s t ≡ true) ↔ (s ≡ t)
unfolding text_eq
text_eq_iff [] [] = (λ h. refl, λ h. refl)
text_eq_iff [] (b ∷ t) = ground arith
text_eq_iff (a ∷ s) [] = ground arith
text_eq_iff (a ∷ s) (b ∷ t) = ground (arith, text_eq_iff s t)

instance abbrev pub text_key : Key (List ℕ)
text_key = record { same = text_eq; same_iff = text_eq_iff }

abbrev pub HashMap {ℓ κ} : Type ℓ → Type κ → Type (ℓ ⊔ κ)
HashMap K V = List (K × V)

module _ {ℓ κ} {K : Type ℓ} {V : Type κ} ⦃e : Key K⦄ where
  unfoldable pub find : K → HashMap K V → Option V
  find k [] = none
  find k ((j, v) ∷ m) = if e.same j k then some v else find k m

  -- `m[k] = v`
  unfoldable pub insert : K → V → HashMap K V → HashMap K V
  insert k v [] = (k, v) ∷ []
  insert k v ((j, w) ∷ m) = if e.same j k then (k, v) ∷ m else (j, w) ∷ insert k v m

  unfoldable pub erase : K → HashMap K V → HashMap K V
  erase k [] = []
  erase k ((j, w) ∷ m) = if e.same j k then erase k m else (j, w) ∷ erase k m

  -- What `m[k]` refers to: a missing key gets the default value.
  unfoldable pub find_or : K → V → HashMap K V → V
  find_or k d m = elim (find k m) [ none ↦ d | some v ↦ v ]

  pub find-insert :
      (k j : K) (v : V) (m : HashMap K V)
      → find j (insert k v m) ≡ (if e.same k j then some v else find j m)
  unfolding find insert
  find-insert k j v [] = refl
  find-insert k j v ((i, w) ∷ m) =
      ground (arith, e.same_iff k j, e.same_iff i k, e.same_iff i j, find-insert k j v m)

  pub find-erase :
      (k j : K) (m : HashMap K V) → find j (erase k m) ≡ (if e.same k j then none else find j m)
  unfolding find erase
  find-erase k j [] = ground arith
  find-erase k j ((i, w) ∷ m) =
      ground (arith, e.same_iff k j, e.same_iff i k, e.same_iff i j, find-erase k j m)

  pub find_or-insert :
      (k j : K) (v d : V) (m : HashMap K V)
      → find_or j d (insert k v m) ≡ (if e.same k j then v else find_or j d m)
  unfolding find_or
  find_or-insert k j v d m = ground (arith, find-insert k j v m)

  pub find_or-erase :
      (k j : K) (d : V) (m : HashMap K V)
      → find_or j d (erase k m) ≡ (if e.same k j then d else find_or j d m)
  unfolding find_or
  find_or-erase k j d m = ground (arith, find-erase k j m)
