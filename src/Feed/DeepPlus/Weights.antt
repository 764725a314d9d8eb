-- ===== src/Feed/DeepPlus/Weights.antt =====
-- src/deepplus.h: the sum of a number over the orders that rest, and what changing one order does
-- to it.
use mega_feed_handler.Base.{
  ℕ, ◌+◌, ◌≡◌, refl, [], ◌∷◌, Option, none, some, arith, Bool-cases, inl, inr, ap, ◌==◌,
}
use mega_feed_handler.Base.HashMap.{HashMap, nat_key, find, insert, erase, find-insert, find-erase}
use mega_feed_handler.Feed.DeepPlus.Defs.{Order}

-- One entry for an id.
abbrev pub IsUnique : HashMap ℕ Order → Type 0
IsUnique [] = Unit
IsUnique ((k, o) ∷ m) = (find k m ≡ none) × IsUnique m

pub insert-IsUnique :
    (id : ℕ) (order : Order) (m : HashMap ℕ Order) → IsUnique m → IsUnique (insert id order m)
unfolding insert find
insert-IsUnique id order [] u = (refl, tt)
insert-IsUnique id order ((k, o) ∷ m) u = ground (
  arith,
  insert-IsUnique id order m u.1,
  find-insert id k order m,
  ap (λ i. find i m) {x = k} {y = id},
)

pub erase-IsUnique : (id : ℕ) (m : HashMap ℕ Order) → IsUnique m → IsUnique (erase id m)
unfolding erase
erase-IsUnique id [] u = tt
erase-IsUnique id ((k, o) ∷ m) u = ground (arith, erase-IsUnique id m u.1, find-erase id k m)

module _ (w : Order → ℕ) where
  unfoldable pub weight : HashMap ℕ Order → ℕ
  weight [] = 0
  weight ((k, o) ∷ m) = w o + weight m

  abbrev pub weight? : Option Order → ℕ
  weight? none = 0
  weight? (some o) = w o

  pub weight-insert :
      (id : ℕ) (order : Order) (m : HashMap ℕ Order)
      → weight (insert id order m) + weight? (find id m) ≡ weight m + w order
  unfolding weight insert find
  weight-insert id order [] = ground arith
  weight-insert id order ((k, o) ∷ m) = elim (Bool-cases (k == id)) [
    | inl hit ↦ simp hit (ground arith)
    | inr miss ↦ simp miss (ground (arith, weight-insert id order m))
  ]

  erase_absent : (id : ℕ) (m : HashMap ℕ Order) → find id m ≡ none → weight (erase id m) ≡ weight m
  unfolding weight erase find
  erase_absent id [] e = refl
  erase_absent id ((k, o) ∷ m) e = elim (Bool-cases (k == id)) [
    | inl hit ↦ absurd (ground (arith, simp hit at e))
    | inr miss ↦ simp miss (ground (arith, erase_absent id m (simp miss at e)))
  ]

  pub weight-erase :
      (id : ℕ) (m : HashMap ℕ Order)
      → IsUnique m
      → weight (erase id m) + weight? (find id m) ≡ weight m
  unfolding weight erase find
  weight-erase id [] u = ground arith
  weight-erase id ((k, o) ∷ m) u = elim (Bool-cases (k == id)) [
    | inl hit ↦
        let same : find id m ≡ none = ground (arith, u.0, ap (λ i. find i m) {x = k} {y = id}) in
        simp hit (ground (arith, erase_absent id m same))
    | inr miss ↦ simp miss (ground (arith, weight-erase id m u.1))
  ]
