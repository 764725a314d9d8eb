-- ===== src/Feed/DeepPlus/Totals.antt =====
-- src/deepplus.h: a level as the sum of the orders that rest on it, and `addLevel`.
use mega_feed_handler.Base.{
  ℕ, ◌+◌, ◌-◌, ◌≡◌, refl, List, Bool, true, false, ◌&&◌, if◌then◌else◌, arith, Bool-cases, inl, inr,
  ap, ◌∙◌,
}
use mega_feed_handler.Base.Int.{ℤ, pos, sub_ℕ, ◌+ℤ◌, ltb_ℤ, eqb_ℤ, eqb_ℤ_iff}
use mega_feed_handler.Base.HashMap.{
  HashMap, nat_key, int_key, text_key, text_eq, text_eq_iff, find_or, find_or-insert, find_or-erase,
}
use mega_feed_handler.Wire.Hash.{c_string}
use mega_feed_handler.Feed.DeepPlus.Defs.{
  Level, empty_level, Order, DeepPlusDecoder, side_of, with_side, add_to_side, add_level,
}
use mega_feed_handler.Feed.DeepPlus.Weights.{IsUnique, weight}

-- The size at a price, on a side of a symbol.
abbrev pub level_of : DeepPlusDecoder → List ℕ → Bool → ℤ → ℤ
level_of d name side price =
    find_or price (pos 0) (side_of side (find_or name empty_level d.levels))

abbrev pub same_side : Bool → Bool → Bool
same_side true t = t
same_side false true = false
same_side false false = true

-- Whether an order rests there.
abbrev pub rests_on : List ℕ → Bool → ℤ → Order → Bool
rests_on name side price o =
    text_eq (c_string o.symbol) name && same_side o.side side && eqb_ℤ o.price price

abbrev pub size_on : List ℕ → Bool → ℤ → Order → ℕ
size_on name side price o = if rests_on name side price o then o.size else 0

abbrev pub clamp : ℤ → ℤ
clamp t = if ltb_ℤ (pos 0) t then t else pos 0

clamp-add : (r a b : ℕ) → clamp (pos r +ℤ sub_ℕ a b) ≡ pos (r + a - b)
unfolding ◌+ℤ◌
clamp-add r a b = ground arith

add_to_side-find :
    (price p : ℤ) (delta : ℤ) (sizes : HashMap ℤ ℤ)
    → find_or p (pos 0) (add_to_side price delta sizes).0 ≡ (
        if eqb_ℤ price p
        then clamp (find_or price (pos 0) sizes +ℤ delta)
        else find_or p (pos 0) sizes)
unfolding add_to_side
add_to_side-find price p delta sizes =
    let t : ℤ = find_or price (pos 0) sizes +ℤ delta in
    elim (Bool-cases (ltb_ℤ (pos 0) t)) [
      | inl up ↦ simp up (find_or-insert price p t (pos 0) sizes)
      | inr down ↦ simp down (find_or-erase price p (pos 0) sizes)
    ]

side_of-with_side :
    (s t : Bool) (m : HashMap ℤ ℤ) (l : Level)
    → side_of t (with_side s m l) ≡ (if same_side s t then m else side_of t l)
unfolding side_of with_side
side_of-with_side true true m l = refl
side_of-with_side true false m l = refl
side_of-with_side false true m l = refl
side_of-with_side false false m l = refl

same_side_eq : (s t : Bool) → same_side s t ≡ true → s ≡ t
same_side_eq true true e = refl
same_side_eq true false e = absurd (ground (arith, e))
same_side_eq false true e = absurd (ground (arith, e))
same_side_eq false false e = refl

add_level_orders :
    (order : Order) (delta : ℤ) (timestamp : ℕ) (d : DeepPlusDecoder)
    → (add_level order delta timestamp d).0.orders ≡ d.orders
unfolding add_level
add_level_orders order delta timestamp d = refl

-- `addLevel` changes the one size that the order names.
pub add_level-level_of :
    (order : Order) (delta : ℤ) (timestamp : ℕ) (d : DeepPlusDecoder) (n : List ℕ) (s : Bool)
    (p : ℤ)
    → level_of (add_level order delta timestamp d).0 n s p
      ≡ (if rests_on n s p order then clamp (level_of d n s p +ℤ delta) else level_of d n s p)
unfolding add_level
add_level-level_of order delta timestamp d n s p =
    let name : List ℕ = c_string order.symbol in
    let level : Level = find_or name empty_level d.levels in
    let sizes : HashMap ℤ ℤ = (add_to_side order.price delta (side_of order.side level)).0 in
    let stored = find_or-insert name n (with_side order.side sizes level) empty_level d.levels in
    rw stored (elim (Bool-cases (text_eq name n)) [
      | inr other ↦ simp other refl
      | inl hit ↦
          let at : name ≡ n = (text_eq_iff name n).0 hit in
          let there : level ≡ find_or n empty_level d.levels =
            ap (λ i. find_or i empty_level d.levels) at in
          elim (Bool-cases (same_side order.side s)) [
            | inr across ↦
                simp (hit, across, side_of-with_side order.side s sizes level)
                  (ap (λ l. find_or p (pos 0) (side_of s l)) there)
            | inl here ↦
                let value : find_or p (pos 0) (side_of order.side level) ≡ level_of d n s p =
                  ap (λ t. find_or p (pos 0) (side_of t level)) (same_side_eq order.side s here)
                  ∙ ap (λ l. find_or p (pos 0) (side_of s l)) there in
                simp
                  (
                    hit,
                    here,
                    side_of-with_side order.side s sizes level,
                    add_to_side-find order.price p delta (side_of order.side level),
                  )
                  (elim (Bool-cases (eqb_ℤ order.price p)) [
                    | inr elsewhere ↦ simp elsewhere value
                    | inl same ↦ simp same (
                        ap (λ t. clamp (t +ℤ delta))
                          (ap (λ q. find_or q (pos 0) (side_of order.side level))
                              ((eqb_ℤ_iff order.price p).0 same)
                            ∙ value))
                  ])
          ]
    ])

pub whole : (n : ℕ) → pos n ≡ sub_ℕ n 0
whole n = ground arith

-- Every level is the sum of the sizes of the orders that rest on it, and an id names one order.
pub record IsConsistent (d : DeepPlusDecoder) : Type 0 where
  pub unique : IsUnique d.orders
  pub totals :
      (name : List ℕ) (side : Bool) (price : ℤ)
      → level_of d name side price ≡ pos (weight (size_on name side price) d.orders)

-- A size that was a sum stays one, when `fresh` comes to it and `old` leaves it, as in the sum.
pub total_lem :
    (hit : Bool) (sum sum' old fresh : ℕ) (v v' : ℤ)
    → v ≡ pos sum
    → v' ≡ (if hit then clamp (v +ℤ sub_ℕ fresh old) else v)
    → sum' + (if hit then old else 0) ≡ sum + (if hit then fresh else 0)
    → v' ≡ pos sum'
total_lem true sum sum' old fresh v v' e e' w =
    e'
    ∙ (ap (λ t. clamp (t +ℤ sub_ℕ fresh old)) e
        ∙ (clamp-add sum fresh old ∙ ap pos (omega (arith, w))))
total_lem false sum sum' old fresh v v' e e' w = e' ∙ (e ∙ ap pos (omega (arith, w)))
