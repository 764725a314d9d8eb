-- ===== src/Book/Touch.antt =====
-- src/book.h: the touch and the test for a crossed book, against every level of the book.
use mega_feed_handler.Base.{
  ℕ, ◌≡◌, ◌↔◌, ◌⊎◌, inl, inr, refl, [], ◌∷◌, true, none, some, arith, lt→ltb, ltb→lt,
}
use mega_feed_handler.Base.Int.{ℤ, pos, ltb_ℤ, ◌≤ℤ◌, ◌<ℤ◌}
use mega_feed_handler.Base.OrdMap.{Order, OrdMap, first, find}
use mega_feed_handler.Base.Sorted.{Sorted, first-find, first-le}
use mega_feed_handler.Book.Prices.{bid_order, ask_order}
use mega_feed_handler.Book.Defs.{Book, bbo, is_uncrossed}
use mega_feed_handler.Book.Levels.{bid_level, ask_level, IsValid}

abbrev touch : OrdMap ℤ ℕ → ℤ × ℕ
touch side = elim (first side) [ none ↦ (pos 0, 0) | some e ↦ e ]

-- `price` and `size` are the best level of a side: it stands there, and no level is better. A side
-- with no level reads as zero.
abbrev IsBest : Order ℤ → (ℤ → ℤ → Type 0) → OrdMap ℤ ℕ → ℤ → ℕ → Type 0
IsBest o better_or_equal side price size =
    ((side ≡ []) × (price ≡ pos 0) × (size ≡ 0))
    ⊎ ((find ⦃o = o⦄ price side ≡ some size)
        × ((p : ℤ) (n : ℕ) → find ⦃o = o⦄ p side ≡ some n → better_or_equal price p))

abbrev pub IsBestBid : Book → ℤ → ℕ → Type 0
IsBestBid b price size =
    ((b.bids ≡ []) × (price ≡ pos 0) × (size ≡ 0))
    ⊎ ((bid_level b price ≡ some size) × ((p : ℤ) (n : ℕ) → bid_level b p ≡ some n → p ≤ℤ price))

abbrev pub IsBestAsk : Book → ℤ → ℕ → Type 0
IsBestAsk b price size =
    ((b.asks ≡ []) × (price ≡ pos 0) × (size ≡ 0))
    ⊎ ((ask_level b price ≡ some size) × ((p : ℤ) (n : ℕ) → ask_level b p ≡ some n → price ≤ℤ p))

module _ (o : Order ℤ) (R : ℤ → ℤ → Type 0)
    (ordered : (k p : ℤ) → (k ≡ p) ⊎ (o.before k p ≡ true) → R k p) where
  touch-IsBest :
      (side : OrdMap ℤ ℕ) → Sorted ⦃o = o⦄ side → IsBest o R side (touch side).0 (touch side).1
  unfolding first
  touch-IsBest [] s = inl (refl, refl, refl)
  touch-IsBest ((k, v) ∷ m) s = inr (
    first-find ⦃o = o⦄ k v ((k, v) ∷ m) refl,
    λ p n e. ordered k p (first-le ⦃o = o⦄ k p v n ((k, v) ∷ m) s refl e),
  )

bid_ordered : (k p : ℤ) → (k ≡ p) ⊎ (ltb_ℤ p k ≡ true) → p ≤ℤ k
bid_ordered k p (inl e) = rw e (omega arith)
bid_ordered k p (inr h) = omega (arith, ltb→lt _ _ h)

ask_ordered : (k p : ℤ) → (k ≡ p) ⊎ (ltb_ℤ k p ≡ true) → k ≤ℤ p
ask_ordered k p (inl e) = rw e (omega arith)
ask_ordered k p (inr h) = omega (arith, ltb→lt _ _ h)

-- In a valid book `bbo` gives the highest bid and the lowest ask with the sizes that stand there,
-- and zero for a side with no level.
pub bbo_best :
    (b : Book)
    → IsValid b
    → IsBestBid b (bbo b).bid_price (bbo b).bid_size
      × IsBestAsk b (bbo b).ask_price (bbo b).ask_size
unfolding bbo
bbo_best b v = (
  touch-IsBest bid_order (λ k p. p ≤ℤ k) bid_ordered b.bids v.bids_sorted,
  touch-IsBest ask_order (λ k p. k ≤ℤ p) ask_ordered b.asks v.asks_sorted,
)

-- Every bid lies below every ask.
abbrev pub IsUncrossed : Book → Type 0
IsUncrossed b = (p q : ℤ) (n k : ℕ) → bid_level b p ≡ some n → ask_level b q ≡ some k → p <ℤ q

is_uncrossed_sides :
    (bids asks : OrdMap ℤ ℕ)
    → Sorted ⦃o = bid_order⦄ bids
    → Sorted ⦃o = ask_order⦄ asks
    → (is_uncrossed (record { bids = bids; asks = asks }) ≡ true)
      ↔ IsUncrossed (record { bids = bids; asks = asks })
unfolding is_uncrossed first find
is_uncrossed_sides [] asks s t = (λ e p q n k h. ground arith, λ e. refl)
is_uncrossed_sides (b ∷ bids) [] s t = (λ e p q n k h g. ground arith, λ e. refl)
is_uncrossed_sides ((bid, n) ∷ bids) ((ask, k) ∷ asks) s t = (
  λ e p q n' k' h g. omega (
    arith,
    bid_ordered bid p (first-le ⦃o = bid_order⦄ bid p n n' ((bid, n) ∷ bids) s refl h),
    ask_ordered ask q (first-le ⦃o = ask_order⦄ ask q k k' ((ask, k) ∷ asks) t refl g),
    ltb→lt _ _ e,
  ),
  λ all. lt→ltb _ _ (
      all bid ask n k (first-find ⦃o = bid_order⦄ bid n ((bid, n) ∷ bids) refl)
        (first-find ⦃o = ask_order⦄ ask k ((ask, k) ∷ asks) refl)),
)

-- The test that `apply` answers with holds exactly when every bid lies below every ask.
pub is_uncrossed_iff : (b : Book) → IsValid b → (is_uncrossed b ≡ true) ↔ IsUncrossed b
is_uncrossed_iff b v = is_uncrossed_sides b.bids b.asks v.bids_sorted v.asks_sorted
