-- ===== src/Book/Levels.antt =====
-- src/book.h: what a book holds, level by level, and what its touch says.
use mega_feed_handler.Base.{
  ℕ, ◌<◌, ◌≡◌, inl, inr, Option, none, some, ◌==◌, if◌then◌else◌, arith, Bool-cases,
}
use mega_feed_handler.Base.Int.{ℤ, eqb_ℤ}
use mega_feed_handler.Base.OrdMap.{Order, OrdMap, find, find-insert, find-erase}
use mega_feed_handler.Base.Sorted.{Sorted, insert-Sorted, erase-Sorted}
use mega_feed_handler.Book.Prices.{bid_order, ask_order}
use mega_feed_handler.Wire.Message.{OrderMessage}
use mega_feed_handler.Book.Defs.{Book, apply, update_side}

-- The size that stands at a price, if any.
abbrev pub bid_level : Book → ℤ → Option ℕ
bid_level b p = find ⦃o = bid_order⦄ p b.bids

abbrev pub ask_level : Book → ℤ → Option ℕ
ask_level b p = find ⦃o = ask_order⦄ p b.asks

-- What an update leaves at its own price.
abbrev pub level_after : ℕ → Option ℕ
level_after size = if size == 0 then none else some size

update_side-find :
    (o : Order ℤ) (m : OrderMessage) (p : ℤ) (side : OrdMap ℤ ℕ)
    → find ⦃o = o⦄ p (update_side o m side)
      ≡ (if o.same m.price p then level_after m.size else find ⦃o = o⦄ p side)
unfolding update_side
update_side-find o m p side =
    ground (arith, find-insert ⦃o = o⦄ m.price p m.size side, find-erase ⦃o = o⦄ m.price p side)

-- A book whose levels are in order and none of which is empty.
pub record IsValid (b : Book) : Type 0 where
  pub bids_sorted : Sorted ⦃o = bid_order⦄ b.bids
  pub asks_sorted : Sorted ⦃o = ask_order⦄ b.asks
  pub bids_filled : (p : ℤ) (n : ℕ) → bid_level b p ≡ some n → 0 < n
  pub asks_filled : (p : ℤ) (n : ℕ) → ask_level b p ≡ some n → 0 < n

-- Every message changes at most the level that it names, on its own side: a buy or a sell sets
-- the level to its size, or deletes it at size zero, and any other message changes nothing.
pub apply_levels :
    (b : Book) (m : OrderMessage) (p : ℤ)
    → (bid_level (apply b m).0 p ≡ (
        if m.type == b'B'
        then (if eqb_ℤ m.price p then level_after m.size else bid_level b p)
        else bid_level b p))
      × (ask_level (apply b m).0 p ≡ (
          if m.type == b'S'
          then (if eqb_ℤ m.price p then level_after m.size else ask_level b p)
          else ask_level b p))
unfolding apply
apply_levels b m p =
    ground (arith, update_side-find bid_order m p b.bids, update_side-find ask_order m p b.asks)

update_side-Sorted :
    (o : Order ℤ) (m : OrderMessage) (side : OrdMap ℤ ℕ)
    → Sorted ⦃o = o⦄ side
    → Sorted ⦃o = o⦄ (update_side o m side)
unfolding update_side
update_side-Sorted o m side s = elim (Bool-cases (m.size == 0)) [
  | inl e ↦ rw e (erase-Sorted ⦃o = o⦄ m.price side s)
  | inr e ↦ rw e (insert-Sorted ⦃o = o⦄ m.price m.size side s)
]

update_side-filled :
    (o : Order ℤ) (m : OrderMessage) (side : OrdMap ℤ ℕ)
    → ((p : ℤ) (n : ℕ) → find ⦃o = o⦄ p side ≡ some n → 0 < n)
    → (p : ℤ) (n : ℕ) → find ⦃o = o⦄ p (update_side o m side) ≡ some n
    → 0 < n
update_side-filled o m side h p n e = ground (arith, update_side-find o m p side, h p n)

-- Every message keeps the levels in order and none of them empty: there are no ghost prices.
pub apply-IsValid : (b : Book) (m : OrderMessage) → IsValid b → IsValid (apply b m).0
apply-IsValid b m v = elim (Bool-cases (m.type == b'B')) [
  | inl buy ↦
      unfold apply in
      rw buy (record {
        bids_sorted = update_side-Sorted bid_order m b.bids v.bids_sorted;
        asks_sorted = v.asks_sorted;
        bids_filled = update_side-filled bid_order m b.bids v.bids_filled;
        asks_filled = v.asks_filled;
      })
  | inr other ↦ elim (Bool-cases (m.type == b'S')) [
    | inl sell ↦
        unfold apply in
        rw (other, sell)
          (record {
            bids_sorted = v.bids_sorted;
            asks_sorted = update_side-Sorted ask_order m b.asks v.asks_sorted;
            bids_filled = v.bids_filled;
            asks_filled = update_side-filled ask_order m b.asks v.asks_filled;
          })
    | inr neither ↦ unfold apply in rw (other, neither) v
  ]
]
