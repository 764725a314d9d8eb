-- ===== src/Book/Defs.antt =====
-- src/book.h: Bbo, Book and BookSet. What is printed is left out.
use mega_feed_handler.Base.{ℕ, [], Bool, true, not, ◌||◌, none, some, ◌==◌, if◌then◌else◌}
use mega_feed_handler.Base.Int.{ℤ, pos, ltb_ℤ, eqb_ℤ}
use mega_feed_handler.Base.OrdMap.{Order, OrdMap, first, insert, erase}
use mega_feed_handler.Book.Prices.{bid_order, ask_order}
use mega_feed_handler.Wire.Message.{OrderMessage}

-- The best bid and offer.
pub record Bbo : Type 0 where
  pub bid_price : ℤ
  pub bid_size : ℕ
  pub ask_price : ℤ
  pub ask_size : ℕ

abbrev pub empty_bbo : Bbo
empty_bbo = record { bid_price = pos 0; bid_size = 0; ask_price = pos 0; ask_size = 0 }

-- `operator!=`
unfoldable pub differs : Bbo → Bbo → Bool
differs a b =
    not (eqb_ℤ a.bid_price b.bid_price)
    || not (a.bid_size == b.bid_size)
    || not (eqb_ℤ a.ask_price b.ask_price)
    || not (a.ask_size == b.ask_size)

pub record Book : Type 0 where
  pub bids : OrdMap ℤ ℕ
  pub asks : OrdMap ℤ ℕ

abbrev pub empty_book : Book
empty_book = record { bids = []; asks = [] }

-- A message of size zero deletes its level, any other sets it.
unfoldable pub update_side : Order ℤ → OrderMessage → OrdMap ℤ ℕ → OrdMap ℤ ℕ
update_side o m side =
    if m.size == 0 then erase ⦃o = o⦄ m.price side else insert ⦃o = o⦄ m.price m.size side

-- The answer of `Book::apply` for the book after the change.
unfoldable pub is_uncrossed : Book → Bool
is_uncrossed b = elim (first b.bids) [
  | none ↦ true
  | some bid ↦ elim (first b.asks) [ none ↦ true | some ask ↦ ltb_ℤ bid.0 ask.0 ]
]

-- `Book::apply`: the new book, and `false` for an impossible one.
unfoldable pub apply : Book → OrderMessage → Book × Bool
unfolding update_side is_uncrossed
apply b m =
    if m.type == b'B'
    then (let b' = record b { bids = update_side bid_order m b.bids } in (b', is_uncrossed b'))
    else (if m.type == b'S'
        then (let b' = record b { asks = update_side ask_order m b.asks } in (b', is_uncrossed b'))
        else (b, true))

unfoldable pub bbo : Book → Bbo
bbo b =
    let bid : ℤ × ℕ = elim (first b.bids) [ none ↦ (pos 0, 0) | some e ↦ e ] in
    let ask : ℤ × ℕ = elim (first b.asks) [ none ↦ (pos 0, 0) | some e ↦ e ] in
    record { bid_price = bid.0; bid_size = bid.1; ask_price = ask.0; ask_size = ask.1 }
