-- ===== src/Book/Tests.antt =====
-- src/book.h: a book with two bids and an ask.
use mega_feed_handler.Base.{ℕ, ◌≡◌, ◌↔◌, refl, List, [], ◌∷◌, true, ◌==◌, if◌then◌else◌, arith}
use mega_feed_handler.Base.Int.{pos, eqb_ℤ}
use mega_feed_handler.Base.OrdMap.{find, first}
use mega_feed_handler.Base.HashMap.{find_or}
use mega_feed_handler.Base.HashMap
use mega_feed_handler.Wire.Message.{OrderMessage}
use mega_feed_handler.Wire.Hash.{c_string}
use mega_feed_handler.Book.Defs.{Book, empty_book, apply, bbo, is_uncrossed}
use mega_feed_handler.Book.BookSet.{empty_set, apply_message, apply_all}
use mega_feed_handler.Book.Levels.{
  bid_level, ask_level, level_after, IsValid, apply_levels, apply-IsValid,
}
use mega_feed_handler.Book.Touch.{IsBestBid, IsBestAsk, bbo_best, IsUncrossed, is_uncrossed_iff}
use mega_feed_handler.Book.Replay.{
  book_of, IsStirred, replay, book_of-apply_all, IsQuoted, apply_all-IsQuoted, fingerprint-apply,
}

abbrev update : ℕ → ℕ → ℕ → OrderMessage
update side price size = record {
  type = side;
  symbol = 65 ∷ 66 ∷ 0 ∷ [];
  price = pos price;
  size = size;
  timestamp = 0;
}

empty-IsValid : IsValid empty_book
unfolding find
empty-IsValid = record {
  bids_sorted = tt;
  asks_sorted = tt;
  bids_filled = λ p n e. absurd (ground arith);
  asks_filled = λ p n e. absurd (ground arith);
}

abbrev two_sided : Book
two_sided =
    (apply (apply (apply empty_book (update b'B' 100 7)).0 (update b'B' 101 5)).0
      (update b'S' 103 2)).0

two_sided-IsValid : IsValid two_sided
two_sided-IsValid =
    apply-IsValid (apply (apply empty_book (update b'B' 100 7)).0 (update b'B' 101 5)).0
      (update b'S' 103 2)
      (apply-IsValid (apply empty_book (update b'B' 100 7)).0 (update b'B' 101 5)
        (apply-IsValid empty_book (update b'B' 100 7) empty-IsValid))

apply-IsValid_example : IsValid (apply two_sided (update b'B' 101 0)).0
apply-IsValid_example = apply-IsValid two_sided (update b'B' 101 0) two_sided-IsValid

apply_levels_example :
    (bid_level (apply two_sided (update b'B' 101 0)).0 (pos 101) ≡ (
      if b'B' == b'B'
      then (if eqb_ℤ (pos 101) (pos 101) then level_after 0 else bid_level two_sided (pos 101))
      else bid_level two_sided (pos 101)))
    × (ask_level (apply two_sided (update b'B' 101 0)).0 (pos 101) ≡ (
        if b'B' == b'S'
        then (if eqb_ℤ (pos 101) (pos 101) then level_after 0 else ask_level two_sided (pos 101))
        else ask_level two_sided (pos 101)))
apply_levels_example = apply_levels two_sided (update b'B' 101 0) (pos 101)

bbo_best_example :
    IsBestBid two_sided (bbo two_sided).bid_price (bbo two_sided).bid_size
    × IsBestAsk two_sided (bbo two_sided).ask_price (bbo two_sided).ask_size
bbo_best_example = bbo_best two_sided two_sided-IsValid

is_uncrossed_iff_example : (is_uncrossed two_sided ≡ true) ↔ IsUncrossed two_sided
is_uncrossed_iff_example = is_uncrossed_iff two_sided two_sided-IsValid

abbrev day : List OrderMessage
day = update b'B' 100 7 ∷ update b'S' 99 1 ∷ update b'E' 0 0 ∷ []

book_of-apply_all_example :
    book_of (apply_all empty_set day) (65 ∷ 66 ∷ [])
    ≡ replay (65 ∷ 66 ∷ []) (book_of empty_set (65 ∷ 66 ∷ [])) day
book_of-apply_all_example = book_of-apply_all day empty_set (65 ∷ 66 ∷ [])

empty-IsQuoted : IsQuoted empty_set
unfolding bbo find_or HashMap.find first
empty-IsQuoted symbol = refl

apply_all-IsQuoted_example : IsQuoted (apply_all empty_set day)
apply_all-IsQuoted_example = apply_all-IsQuoted day empty_set empty-IsQuoted

fingerprint-apply_example :
    let m = update b'B' 100 7 in
    let symbol = c_string m.symbol in
    IsStirred symbol
      (bbo (book_of empty_set symbol))
      (bbo (book_of (apply_message empty_set m) symbol))
      empty_set.fingerprint
      (apply_message empty_set m).fingerprint
    × (m.type ≡ b'E'
        → bbo (book_of (apply_message empty_set m) symbol) ≡ bbo (book_of empty_set symbol))
fingerprint-apply_example = fingerprint-apply empty_set (update b'B' 100 7) empty-IsQuoted
