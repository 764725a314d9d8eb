-- ===== src/Book/Prices.antt =====
-- src/book.h: the two orders of price levels, `std::greater<int64_t>` for the bids and the
-- default `std::less<int64_t>` for the asks.
use mega_feed_handler.Base.{◌≡◌, true, false, arith}
use mega_feed_handler.Base.Int.{ℤ, pos, negsuc, ltb_ℤ, eqb_ℤ, eqb_ℤ_iff}
use mega_feed_handler.Base.OrdMap.{Order}

pub less_irreflexive : (a : ℤ) → ltb_ℤ a a ≡ false
less_irreflexive a = ground arith

pub less_transitive : (a b c : ℤ) → ltb_ℤ a b ≡ true → ltb_ℤ b c ≡ true → ltb_ℤ a c ≡ true
less_transitive a b c p q = ground arith

pub less_total : (a b : ℤ) → ltb_ℤ a b ≡ false → ltb_ℤ b a ≡ false → a ≡ b
less_total (pos a) (pos b) p q = ground arith
less_total (negsuc a) (pos b) p q = ground arith
less_total (pos a) (negsuc b) p q = ground arith
less_total (negsuc a) (negsuc b) p q = ground arith

abbrev pub ask_order : Order ℤ
ask_order = record {
  before = ltb_ℤ;
  same = eqb_ℤ;
  same_iff = eqb_ℤ_iff;
  irreflexive = less_irreflexive;
  transitive = less_transitive;
  total = less_total;
}

abbrev pub bid_order : Order ℤ
bid_order = record {
  before = λ a b. ltb_ℤ b a;
  same = eqb_ℤ;
  same_iff = eqb_ℤ_iff;
  irreflexive = less_irreflexive;
  transitive = λ a b c p q. less_transitive c b a q p;
  total = λ a b p q. less_total a b q p;
}
