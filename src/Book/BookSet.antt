-- ===== src/Book/BookSet.antt =====
-- src/book.h: BookSet, every symbol of one bucket and the fingerprint of the changes of a touch.
use mega_feed_handler.Base.{ℕ, ◌+◌, List, [], ◌∷◌, ◌==◌, if◌then◌else◌}
use mega_feed_handler.Base.Int.{to_u64}
use mega_feed_handler.Base.Bits.{u64}
use mega_feed_handler.Base.HashMap.{HashMap, text_key, find_or, insert}
use mega_feed_handler.Wire.Message.{OrderMessage}
use mega_feed_handler.Wire.Hash.{Fingerprint, initial_fingerprint, mix, fnv1a, c_string}
use mega_feed_handler.Book.Defs.{Bbo, empty_bbo, differs, Book, empty_book, apply, bbo}

pub record BookSet : Type 0 where
  pub books : HashMap (List ℕ) Book
  pub last_quote : HashMap (List ℕ) Bbo
  pub fingerprint : Fingerprint
  pub crossed : ℕ

abbrev pub empty_set : BookSet
empty_set = record { books = []; last_quote = []; fingerprint = initial_fingerprint; crossed = 0 }

-- The symbol first, then the four numbers of the touch.
unfoldable pub mix_quote : Fingerprint → List ℕ → Bbo → Fingerprint
mix_quote f symbol q =
    mix
      (mix (mix (mix (mix f (fnv1a symbol)) (to_u64 q.bid_price)) q.bid_size) (to_u64 q.ask_price))
      q.ask_size

-- The change of the touch: `previous = current` and the mixing, or, where the touch stays, only
-- the entry that `last_quote[symbol]` makes.
unfoldable pub note_quote : BookSet → List ℕ → Bbo → BookSet
note_quote s symbol current =
    let previous = find_or symbol empty_bbo s.last_quote in
    if differs current previous
    then record s {
      last_quote = insert symbol current s.last_quote;
      fingerprint = mix_quote s.fingerprint symbol current;
    }
    else record s { last_quote = insert symbol previous s.last_quote }

-- `BookSet::apply` for a message that is no end marker.
unfoldable pub apply_update : BookSet → OrderMessage → BookSet
apply_update s m =
    let symbol = c_string m.symbol in
    let (book, possible) = apply (find_or symbol empty_book s.books) m in
    note_quote
      (record s {
        books = insert symbol book s.books;
        crossed = if possible then s.crossed else u64 (s.crossed + 1);
      })
      symbol (bbo book)

-- `BookSet::apply`
unfoldable pub apply_message : BookSet → OrderMessage → BookSet
apply_message s m = if m.type == b'E' then s else apply_update s m

unfoldable pub apply_all : BookSet → List OrderMessage → BookSet
apply_all s [] = s
apply_all s (m ∷ ms) = apply_all (apply_message s m) ms
