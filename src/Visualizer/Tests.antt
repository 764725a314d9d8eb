-- ===== src/Visualizer/Tests.antt =====
-- The ladder over a few messages.
use mega_feed_handler.Base.{ℕ, ◌≡◌, refl, List, [], ◌∷◌}
use mega_feed_handler.Base.Int.{pos}
use mega_feed_handler.Wire.Message.{OrderMessage}
use mega_feed_handler.Book.Defs.{empty_book}
use mega_feed_handler.Book.BookSet.{empty_set, apply_all}
use mega_feed_handler.Book.Replay.{book_of}
use mega_feed_handler.Subscriber.Bucket.{no_stats}
use mega_feed_handler.Visualizer.View.{View, Call, bar, watch_symbol, watch}
use mega_feed_handler.Visualizer.Watch.{messages, watch-golden}

abbrev update : ℕ → List ℕ → ℕ → ℕ → OrderMessage
update type symbol price size = record {
  type = type;
  symbol = symbol;
  price = pos price;
  size = size;
  timestamp = 1;
}

abbrev calls : List Call
calls =
    record {
      message = update b'B' (b'M' ∷ b'S' ∷ b'F' ∷ b'T' ∷ 0 ∷ []) 40 300;
      now = 1;
      stats = no_stats;
    }
    ∷ record {
      message = update b'B' (b'I' ∷ b'B' ∷ b'M' ∷ 0 ∷ []) 90 100;
      now = 2;
      stats = no_stats;
    }
    ∷ record {
      message = update b'T' (b'M' ∷ b'S' ∷ b'F' ∷ b'T' ∷ 0 ∷ []) 41 100;
      now = 3;
      stats = no_stats;
    }
    ∷ []

abbrev fresh : View
fresh = record {
  book = empty_book;
  last_trade = update 0 [] 0 0;
  last_draw = 0;
  screens = [];
  warnings = 0;
}

watch-golden_example :
    (watch watch_symbol calls fresh).book
    ≡ book_of (apply_all empty_set (messages calls)) watch_symbol
watch-golden_example = watch-golden watch_symbol calls fresh refl

two_strokes : bar 300 ≡ b'#' ∷ b'#' ∷ []
unfolding bar
two_strokes = refl
