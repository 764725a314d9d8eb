-- ===== src/Visualizer/View.antt =====
-- src/visualizer.cpp: what is drawn, and the callback. A screen is a record of its rows instead of
-- the characters that are printed.
use mega_feed_handler.Base.{
  ℕ, ◌+◌, ◌/◌, min, not, ◌&&◌, Option, none, some, List, [], ◌∷◌, ◌++◌, ltb, ◌==◌, take, replicate,
  if◌then◌else◌,
}
use mega_feed_handler.Base.Int.{ℤ, pos, eqb_ℤ, ◌-ℤ◌}
use mega_feed_handler.Base.Bits.{sub64}
use mega_feed_handler.Base.OrdMap.{OrdMap}
use mega_feed_handler.Base.HashMap.{text_eq}
use mega_feed_handler.Wire.Message.{OrderMessage}
use mega_feed_handler.Wire.Hash.{c_string}
use mega_feed_handler.Book.Defs.{Book, apply, bbo}
use mega_feed_handler.Subscriber.Bucket.{Stats}

-- subscriber_env.h: `WATCH_SYMBOL`
abbrev pub watch_symbol : List ℕ
watch_symbol = b'M' ∷ b'S' ∷ b'F' ∷ b'T' ∷ []

unfoldable pub bar : ℕ → List ℕ
bar size = replicate (min (size / 150) 40) b'#'

-- A level as a row: its price, its size and a bar.
pub record Row : Type 0 where
  pub price : ℤ
  pub size : ℕ
  pub strokes : List ℕ

unfoldable pub rows : OrdMap ℤ ℕ → List Row
rows [] = []
rows ((price, size) ∷ levels) =
    record { price = price; size = size; strokes = bar size } ∷ rows levels

-- Rows from the last to the first.
unfoldable pub backwards : List Row → List Row
backwards [] = []
backwards (row ∷ rest) = backwards rest ++ (row ∷ [])

pub record Screen : Type 0 where
  pub stats : Stats
  pub ask_rows : List Row
  pub spread : Option ℤ
  pub bid_rows : List Row
  pub trade : Option (ℕ × ℤ)

unfoldable pub draw : Book → OrderMessage → Stats → Screen
draw book last_trade stats =
    let quote = bbo book in
    record {
      stats = stats;
      ask_rows = backwards (rows (take 8 book.asks));
      spread =
          if not (eqb_ℤ quote.bid_price (pos 0)) && not (eqb_ℤ quote.ask_price (pos 0))
          then some (quote.ask_price -ℤ quote.bid_price)
          else none;
      bid_rows = rows (take 8 book.bids);
      trade = if last_trade.type == b'T' then some (last_trade.size, last_trade.price) else none;
    }

-- What the callback keeps, with the screens that it has drawn and how often it has warned of a
-- crossed book.
pub record View : Type 0 where
  pub book : Book
  pub last_trade : OrderMessage
  pub last_draw : ℕ
  pub screens : List Screen
  pub warnings : ℕ

-- A call of the callback: the message, the clock, and the counters of the subscriber then.
pub record Call : Type 0 where
  pub message : OrderMessage
  pub now : ℕ
  pub stats : Stats

-- About ten screens a second.
unfoldable pub redraw : ℕ → Stats → View → View
redraw now stats view =
    if ltb 100_000_000 (sub64 now view.last_draw)
    then record view {
      last_draw = now;
      screens = view.screens ++ (draw view.book view.last_trade stats ∷ []);
    }
    else view

unfoldable pub on_message : List ℕ → Call → View → View
on_message symbol c view =
    if not (text_eq (c_string c.message.symbol) symbol)
    then view
    else (let (book, possible) = apply view.book c.message in
        redraw c.now c.stats (record view {
          book = book;
          warnings = if possible then view.warnings else view.warnings + 1;
          last_trade = if c.message.type == b'T' then c.message else view.last_trade;
        }))

unfoldable pub watch : List ℕ → List Call → View → View
watch symbol [] view = view
watch symbol (c ∷ calls) view = watch symbol calls (on_message symbol c view)

-- `main` behind `run`: the last screen, with the counters at the end.
unfoldable pub last_screen : Stats → View → Screen
last_screen stats view = draw view.book view.last_trade stats
