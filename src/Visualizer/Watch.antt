-- ===== src/Visualizer/Watch.antt =====
-- src/visualizer.cpp: the book that is watched, and the size of a screen.
use mega_feed_handler.Base.{
  ℕ, zero, suc, sym, ◌/◌, ◌≤◌, ◌≡◌, refl, ap, ◌∙◌, min, true, List, [], ◌∷◌, arith, length, take,
  All, All-append, length-append, length-replicate, Bool-cases, inl, inr, if◌then◌else◌, ◌==◌,
}
use mega_feed_handler.Base.Int.{ℤ}
use mega_feed_handler.Base.OrdMap.{OrdMap}
use mega_feed_handler.Base.HashMap.{text_eq, find_or, find}
use mega_feed_handler.Wire.Message.{OrderMessage}
use mega_feed_handler.Wire.Hash.{c_string}
use mega_feed_handler.Book.Defs.{Book, empty_book, apply}
use mega_feed_handler.Book.BookSet.{empty_set, apply_all}
use mega_feed_handler.Book.Replay.{replay, book_of, book_of-apply_all}
use mega_feed_handler.Subscriber.Bucket.{Stats}
use mega_feed_handler.Visualizer.View.{
  bar, Row, rows, backwards, draw, View, Call, redraw, on_message, watch,
}

abbrev pub messages : List Call → List OrderMessage
messages [] = []
messages (c ∷ calls) = c.message ∷ messages calls

redraw-book : (now : ℕ) (stats : Stats) (view : View) → (redraw now stats view).book ≡ view.book
unfolding redraw
redraw-book now stats view = ground arith

-- An end marker changes no book.
apply-end : (b : Book) (m : OrderMessage) → (m.type == b'E') ≡ true → (apply b m).0 ≡ b
unfolding apply
apply-end b m h = ground (arith, h)

on_message-book :
    (symbol : List ℕ) (c : Call) (view : View)
    → (on_message symbol c view).book ≡ (
        if c.message.type == b'E'
        then view.book
        else (if text_eq (c_string c.message.symbol) symbol
            then (apply view.book c.message).0
            else view.book))
unfolding on_message
on_message-book symbol c view =
    let book = view.book in
    elim (Bool-cases (text_eq (c_string c.message.symbol) symbol)) [
      | inl ours ↦ elim (Bool-cases (c.message.type == b'E')) [
        | inl over ↦
            rw (ours, over, on_message)
              (redraw-book c.now c.stats _ ∙ apply-end book c.message over)
        | inr update ↦ rw (ours, update, on_message) (redraw-book c.now c.stats _)
      ]
      | inr other ↦ elim (Bool-cases (c.message.type == b'E')) [
        | inl over ↦ rw (other, over, on_message) refl
        | inr update ↦ rw (other, update, on_message) refl
      ]
    ]

-- The callback follows its own symbol and nothing else.
watch-replay :
    (symbol : List ℕ) (calls : List Call) (view : View)
    → (watch symbol calls view).book ≡ replay symbol view.book (messages calls)
unfolding watch replay
watch-replay symbol [] view = refl
watch-replay symbol (c ∷ calls) view =
    watch-replay symbol calls (on_message symbol c view)
    ∙ ap (λ b. replay symbol b (messages calls)) (on_message-book symbol c view)

-- Whatever the callback is given, and however often it draws: a viewer that began with no level has
-- the book that a publisher's set of books holds for the symbol after the same messages.
pub watch-golden :
    (symbol : List ℕ) (calls : List Call) (view : View)
    → view.book ≡ empty_book
    → (watch symbol calls view).book ≡ book_of (apply_all empty_set (messages calls)) symbol
unfolding find_or find
watch-golden symbol calls view fresh =
    watch-replay symbol calls view
    ∙ (ap (λ b. replay symbol b (messages calls)) fresh
        ∙ sym (book_of-apply_all (messages calls) empty_set symbol))

abbrev pub IsRow : Row → Type 0
IsRow row = length row.strokes ≤ 40

rows-IsRow : (levels : OrdMap ℤ ℕ) → All IsRow (rows levels)
unfolding rows bar
rows-IsRow [] = tt
rows-IsRow ((price, size) ∷ levels) =
    let stroke : ℕ = b'#' in
    (omega (arith, length-replicate (min (size / 150) 40) stroke), rows-IsRow levels)

length-rows : (n : ℕ) (levels : OrdMap ℤ ℕ) → length (rows (take n levels)) ≤ n
unfolding rows
length-rows zero levels = omega arith
length-rows (suc n) [] = omega arith
length-rows (suc n) (level ∷ levels) = omega (arith, length-rows n levels)

backwards-IsRow : (rs : List Row) → All IsRow rs → All IsRow (backwards rs)
unfolding backwards
backwards-IsRow [] h = tt
backwards-IsRow (r ∷ rs) (h, hs) =
    All-append IsRow (backwards rs) (r ∷ []) (backwards-IsRow rs hs) (h, tt)

length-backwards : (rs : List Row) → length (backwards rs) ≡ length rs
unfolding backwards
length-backwards [] = refl
length-backwards (r ∷ rs) =
    omega (arith, length-append (backwards rs) (r ∷ []), length-backwards rs)

-- A screen fits: eight rows a side at most, and no bar over forty characters.
pub draw-fits :
    (book : Book) (last_trade : OrderMessage) (stats : Stats)
    → let screen = draw book last_trade stats in
      (length screen.ask_rows ≤ 8)
      × (length screen.bid_rows ≤ 8)
      × All IsRow screen.ask_rows
      × All IsRow screen.bid_rows
unfolding draw
draw-fits book last_trade stats = (
  omega (arith, length-backwards (rows (take 8 book.asks)), length-rows 8 book.asks),
  length-rows 8 book.bids,
  backwards-IsRow (rows (take 8 book.asks)) (rows-IsRow (take 8 book.asks)),
  rows-IsRow (take 8 book.bids),
)
