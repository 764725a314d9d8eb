-- ===== src/Book/Replay.antt =====
-- src/book.h: a BookSet after a run of messages.
use mega_feed_handler.Base.{
  ℕ, ◌≡◌, ◌≢◌, ◌∙◌, List, [], ◌∷◌, ◌++◌, true, false, ◌==◌, if◌then◌else◌, arith, Bool-cases, refl,
  ap, inl, inr,
}
use mega_feed_handler.Base.Int.{eqb_ℤ_iff, to_u64}
use mega_feed_handler.Base.HashMap.{text_key, text_eq, text_eq_iff, find, find_or, find_or-insert}
use mega_feed_handler.Base.OrdMap.{first}
use mega_feed_handler.Wire.Message.{OrderMessage}
use mega_feed_handler.Wire.Hash.{Fingerprint, mix_lem, fnv_bytes, fnv_bytes-append, fnv1a, c_string}
use mega_feed_handler.Wire.Bytes.{put_u64}
use mega_feed_handler.Book.Defs.{Bbo, empty_bbo, differs, Book, empty_book, apply, bbo}
use mega_feed_handler.Book.BookSet.{
  BookSet, empty_set, mix_quote, note_quote, apply_update, apply_message, apply_all,
}

-- The book of a symbol, and the touch that was last recorded for it.
abbrev pub book_of : BookSet → List ℕ → Book
book_of s symbol = find_or symbol empty_book s.books

abbrev pub quote_of : BookSet → List ℕ → Bbo
quote_of s symbol = find_or symbol empty_bbo s.last_quote

-- The book that a list of messages makes of `b`, counting those of the symbol alone.
unfoldable pub replay : List ℕ → Book → List OrderMessage → Book
replay symbol b [] = b
replay symbol b (m ∷ ms) =
    replay symbol
      (if m.type == b'E'
        then b
        else (if text_eq (c_string m.symbol) symbol then (apply b m).0 else b))
      ms

differs_iff : (a b : Bbo) → differs a b ≡ false → a ≡ b
unfolding differs
differs_iff a b h =
    ground (arith, eqb_ℤ_iff a.bid_price b.bid_price, eqb_ℤ_iff a.ask_price b.ask_price)

book_of-note :
    (s : BookSet) (symbol other : List ℕ) (q : Bbo)
    → book_of (note_quote s symbol q) other ≡ book_of s other
unfolding note_quote
book_of-note s symbol other q = ground arith

quote_of-note :
    (s : BookSet) (symbol other : List ℕ) (q : Bbo)
    → quote_of (note_quote s symbol q) other
      ≡ (if text_eq symbol other then q else quote_of s other)
unfolding note_quote
quote_of-note s symbol other q = elim (Bool-cases (differs q (quote_of s symbol))) [
  | inl moved ↦ rw moved (find_or-insert symbol other q empty_bbo s.last_quote)
  | inr stays ↦ rw (
    stays,
    find_or-insert symbol other (quote_of s symbol) empty_bbo s.last_quote,
    ← differs_iff q (quote_of s symbol) stays,
  )
]

if_key {ℓ} :
    {A : Type ℓ} (f : List ℕ → A) (d : A) (key symbol : List ℕ)
    → (if text_eq key symbol then f key else d) ≡ (if text_eq key symbol then f symbol else d)
if_key f d key symbol = elim (Bool-cases (text_eq key symbol)) [
  | inl hit ↦ rw (hit, (text_eq_iff key symbol).0 hit)
  | inr miss ↦ rw miss
]

book_of-update :
    (s : BookSet) (m : OrderMessage) (symbol : List ℕ)
    → book_of (apply_update s m) symbol ≡ (
        if text_eq (c_string m.symbol) symbol
        then (apply (book_of s symbol) m).0
        else book_of s symbol)
unfolding apply_update
book_of-update s m symbol =
    let key = c_string m.symbol in
    let book = (apply (book_of s key) m).0 in
    book_of-note _ key symbol (bbo book)
    ∙ find_or-insert key symbol book empty_book s.books
    ∙ if_key (λ k. (apply (book_of s k) m).0) (book_of s symbol) key symbol

book_of-message :
    (s : BookSet) (m : OrderMessage) (symbol : List ℕ)
    → book_of (apply_message s m) symbol ≡ (
        if m.type == b'E'
        then book_of s symbol
        else (if text_eq (c_string m.symbol) symbol
            then (apply (book_of s symbol) m).0
            else book_of s symbol))
unfolding apply_message
book_of-message s m symbol = ground (arith, book_of-update s m symbol)

-- After any messages the book of a symbol is what that symbol's messages alone make of it: no
-- other symbol, and no end marker, touches it.
pub book_of-apply_all :
    (ms : List OrderMessage) (s : BookSet) (symbol : List ℕ)
    → book_of (apply_all s ms) symbol ≡ replay symbol (book_of s symbol) ms
unfolding apply_all replay
book_of-apply_all [] s symbol = refl
book_of-apply_all (m ∷ ms) s symbol =
    book_of-apply_all ms (apply_message s m) symbol
    ∙ ap (λ b. replay symbol b ms) (book_of-message s m symbol)

quote_of-update :
    (s : BookSet) (m : OrderMessage) (symbol : List ℕ)
    → quote_of (apply_update s m) symbol ≡ (
        if text_eq (c_string m.symbol) symbol
        then bbo (apply (book_of s symbol) m).0
        else quote_of s symbol)
unfolding apply_update
quote_of-update s m symbol =
    let key = c_string m.symbol in
    quote_of-note _ key symbol (bbo (apply (book_of s key) m).0)
    ∙ if_key (λ k. bbo (apply (book_of s k) m).0) (quote_of s symbol) key symbol

-- Every recorded touch is the touch of the book.
abbrev pub IsQuoted : BookSet → Type 0
IsQuoted s = (symbol : List ℕ) → quote_of s symbol ≡ bbo (book_of s symbol)

empty-IsQuoted : IsQuoted empty_set
unfolding find_or find bbo first
empty-IsQuoted symbol = refl

apply_message-IsQuoted :
    (s : BookSet) (m : OrderMessage) → IsQuoted s → IsQuoted (apply_message s m)
unfolding apply_message
apply_message-IsQuoted s m h symbol =
    ground (arith, h symbol, book_of-update s m symbol, quote_of-update s m symbol)

-- Whatever messages arrive, the touch that the next change is compared with is the touch of the
-- symbol's book: no change is missed, and none is mixed twice.
pub apply_all-IsQuoted :
    (ms : List OrderMessage) (s : BookSet) → IsQuoted s → IsQuoted (apply_all s ms)
unfolding apply_all
apply_all-IsQuoted [] s h = h
apply_all-IsQuoted (m ∷ ms) s h =
    apply_all-IsQuoted ms (apply_message s m) (apply_message-IsQuoted s m h)

differs_self : (a : Bbo) → differs a a ≡ false
unfolding differs
differs_self a =
    ground (arith, eqb_ℤ_iff a.bid_price a.bid_price, eqb_ℤ_iff a.ask_price a.ask_price)

-- The bytes that a symbol and its touch stand for: five numbers of 64 bits, the lowest byte first.
abbrev pub quote_bytes : List ℕ → Bbo → List ℕ
quote_bytes symbol q =
    put_u64 (fnv1a symbol)
    ++ put_u64 (to_u64 q.bid_price)
    ++ put_u64 q.bid_size
    ++ put_u64 (to_u64 q.ask_price)
    ++ put_u64 q.ask_size

-- How a change of the touch of a symbol, or that it stays, shows in the fingerprint: FNV-1a goes on
-- over those bytes.
pub record IsStirred (symbol : List ℕ) (before now : Bbo) (f g : Fingerprint) : Type 0 where
  pub stays : now ≡ before → g ≡ f
  pub moves : now ≢ before → g.hash ≡ fnv_bytes f.hash (quote_bytes symbol now)

mix_quote_lem :
    (f : Fingerprint) (symbol : List ℕ) (q : Bbo)
    → (mix_quote f symbol q).hash ≡ fnv_bytes f.hash (quote_bytes symbol q)
unfolding mix_quote
mix_quote_lem f symbol q = simp (mix_lem, fnv_bytes-append) refl

note_quote-IsStirred :
    (s : BookSet) (symbol : List ℕ) (q : Bbo)
    → IsStirred symbol (quote_of s symbol) q s.fingerprint (note_quote s symbol q).fingerprint
unfolding note_quote
note_quote-IsStirred s symbol q = elim (Bool-cases (differs q (quote_of s symbol))) [
  | inl moved ↦ record {
    stays = λ same. absurd (ground (arith, moved, differs_self q, same));
    moves = λ _. rw moved (mix_quote_lem s.fingerprint symbol q);
  }
  | inr still ↦ record {
    stays = λ _. rw still refl;
    moves = λ other. absurd (other (differs_iff q (quote_of s symbol) still));
  }
]

update-IsStirred :
    (s : BookSet) (m : OrderMessage)
    → IsQuoted s
    → let symbol = c_string m.symbol in
      IsStirred symbol
        (bbo (book_of s symbol))
        (bbo (book_of (apply_update s m) symbol))
        s.fingerprint
        (apply_update s m).fingerprint
update-IsStirred s m h =
    let key = c_string m.symbol in
    let book = (apply (book_of s key) m).0 in
    let self : text_eq key key ≡ true = (text_eq_iff key key).1 refl in
    rw (book_of-update s m key, self, ← h key)
      (unfold apply_update in note_quote-IsStirred _ key (bbo book))

-- When the recorded touches are up to date, a message that leaves the touch of its symbol leaves
-- the fingerprint, and one that moves it carries FNV-1a on over the hash of the symbol, the new bid
-- with its size and the new ask with its size, in this order and eight bytes each; an end marker
-- moves no touch.
pub fingerprint-apply :
    (s : BookSet) (m : OrderMessage)
    → IsQuoted s
    → let symbol = c_string m.symbol in
      IsStirred symbol
        (bbo (book_of s symbol))
        (bbo (book_of (apply_message s m) symbol))
        s.fingerprint
        (apply_message s m).fingerprint
      × (m.type ≡ b'E' → bbo (book_of (apply_message s m) symbol) ≡ bbo (book_of s symbol))
unfolding apply_message
fingerprint-apply s m h = elim (Bool-cases (m.type == b'E')) [
  | inl end ↦ rw end (record { stays = λ _. refl; moves = λ other. absurd (other refl) }, λ _. refl)
  | inr update ↦ rw update (update-IsStirred s m h, λ end. absurd (ground (arith, end, update)))
]
