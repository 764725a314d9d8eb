-- ===== src/Feed/Duplicates.antt =====
-- src/feedhandler.cpp: a packet that brings nothing new.
use mega_feed_handler.Base.{
  ℕ, zero, suc, ◌+◌, ◌-◌, ◌^◌, ◌<◌, ◌≤◌, ◌≡◌, refl, List, [], ◌∷◌, some, ◌==◌, ltb, leb, length,
  arith, Option-cases, Bool-cases, inl, inr, drop,
}
use mega_feed_handler.Wire.Bytes.{get_u16}
use mega_feed_handler.Feed.Iextp.{IextpHeader, Message, each_message, iextp_for_each_message}
use mega_feed_handler.Feed.Handler.{
  FeedHandler, on_messages, note_gap, skip_count, advance, on_packet, on_header,
}

-- The loop calls back at most once a round.
each_message_le :
    (left : ℕ) (packet : List ℕ) (offset end : ℕ) (ms : List Message)
    → each_message left packet offset end ≡ some ms
    → length ms ≤ left
unfolding each_message
each_message_le zero packet offset end ms e = ground arith
each_message_le (suc left) packet offset end ms e = elim (Bool-cases (leb (offset + 2) end)) [
  | inr over ↦ ground (arith, simp over at e)
  | inl more ↦ elim (Option-cases (get_u16 (drop offset packet))) [
    | inl bad ↦ absurd (ground (arith, simp (more, bad) at e))
    | inr (size, read) ↦ elim (Bool-cases (ltb end (offset + 2 + size))) [
      | inl cut ↦ ground (arith, simp (more, read, cut) at e)
      | inr fits ↦ elim (Option-cases (each_message left packet (offset + 2 + size) end)) [
        | inl bad ↦ absurd (ground (arith, simp (more, read, fits, bad) at e))
        | inr (rest, next) ↦ ground (
          arith,
          simp (more, read, fits, next) at e,
          each_message_le left packet (offset + 2 + size) end rest next,
        )
      ]
    ]
  ]
]

on_messages_skip :
    (skip : ℕ) (ms : List Message) (f : FeedHandler)
    → length ms ≤ skip
    → on_messages skip ms f ≡ some (f, [])
unfolding on_messages
on_messages_skip skip [] f l = refl
on_messages_skip zero (m ∷ ms) f l = absurd (omega arith)
on_messages_skip (suc skip) (m ∷ ms) f l = on_messages_skip skip ms f (omega arith)

-- A packet of the venue's protocol whose messages have all been seen before, by the numbers in its
-- header, changes nothing and sends nothing.
pub on_header-duplicate :
    (payload : List ℕ) (size : ℕ) (header : IextpHeader) (f : FeedHandler) (messages : List Message)
    → header.protocol ≡ 0x8005
    → iextp_for_each_message payload size header ≡ some messages
    → header.first_sequence_number + header.message_count ≤ f.expected
    → f.expected < 2 ^ 64
    → on_header payload size header f ≡ some (f, [])
unfolding on_header on_packet iextp_for_each_message
on_header-duplicate payload size header f messages right e old small =
    elim (Bool-cases (header.message_count == 0)) [
      | inl empty ↦ simp (right, empty) refl
      | inr some_messages ↦
          let few = each_message_le _ payload 40 _ messages e in
          let skipped : skip_count header f ≡ f.expected - header.first_sequence_number =
            unfold skip_count in ground arith in
          let same : note_gap header f ≡ f = unfold note_gap in ground arith in
          let stays : advance header f ≡ f = unfold advance in ground arith in
          simp (right, some_messages, e, same)
            (rw
              (
                on_messages_skip (skip_count header f) messages f
                    (omega (arith, few, skipped, old)),
                stays,
              )
              refl)
    ]
