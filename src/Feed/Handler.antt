-- ===== src/Feed/Handler.antt =====
-- src/feedhandler.cpp: FeedHandler. What it writes to `stderr` is left out.
use mega_feed_handler.Base.{
  ℕ, zero, suc, ◌+◌, ◌-◌, List, [], ◌∷◌, ◌++◌, Option, none, some, Bool, not, ◌&&◌, true, ◌==◌, ltb,
  if◌then◌else◌, ◌>>=◌,
}
use mega_feed_handler.Base.Bits.{u64}
use mega_feed_handler.Wire.Message.{OrderMessage}
use mega_feed_handler.Publisher.Defs.{FeedPublisher, Sent, publish}
use mega_feed_handler.Feed.Iextp.{IextpHeader, Message, iextp_decode, iextp_for_each_message}
use mega_feed_handler.Feed.DeepPlus.Defs.{DeepPlusDecoder, decode}

pub record FeedHandler : Type 0 where
  pub decoder : DeepPlusDecoder
  pub publisher : FeedPublisher
  pub expected : ℕ
  pub capture_gaps : ℕ
  pub published : ℕ
  pub warned_protocol : Bool

-- The loop over the messages that one payload message decodes to.
unfoldable pub publish_out : List OrderMessage → FeedHandler → Option (FeedHandler × List Sent)
publish_out [] f = some (f, [])
publish_out (m ∷ ms) f = publish f.publisher m >>= λ r.
    (publish_out ms (record f { publisher = r.0; published = u64 (f.published + 1) }) >>= λ s.
    some (s.0, r.1 ++ s.1))

-- The callback, with `skip` messages left to pass over.
unfoldable pub on_messages : ℕ → List Message → FeedHandler → Option (FeedHandler × List Sent)
on_messages skip [] f = some (f, [])
on_messages (suc skip) (m ∷ ms) f = on_messages skip ms f
on_messages zero (m ∷ ms) f = decode m.bytes m.size f.decoder >>= λ d.
    (publish_out d.1 (record f { decoder = d.0 }) >>= λ r.
    (on_messages zero ms r.0 >>= λ s. some (s.0, r.1 ++ s.1)))

-- The numbers that the capture does not have, when there is something to compare with.
unfoldable pub note_gap : IextpHeader → FeedHandler → FeedHandler
note_gap header f =
    if not (f.expected == 0) && ltb f.expected header.first_sequence_number
    then record f {
      capture_gaps = u64 (f.capture_gaps + (header.first_sequence_number - f.expected));
    }
    else f

unfoldable pub skip_count : IextpHeader → FeedHandler → ℕ
skip_count header f =
    if not (f.expected == 0) && ltb header.first_sequence_number f.expected
    then f.expected - header.first_sequence_number
    else 0

unfoldable pub advance : IextpHeader → FeedHandler → FeedHandler
advance header f =
    let next = u64 (header.first_sequence_number + header.message_count) in
    if ltb f.expected next then record f { expected = next } else f

-- A packet of the right protocol.
unfoldable pub on_packet : List ℕ → ℕ → IextpHeader → FeedHandler → Option (FeedHandler × List Sent)
on_packet payload length header f =
    let skip = skip_count header f in
    (iextp_for_each_message payload length header >>= λ messages.
    (on_messages skip messages (note_gap header f) >>= λ r. some (advance header r.0, r.1)))

unfoldable pub on_header : List ℕ → ℕ → IextpHeader → FeedHandler → Option (FeedHandler × List Sent)
on_header payload length header f =
    if not (header.protocol == 0x8005)
    then some (record f { warned_protocol = true }, [])
    else (if header.message_count == 0 then some (f, []) else on_packet payload length header f)

unfoldable pub on_payload : List ℕ → ℕ → FeedHandler → Option (FeedHandler × List Sent)
on_payload payload length f = iextp_decode payload length >>= λ decoded. elim decoded [
  | none ↦ some (f, [])
  | some header ↦ on_header payload length header f
]
