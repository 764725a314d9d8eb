-- ===== src/Feed/Total.antt =====
-- src/iextp.h and src/feedhandler.cpp: the reads of a packet that `on_payload` is given.
use mega_feed_handler.Base.{
  ℕ, zero, suc, ◌+◌, ◌<◌, ◌≤◌, ◌≡◌, min, not, ◌&&◌, none, some, List, [], ◌∷◌, arith, ltb, leb,
  ◌==◌, length, length-set, get_elem?_at, All, All-drop, length-drop, if_cases, Succeeds, succeeds,
  Succeeds->>=,
}
use mega_feed_handler.Wire.Bytes.{IsBytes}
use mega_feed_handler.Base.Bits.{u64}
use mega_feed_handler.Wire.Reads.{Anything, get_u16_at, get_u32_at, get_u64_at}
use mega_feed_handler.Wire.Message.{OrderMessage}
use mega_feed_handler.Wire.Hash.{bucket_of, bucket_of-lt}
use mega_feed_handler.Publisher.Defs.{FeedPublisher, Sent, publish}
use mega_feed_handler.Feed.Iextp.{
  IextpHeader, Message, iextp_fields, iextp_decode, each_message, iextp_for_each_message,
}
use mega_feed_handler.Feed.DeepPlus.Reads.{decode_in}
use mega_feed_handler.Feed.Handler.{
  FeedHandler, publish_out, on_messages, note_gap, skip_count, advance, on_packet, on_header,
  on_payload,
}

-- A message within its packet.
abbrev pub IsWithin : Message → Type 0
IsWithin m = IsBytes m.bytes × (m.size ≤ length m.bytes)

module _ (packet : List ℕ) (bs : IsBytes packet) where
  iextp_fields_in : 40 ≤ length packet → Succeeds Anything (iextp_fields packet)
  unfolding iextp_fields
  iextp_fields_in h = Succeeds->>= (get_elem?_at packet 0 (omega arith)) (λ version _.
      Succeeds->>= (get_u16_at packet bs 2 (omega arith)) (λ protocol _.
        Succeeds->>= (get_u32_at packet bs 4 (omega arith)) (λ channel _.
          Succeeds->>= (get_u32_at packet bs 8 (omega arith)) (λ session _.
            Succeeds->>= (get_u16_at packet bs 12 (omega arith)) (λ payload_length _.
              Succeeds->>= (get_u16_at packet bs 14 (omega arith)) (λ message_count _.
                Succeeds->>= (get_u64_at packet bs 16 (omega arith)) (λ stream_offset _.
                  Succeeds->>= (get_u64_at packet bs 24 (omega arith)) (λ first _.
                    Succeeds->>= (get_u64_at packet bs 32 (omega arith))
                      (λ send_ns _. succeeds tt)))))))))

  iextp_decode_in : Succeeds Anything (iextp_decode packet (length packet))
  unfolding iextp_decode
  iextp_decode_in =
      if_cases (Succeeds Anything) (ltb (length packet) 40) (λ _. succeeds tt)
        (λ long. Succeeds->>= (iextp_fields_in (ground arith)) (λ header _. succeeds tt))

  each_message_in :
      (left offset end : ℕ)
      → end ≤ length packet
      → Succeeds (All IsWithin) (each_message left packet offset end)
  unfolding each_message
  each_message_in zero offset end h = succeeds tt
  each_message_in (suc left) offset end h =
      if_cases (Succeeds (All IsWithin)) (leb (offset + 2) end)
        (λ room. Succeeds->>= (get_u16_at packet bs offset (ground arith)) (λ size _.
          if_cases (Succeeds (All IsWithin)) (ltb end (offset + 2 + size)) (λ _. succeeds tt)
            (λ fits. Succeeds->>= (each_message_in left (offset + 2 + size) end h) (λ rest good.
              succeeds (
                (
                  All-drop _ (offset + 2) packet bs,
                  ground (arith, length-drop {0} (offset + 2) packet),
                ),
                good,
              )))))
        (λ _. succeeds tt)

-- The publisher has its buckets.
pub record IsReady (p : FeedPublisher) : Type 0 where
  pub some_buckets : 0 < p.bucket_count
  pub buckets_are : length p.buckets ≡ p.bucket_count

abbrev pub IsReadyWith : FeedHandler × List Sent → Type 0
IsReadyWith (f, sent) = IsReady f.publisher

publish-IsReady :
    (p : FeedPublisher) (m : OrderMessage)
    → IsReady p
    → Succeeds (λ (p', sent). IsReady p') (publish p m)
unfolding publish
publish-IsReady p m ready =
    Succeeds->>=
      (get_elem?_at p.buckets (bucket_of m.symbol p.bucket_count)
        (omega (arith, ready, bucket_of-lt m.symbol p.bucket_count ready.some_buckets)))
      (λ b _. succeeds (record {
        some_buckets = ready.some_buckets;
        buckets_are =
            omega (arith, ready, length-set p.buckets (bucket_of m.symbol p.bucket_count) _);
      }))

publish_out_in :
    (ms : List OrderMessage) (f : FeedHandler)
    → IsReady f.publisher
    → Succeeds IsReadyWith (publish_out ms f)
unfolding publish_out
publish_out_in [] f ready = succeeds ready
publish_out_in (m ∷ ms) f ready =
    Succeeds->>= (publish-IsReady f.publisher m ready)
      (λ r good. Succeeds->>= (publish_out_in ms _ good) (λ s good'. succeeds good'))

on_messages_in :
    (skip : ℕ) (messages : List Message) (f : FeedHandler)
    → All IsWithin messages
    → IsReady f.publisher
    → Succeeds IsReadyWith (on_messages skip messages f)
unfolding on_messages
on_messages_in skip [] f within ready = succeeds ready
on_messages_in (suc skip) (m ∷ ms) f within ready = on_messages_in skip ms f within.1 ready
on_messages_in zero (m ∷ ms) f ((bs, size), within) ready =
    let (d, read, _) = decode_in m.bytes m.size f.decoder bs size in
    Succeeds->>= {P = Anything} (d, read, tt)
      (λ d' _. Succeeds->>= (publish_out_in d'.1 (record f { decoder = d'.0 }) ready) (λ r good.
        Succeeds->>= (on_messages_in zero ms r.0 within good) (λ s good'. succeeds good')))

note_gap-IsReady :
    (header : IextpHeader) (f : FeedHandler)
    → IsReady f.publisher
    → IsReady (note_gap header f).publisher
unfolding note_gap
note_gap-IsReady header f ready =
    if_cases (λ (f' : FeedHandler). IsReady f'.publisher)
      (not (f.expected == 0) && ltb f.expected header.first_sequence_number) (λ _. ready)
      (λ _. ready)

advance-IsReady :
    (header : IextpHeader) (f : FeedHandler)
    → IsReady f.publisher
    → IsReady (advance header f).publisher
unfolding advance
advance-IsReady header f ready =
    if_cases (λ (f' : FeedHandler). IsReady f'.publisher)
      (ltb f.expected (u64 (header.first_sequence_number + header.message_count))) (λ _. ready)
      (λ _. ready)

module _ (packet : List ℕ) (f : FeedHandler) (bs : IsBytes packet)
    (ready : IsReady f.publisher) where
  on_packet_in :
      (header : IextpHeader) → Succeeds IsReadyWith (on_packet packet (length packet) header f)
  unfolding on_packet iextp_for_each_message
  on_packet_in header =
      Succeeds->>=
        (each_message_in packet bs header.message_count 40
          (min (length packet) (header.payload_length + 40)) (omega arith))
        (λ messages within.
          Succeeds->>=
            (on_messages_in (skip_count header f) messages (note_gap header f) within
              (note_gap-IsReady header f ready))
            (λ r good. succeeds (advance-IsReady header r.0 good)))

  on_header_in :
      (header : IextpHeader) → Succeeds IsReadyWith (on_header packet (length packet) header f)
  unfolding on_header
  on_header_in header =
      if_cases (Succeeds IsReadyWith) (not (header.protocol == 0x8005)) (λ _. succeeds ready)
        (λ _.
          if_cases (Succeeds IsReadyWith) (header.message_count == 0) (λ _. succeeds ready)
            (λ _. on_packet_in header))

  -- On any bytes a ready handler reads in range, and it is ready for the next packet.
  pub on_payload_in : Succeeds IsReadyWith (on_payload packet (length packet) f)
  unfolding on_payload
  on_payload_in = Succeeds->>= (iextp_decode_in packet bs) (λ decoded _.
      elim decoded
        as (λ d. Succeeds IsReadyWith (elim d [
          | none ↦ some (f, [])
          | some header ↦ on_header packet (length packet) header f
        ])) [ none ↦ succeeds ready | some header ↦ on_header_in header ])
