-- ===== src/Feed/Iextp.antt =====
-- src/iextp.h: the header of a packet and the messages in it. A pointer into the packet is the
-- list of the bytes from it on, and a read past its end is `none`.
use mega_feed_handler.Base.{
  ℕ, zero, suc, ◌+◌, min, List, [], ◌∷◌, Option, none, some, ◌==◌, ltb, leb, if◌then◌else◌, ◌>>=◌,
  get_elem?, drop,
}
use mega_feed_handler.Wire.Bytes.{get_u16, get_u32, get_u64}

pub record IextpHeader : Type 0 where
  pub version : ℕ
  pub protocol : ℕ
  pub payload_length : ℕ
  pub message_count : ℕ
  pub channel : ℕ
  pub session : ℕ
  pub stream_offset : ℕ
  pub first_sequence_number : ℕ
  pub send_ns : ℕ

unfoldable pub iextp_fields : List ℕ → Option IextpHeader
iextp_fields packet = do
  version ← get_elem? packet 0
  protocol ← get_u16 (drop 2 packet)
  channel ← get_u32 (drop 4 packet)
  session ← get_u32 (drop 8 packet)
  payload_length ← get_u16 (drop 12 packet)
  message_count ← get_u16 (drop 14 packet)
  stream_offset ← get_u64 (drop 16 packet)
  first_sequence_number ← get_u64 (drop 24 packet)
  send_ns ← get_u64 (drop 32 packet)
  some (record {
    version = version;
    protocol = protocol;
    payload_length = payload_length;
    message_count = message_count;
    channel = channel;
    session = session;
    stream_offset = stream_offset;
    first_sequence_number = first_sequence_number;
    send_ns = send_ns;
  })

-- The outer `none` is a read out of range, `some none` the answer `false`.
unfoldable pub iextp_decode : List ℕ → ℕ → Option (Option IextpHeader)
iextp_decode packet length =
    if ltb length 40
    then some none
    else (iextp_fields packet >>= λ header.
        some (if header.version == 1 then some header else none))

-- A message: the bytes from its first on, and its length.
pub record Message : Type 0 where
  pub bytes : List ℕ
  pub size : ℕ

-- The loop with `left` rounds to go: the messages that the callback is called with, in order.
unfoldable pub each_message : ℕ → List ℕ → ℕ → ℕ → Option (List Message)
each_message zero packet offset end = some []
each_message (suc left) packet offset end =
    if leb (offset + 2) end
    then (get_u16 (drop offset packet) >>= λ message_length.
        if ltb end (offset + 2 + message_length)
        then some []
        else (each_message left packet (offset + 2 + message_length) end >>= λ rest.
            some (record { bytes = drop (offset + 2) packet; size = message_length } ∷ rest)))
    else some []

unfoldable pub iextp_for_each_message : List ℕ → ℕ → IextpHeader → Option (List Message)
iextp_for_each_message packet length header =
    each_message header.message_count packet 40 (min length (header.payload_length + 40))
