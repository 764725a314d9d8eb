-- ===== src/Subscriber/Repair.antt =====
-- src/subscriber.h: `drain_tcp`, which takes frames out of the bytes that have come over the repair
-- connection. A read past the bytes that are held is `none`.
use mega_feed_handler.Base.{
  ℕ, zero, suc, ◌+◌, List, [], ◌∷◌, ◌++◌, Bool, Option, none, some, ◌==◌, ltb, if◌then◌else◌, ◌>>=◌,
  length, drop,
}
use mega_feed_handler.Wire.Bytes.{get_u16, get_u64}
use mega_feed_handler.Wire.Message.{OrderMessage, order_message_size, message_decode}
use mega_feed_handler.Subscriber.Bucket.{Bucket, on_frame}
use mega_feed_handler.Subscriber.Nak.{Link, reset_repair}

-- `find_bucket`, with what is done to the bucket that it finds.
unfoldable pub update_bucket : ℕ → (Bucket → Bucket) → List Bucket → List Bucket
update_bucket id f [] = []
update_bucket id f (b ∷ bs) = if b.id == id then f b ∷ bs else b ∷ update_bucket id f bs

-- What stands at the front of the buffer: half a frame, a length that no frame has, or a frame.
pub data Head : Type 0 where
  partial : Head
  broken : Head
  whole : ℕ → ℕ → Option OrderMessage → ℕ → Head

unfoldable pub frame_head : List ℕ → Option Head
frame_head bytes = if ltb (length bytes) 12 then some partial else (do
  bucket_id ← get_u16 bytes
  sequence ← get_u64 (drop 2 bytes)
  size ← get_u16 (drop 10 bytes)
  if ltb (length bytes) (12 + size)
      then some partial
      else (if size == 0
          then some (whole bucket_id sequence none 12)
          else (if size == order_message_size
              then (message_decode (drop 12 bytes) >>= λ m.
                  some (whole bucket_id sequence (some m) (12 + order_message_size)))
              else some broken)))

-- The buckets, and the bytes that wait for more; `none` of them if the framing is wrong.
pub record Parsed : Type 0 where
  pub buckets : List Bucket
  pub waiting : Option (List ℕ)

-- The loop over the frames, on fuel.
unfoldable pub parse_frames : ℕ → List ℕ → List Bucket → Option Parsed
parse_frames zero bytes bs = some (record { buckets = bs; waiting = some bytes })
parse_frames (suc fuel) bytes bs = frame_head bytes >>= λ head. elim head [
  | partial ↦ some (record { buckets = bs; waiting = some bytes })
  | broken ↦ some (record { buckets = bs; waiting = none })
  | whole id sequence found size ↦
      parse_frames fuel (drop size bytes) (update_bucket id (on_frame sequence found) bs)
]

-- A frame has twelve bytes at least.
unfoldable pub parse : List ℕ → List Bucket → Option Parsed
parse bytes bs = parse_frames (suc (length bytes)) bytes bs

-- `drain_tcp` when `recv` has taken `received` bytes until the socket was empty or the buffer full;
-- `closed` is whether it said that the server closed.
unfoldable pub drain_tcp : List ℕ → Bool → List Bucket → Link → Option (List Bucket × Link)
drain_tcp received closed bs link =
    if closed
    then some (bs, reset_repair link)
    else (parse (link.buffer ++ received) bs >>= λ p. some (
      p.buckets,
      elim p.waiting [ none ↦ reset_repair link | some rest ↦ record link { buffer = rest } ],
    ))
