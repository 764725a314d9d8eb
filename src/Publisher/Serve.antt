-- ===== src/Publisher/Serve.antt =====
-- src/feedpublisher.h: the repair server.
use mega_feed_handler.Base.{
  ℕ, zero, suc, ◌*◌, ◌%◌, List, [], ◌++◌, Bool, ◌&&◌, ◌||◌, Option, none, some, ◌==◌, ltb, leb,
  if◌then◌else◌, ◌>>=◌, get_elem?, take, drop, length,
}
use mega_feed_handler.Wire.Bytes.{put_u16, put_u64, get_u16, get_u64}
use mega_feed_handler.Wire.Message.{order_message_size}
use mega_feed_handler.Publisher.Defs.{Slot, FeedPublisher}

abbrev pub max_repair_batch : ℕ
max_repair_batch = 512

-- The slot of a sequence number, as the payload if it still holds that number. The outer `none` is
-- an access to the ring out of range.
unfoldable pub read_ring : List Slot → ℕ → ℕ → Option (Option (List ℕ))
read_ring ring size sequence = get_elem? ring (sequence % size) >>= λ slot.
    some (if slot.used && slot.sequence == sequence then some slot.msg else none)

-- One frame of a response: `[bucket u16][sequence u64][length u16][length bytes]`.
unfoldable pub frame : ℕ → ℕ → Option (List ℕ) → List ℕ
frame bucket sequence none = put_u16 bucket ++ (put_u64 sequence ++ put_u16 0)
frame bucket sequence (some payload) =
    put_u16 bucket ++ (put_u64 sequence ++ (put_u16 order_message_size ++ payload))

-- The loop over the requested numbers, `count` of them in `sequence_bytes`.
unfoldable pub respond : ℕ → List Slot → ℕ → ℕ → List ℕ → Option (List ℕ)
respond bucket ring size zero sequence_bytes = some []
respond bucket ring size (suc count) sequence_bytes = do
  sequence ← get_u64 sequence_bytes
  found ← read_ring ring size sequence
  rest ← respond bucket ring size count (drop 8 sequence_bytes)
  some (frame bucket sequence found ++ rest)

-- What a client does to its connection: the bytes that it sends before it closes, and for each
-- response whether `write_all` gets it out.
pub record Client : Type 0 where
  pub incoming : List ℕ
  pub accepts : ℕ → Bool

-- `read_exact`: `none` if the connection ends first.
unfoldable pub read_exact : ℕ → List ℕ → Option (List ℕ × List ℕ)
read_exact n bytes = if ltb (length bytes) n then none else some (take n bytes, drop n bytes)

-- A request header that passes the checks: the bucket and the number of sequences. The outer
-- `none` is a read out of range.
unfoldable pub request_header : ℕ → List ℕ → Option (Option (ℕ × ℕ))
request_header bucket_count bytes = do
  bucket ← get_u16 bytes
  count ← get_u16 (drop 2 bytes)
  some (
      if leb bucket_count bucket || count == 0 || ltb max_repair_batch count
      then none
      else some (bucket, count))

-- A request whose header has passed.
unfoldable pub answer_numbers : FeedPublisher → ℕ → ℕ → List ℕ → Option (Option (List ℕ × List ℕ))
answer_numbers p bucket count rest = elim (read_exact (count * 8) rest) [
  | none ↦ some none
  | some (numbers, behind) ↦ get_elem? p.buckets bucket >>= λ b.
      (respond bucket b.ring p.ring_size count numbers >>= λ response.
      some (some (response, behind)))
]

-- One round of the loop: the response to the request at the front of the bytes, and the bytes
-- behind it; `some none` is leaving the loop.
unfoldable pub answer_request : FeedPublisher → List ℕ → Option (Option (List ℕ × List ℕ))
answer_request p incoming = elim (read_exact 4 incoming) [
  | none ↦ some none
  | some (head, rest) ↦ request_header p.bucket_count head >>= λ header. elim header [
    | none ↦ some none
    | some (bucket, count) ↦ answer_numbers p bucket count rest
  ]
]

-- How a session ends: with the connection closed after these bytes, or by a read out of range, or
-- not within the fuel.
pub data Served : Type 0 where
  closed : List ℕ → Served
  fault : Served
  out_of_fuel : Served

unfoldable pub written : List ℕ → Served → Served
written bytes (closed more) = closed (bytes ++ more)
written bytes fault = fault
written bytes out_of_fuel = out_of_fuel

-- `serve_one_client`, from request number `n` on. The publisher goes on between the requests, so
-- each meets a state of its own, which it reads under the lock.
unfoldable pub serve : ℕ → (ℕ → FeedPublisher) → (ℕ → Bool) → ℕ → List ℕ → Served
serve zero publisher accepts n incoming = out_of_fuel
serve (suc fuel) publisher accepts n incoming = elim (answer_request (publisher n) incoming) [
  | none ↦ fault
  | some none ↦ closed []
  | some (some (response, rest)) ↦
      let more = serve fuel publisher accepts (suc n) rest in
      if accepts n then written response more else closed []
]

unfoldable pub serve_one_client : (ℕ → FeedPublisher) → Client → Served
serve_one_client publisher client =
    serve (suc (length client.incoming)) publisher client.accepts 0 client.incoming
