-- ===== src/Subscriber/Reassemble.antt =====
-- src/subscriber.h: `drain_tcp` on the frames of the repair server.
use Prim.Native.Nat.{suc}
use mathlib.Core.Option
use mathlib.Core.List.{append_assoc}
use mega_feed_handler.Base.{
  ℕ, zero, suc, ◌^◌, ◌<◌, ◌≤◌, ◌≡◌, ◌∙◌, refl, ap, List, [], ◌∷◌, ◌++◌, Option, none, some, length,
  drop, arith, le→ltb, length-append, drop_add, All,
}
use mega_feed_handler.Wire.Bytes.{
  put_u16, put_u64, get_u16, get_u64, get_u16-put_u16, get_u64-put_u64,
}
use mega_feed_handler.Wire.Message.{
  OrderMessage, order_message_size, message_encode, message_decode, IsWire,
}
use mega_feed_handler.Wire.RoundTrip.{length-message_encode, message_decode-encode}
use mega_feed_handler.Publisher.Serve.{frame}
use mega_feed_handler.Subscriber.Bucket.{Bucket, on_frame}
use mega_feed_handler.Subscriber.Repair.{
  Head, partial, whole, frame_head, parse_frames, parse, update_bucket,
}

-- A frame that the server sends: the bucket, the number, and the message if the ring has it.
abbrev pub Answer : Type 0
Answer = ℕ × ℕ × Option OrderMessage

-- An answer that the frame's fields can carry.
abbrev pub IsAnswer : Answer → Type 0
IsAnswer (id, sequence, none) = (id < 2 ^ 16) × (sequence < 2 ^ 64)
IsAnswer (id, sequence, some m) = (id < 2 ^ 16) × (sequence < 2 ^ 64) × IsWire m

unfoldable pub answer_frame : Answer → List ℕ
answer_frame (id, sequence, found) = frame id sequence (Option.map message_encode found)

unfoldable pub answer_bytes : List Answer → List ℕ
answer_bytes [] = []
answer_bytes (a ∷ more) = answer_frame a ++ answer_bytes more

unfoldable pub apply_answer : Answer → List Bucket → List Bucket
apply_answer (id, sequence, found) bs = update_bucket id (on_frame sequence found) bs

unfoldable pub apply_answers : List Answer → List Bucket → List Bucket
apply_answers [] bs = bs
apply_answers (a ∷ more) bs = apply_answers more (apply_answer a bs)

-- `frame_head` from what its reads give.
head_reads_gone :
    (bytes : List ℕ) (id sequence : ℕ)
    → 12 ≤ length bytes
    → get_u16 bytes ≡ some id
    → get_u64 (drop 2 bytes) ≡ some sequence
    → get_u16 (drop 10 bytes) ≡ some 0
    → frame_head bytes ≡ some (whole id sequence none 12)
unfolding frame_head
head_reads_gone bytes id sequence l head number size =
    rw (le→ltb (length bytes) 12 l, head, number, size, le→ltb (length bytes) 12 l) refl

head_reads_message :
    (bytes : List ℕ) (id sequence : ℕ) (m : OrderMessage)
    → 41 ≤ length bytes
    → get_u16 bytes ≡ some id
    → get_u64 (drop 2 bytes) ≡ some sequence
    → get_u16 (drop 10 bytes) ≡ some order_message_size
    → message_decode (drop 12 bytes) ≡ some m
    → frame_head bytes ≡ some (whole id sequence (some m) 41)
unfolding frame_head
head_reads_message bytes id sequence m l head number size payload =
    rw
      (
        le→ltb (length bytes) 12 (omega arith),
        head,
        number,
        size,
        le→ltb (length bytes) 41 l,
        payload,
      )
      refl

abbrev answer_head : Answer → Head
answer_head (id, sequence, none) = whole id sequence none 12
answer_head (id, sequence, some m) = whole id sequence (some m) 41

frame_head-frame :
    (a : Answer) (rest : List ℕ)
    → IsAnswer a
    → frame_head (answer_frame a ++ rest) ≡ some (answer_head a)
unfolding answer_frame frame put_u16 put_u64
frame_head-frame (id, sequence, none) rest (p, q) =
    head_reads_gone _ id sequence (omega arith) (get_u16-put_u16 id _ p)
      (get_u64-put_u64 sequence _ q) (get_u16-put_u16 0 _ (omega arith))
frame_head-frame (id, sequence, some m) rest (p, q, w) =
    head_reads_message _ id sequence m
      (omega
        (arith, length-append {0} (message_encode m) rest, length-message_encode m w.symbol_length))
      (get_u16-put_u16 id _ p) (get_u64-put_u64 sequence _ q)
      (get_u16-put_u16 order_message_size _ (omega arith)) (message_decode-encode m rest w)

length-answer_frame : (a : Answer) → IsAnswer a → 12 ≤ length (answer_frame a)
unfolding answer_frame frame put_u16 put_u64
length-answer_frame (id, sequence, none) h = omega arith
length-answer_frame (id, sequence, some m) h = omega arith

parse-answer :
    (fuel : ℕ) (a : Answer) (rest : List ℕ) (bs : List Bucket)
    → IsAnswer a
    → parse_frames (suc fuel) (answer_frame a ++ rest) bs
      ≡ parse_frames fuel rest (apply_answer a bs)
unfolding parse_frames apply_answer
parse-answer fuel (id, sequence, none) rest bs h =
    rw (frame_head-frame (id, sequence, none) rest h)
      (unfold answer_frame frame put_u16 put_u64 in refl)
parse-answer fuel (id, sequence, some m) rest bs h =
    rw (frame_head-frame (id, sequence, some m) rest h) (
      unfold answer_frame frame put_u16 put_u64 in
      ap (λ l. parse_frames fuel l (update_bucket id (on_frame sequence (some m)) bs))
        (drop_add 29 0 (message_encode m) rest (length-message_encode m h.2.symbol_length)))

parse-answers :
    (fuel : ℕ) (answers : List Answer) (tail : List ℕ) (bs : List Bucket)
    → All IsAnswer answers
    → frame_head tail ≡ some partial
    → length (answer_bytes answers ++ tail) < fuel
    → parse_frames fuel (answer_bytes answers ++ tail) bs
      ≡ some (record { buckets = apply_answers answers bs; waiting = some tail })
unfolding answer_bytes apply_answers
parse-answers zero answers tail bs h p f = absurd (omega arith)
parse-answers (suc fuel) [] tail bs h p f = unfold parse_frames in rw p refl
parse-answers (suc fuel) (a ∷ more) tail bs h p f =
    let rest = answer_bytes more ++ tail in
    let split : (answer_frame a ++ answer_bytes more) ++ tail ≡ answer_frame a ++ rest =
      append_assoc (answer_frame a) (answer_bytes more) tail in
    ap (λ l. parse_frames (suc fuel) l bs) split
    ∙ (parse-answer fuel a rest bs h.0
        ∙ parse-answers fuel more tail (apply_answer a bs) h.1 p (
            omega (
              arith,
              ap length split,
              length-append {0} (answer_frame a) rest,
              length-answer_frame a h.0,
            )))

-- Frames of the repair server, with less than a frame behind them, are taken out of the buffer one
-- by one, each for its bucket and its number, and what is behind them waits.
pub parse_lem :
    (answers : List Answer) (tail : List ℕ) (bs : List Bucket)
    → All IsAnswer answers
    → frame_head tail ≡ some partial
    → parse (answer_bytes answers ++ tail) bs
      ≡ some (record { buckets = apply_answers answers bs; waiting = some tail })
unfolding parse
parse_lem answers tail bs h p = parse-answers _ answers tail bs h p (omega arith)
