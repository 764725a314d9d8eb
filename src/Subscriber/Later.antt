-- ===== src/Subscriber/Later.antt =====
-- src/subscriber.h: what may happen to a tuned bucket from some moment of a run on.
use mega_feed_handler.Base.{ℕ, ◌<◌, List, ◌++◌, none, some}
use mega_feed_handler.Wire.Message.{OrderMessage}
use mega_feed_handler.Subscriber.Bucket.{Bucket, accept, on_frame, deliver}
use mega_feed_handler.Subscriber.Nak.{Timing, Link, Outside, nak}
use mega_feed_handler.Subscriber.Invariant.{limit, Live}
use mega_feed_handler.Subscriber.Datagram.{accept-Live}
use mega_feed_handler.Subscriber.Frames.{on_frame-Live}
use mega_feed_handler.Subscriber.Chase.{nak-Live}
use mega_feed_handler.Subscriber.Stream.{deliver-Live}

-- The buckets that a run reaches from `b`, which has handed on `out`, by the steps of a run.
pub data Later (h : ℕ → OrderMessage) (b : Bucket) (out : List OrderMessage)
    : Bucket → List OrderMessage → Type 0 where
  at_once : Later h b out b out
  then_datagram :
      {c : Bucket} {next : List OrderMessage} (backfill now sequence : ℕ)
      → sequence < limit
      → Later h b out c next
      → Later h b out (accept backfill now sequence (h sequence) c) next
  then_repaired :
      {c : Bucket} {next : List OrderMessage} (sequence : ℕ)
      → sequence < limit
      → Later h b out c next
      → Later h b out (on_frame sequence (some (h sequence)) c) next
  then_refused :
      {c : Bucket} {next : List OrderMessage} (sequence : ℕ)
      → sequence < limit
      → Later h b out c next
      → Later h b out (on_frame sequence none c) next
  then_chased :
      {c : Bucket} {next : List OrderMessage} (t : Timing) (o : Outside) (link : Link)
      → Later h b out c next
      → Later h b out (nak t o c link).bucket next
  then_handed_on :
      {c : Bucket} {next : List OrderMessage}
      → Later h b out c next
      → Later h b out (deliver c).0 (next ++ (deliver c).1)

-- The invariant is kept, and how far the datagrams have shown the stream does not fall back.
pub Later-Live :
    {low : ℕ} {h : ℕ → OrderMessage} {start : ℕ} {b : Bucket} {out : List OrderMessage} {c : Bucket}
    {next : List OrderMessage}
    → Live low h start b out
    → Later h b out c next
    → Live low h start c next
Later-Live v at_once = v
Later-Live {h = h} {start = start} v
      (then_datagram {c = c} {next = next} backfill now sequence small r) =
    accept-Live h start c next backfill now sequence small (Later-Live v r)
Later-Live {h = h} {start = start} v (then_repaired {c = c} {next = next} sequence small r) =
    (on_frame-Live h start c next sequence small (Later-Live v r)).0
Later-Live {h = h} {start = start} v (then_refused {c = c} {next = next} sequence small r) =
    (on_frame-Live h start c next sequence small (Later-Live v r)).1
Later-Live {h = h} {start = start} v (then_chased {c = c} {next = next} t o link r) =
    nak-Live h start next t o c link (Later-Live v r)
Later-Live {h = h} {start = start} v (then_handed_on {c = c} {next = next} r) =
    deliver-Live h start c next (Later-Live v r)
