-- ===== src/Subscriber/Drain.antt =====
-- src/subscriber.h: `drain_udp` as steps of a run.
use mega_feed_handler.Base.{ℕ, Option, if◌then◌else◌, ◌<◌, ◌≡◌, List, [], ◌∷◌, some, ◌==◌, length}
use mega_feed_handler.Wire.Message.{OrderMessage, Dgram, dgram_decode}
use mega_feed_handler.Subscriber.Bucket.{Bucket, accept}
use mega_feed_handler.Subscriber.Invariant.{limit}
use mega_feed_handler.Subscriber.Pump.{Received, drain_udp}

-- A datagram for a bucket, with the clock when it is accepted.
pub record Heard : Type 0 where
  pub now : ℕ
  pub sequence : ℕ
  pub message : OrderMessage

-- What decodes to a datagram for this bucket is kept, and all else is passed over.
abbrev kept : ℕ → ℕ → Option (Option Dgram) → List Heard → List Heard
kept id now (some (some d)) heard =
    if d.bucket == id
    then record { now = now; sequence = d.sequence; message = d.message } ∷ heard
    else heard
kept id now _ heard = heard

-- The datagrams of a bucket among those that its socket has, in order.
abbrev pub heard_for : ℕ → List Received → List Heard
heard_for id [] = []
heard_for id (r ∷ rs) = kept id r.now (dgram_decode r.bytes (length r.bytes)) (heard_for id rs)

-- One after the other.
abbrev pub accept_all : ℕ → List Heard → Bucket → Bucket
accept_all backfill [] b = b
accept_all backfill (d ∷ ds) b =
    accept_all backfill ds (accept backfill d.now d.sequence d.message b)

-- A datagram of the stream.
abbrev pub IsAuthentic : (ℕ → OrderMessage) → Heard → Type 0
IsAuthentic h d = (d.message ≡ h d.sequence) × (d.sequence < limit)

-- `drain_udp` accepts and counts what is for a bucket of this id.
abbrev Drains : ℕ → ℕ → List Received → Bucket → Type 0
Drains id backfill rs b =
    drain_udp backfill rs b
    ≡ some (accept_all backfill (heard_for id rs) b, length (heard_for id rs))
