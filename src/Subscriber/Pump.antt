-- ===== src/Subscriber/Pump.antt =====
-- src/subscriber.h: the subscriber, which serves all its buckets in turn.
use mega_feed_handler.Base.{
  ℕ, ◌+◌, List, [], ◌∷◌, ◌++◌, Bool, true, false, ◌&&◌, not, Option, none, some, ◌==◌,
  if◌then◌else◌, ◌>>=◌, length,
}
use mega_feed_handler.Base.Bits.{u64}
use mega_feed_handler.Wire.Message.{OrderMessage, dgram_decode}
use mega_feed_handler.Subscriber.Bucket.{Bucket, Stats, no_stats, accept, deliver, make_bucket}
use mega_feed_handler.Subscriber.Nak.{Link, Timing, Outside, nak}
use mega_feed_handler.Subscriber.Repair.{drain_tcp}

pub record Subscriber : Type 0 where
  pub buckets : List Bucket
  pub link : Link
  pub backfill : ℕ
  pub datagrams_seen : ℕ

abbrev pub closed_link : Link
closed_link = record { connected = false; buffer = []; blocked_until = 0 }

unfoldable pub make_buckets : ℕ → List ℕ → List Bucket
make_buckets first_expected [] = []
make_buckets first_expected (id ∷ ids) =
    make_bucket first_expected id ∷ make_buckets first_expected ids

-- The constructor; a join from a number has no backfill.
unfoldable pub make_subscriber : List ℕ → ℕ → ℕ → Subscriber
make_subscriber ids first_expected backfill = record {
  buckets = make_buckets first_expected ids;
  link = closed_link;
  backfill = if first_expected == 0 then backfill else 0;
  datagrams_seen = 0;
}

-- A datagram as `recv` gives it, with the clock when it is accepted.
pub record Received : Type 0 where
  pub now : ℕ
  pub bytes : List ℕ

-- `drain_udp`: the bucket, and how many datagrams were for it. The outer `none` is a read out of
-- range.
unfoldable pub drain_udp : ℕ → List Received → Bucket → Option (Bucket × ℕ)
drain_udp backfill [] b = some (b, 0)
drain_udp backfill (r ∷ rs) b = dgram_decode r.bytes (length r.bytes) >>= λ decoded. elim decoded [
  | none ↦ drain_udp backfill rs b
  | some d ↦
      if not (d.bucket == b.id)
      then drain_udp backfill rs b
      else (drain_udp backfill rs (accept backfill r.now d.sequence d.message b) >>= λ s.
          some (s.0, s.1 + 1))
]

-- What the sockets and the clock give to one call of `pump`: the datagrams of each bucket, the bytes
-- of the repair connection and whether it closed, and what each call of `nak` meets.
pub record Inputs : Type 0 where
  pub datagrams : ℕ → List Received
  pub repairs : List ℕ
  pub closed : Bool
  pub outside : ℕ → Outside

unfoldable pub drain_all : ℕ → Inputs → ℕ → List Bucket → Option (List Bucket × ℕ)
drain_all backfill i index [] = some ([], 0)
drain_all backfill i index (b ∷ bs) = do
  (b', seen) ← drain_udp backfill (i.datagrams index) b
  (bs', more) ← drain_all backfill i (index + 1) bs
  some (b' ∷ bs', seen + more)

-- A message with the id of its bucket, as the callback gets it.
abbrev pub Delivery : Type 0
Delivery = ℕ × OrderMessage

unfoldable pub tag : ℕ → List OrderMessage → List Delivery
tag id [] = []
tag id (m ∷ ms) = (id, m) ∷ tag id ms

-- `nak` and `deliver` for one bucket after the other.
unfoldable pub serve_buckets :
    Timing → Inputs → ℕ → List Bucket → Link → List Bucket × Link × List Delivery
serve_buckets t i index [] link = ([], link, [])
serve_buckets t i index (b ∷ bs) link =
    let asked = nak t (i.outside index) b link in
    let (b', out) = deliver asked.bucket in
    let (bs', link', more) = serve_buckets t i (index + 1) bs asked.link in
    (b' ∷ bs', link', tag b.id out ++ more)

unfoldable pub drain_link : Inputs → List Bucket → Link → Option (List Bucket × Link)
drain_link i bs link =
    if link.connected then drain_tcp i.repairs i.closed bs link else some (bs, link)

unfoldable pub pump : Timing → Inputs → Subscriber → Option (Subscriber × List Delivery)
pump t i s = do
  (heard, seen) ← drain_all s.backfill i 0 s.buckets
  (repaired, link) ← drain_link i heard s.link
  let (bs, link', out) = serve_buckets t i 0 repaired link
  some
      (record s { buckets = bs; link = link'; datagrams_seen = u64 (s.datagrams_seen + seen) }, out)

-- Whether every bucket has reached its end marker.
unfoldable pub all_done : List Bucket → Bool
all_done [] = true
all_done (b ∷ bs) = b.done && all_done bs

unfoldable pub add_stats : Stats → Stats → Stats
add_stats total s = record {
  delivered = u64 (total.delivered + s.delivered);
  repaired = u64 (total.repaired + s.repaired);
  unrecoverable = u64 (total.unrecoverable + s.unrecoverable);
  duplicates = u64 (total.duplicates + s.duplicates);
  repair_requests = u64 (total.repair_requests + s.repair_requests);
}

-- `stats`, the loop with the total so far.
unfoldable pub sum_stats : Stats → List Bucket → Stats
sum_stats total [] = total
sum_stats total (b ∷ bs) = sum_stats (add_stats total b.stats) bs

unfoldable pub stats_for : ℕ → List Bucket → Stats
stats_for id [] = no_stats
stats_for id (b ∷ bs) = if b.id == id then b.stats else stats_for id bs
