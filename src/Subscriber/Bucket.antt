-- ===== src/Subscriber/Bucket.antt =====
-- src/subscriber.h: the state of one bucket, and what datagrams, repair frames and the delivery
-- loop do to it. `std::set` is a map to the unit type; a counter wraps at 64 bits.
use mega_feed_handler.Base.{
  ℕ, zero, suc, ◌+◌, ◌-◌, List, [], ◌∷◌, Bool, true, false, ◌&&◌, ◌||◌, not, Option, none, some,
  ◌==◌, ltb, leb, if◌then◌else◌, length,
}
use mega_feed_handler.Base.Bits.{u64}
use mega_feed_handler.Base.OrdMap.{OrdMap, ascending, find, contains, insert, erase}
use mega_feed_handler.Wire.Message.{OrderMessage}

pub record Stats : Type 0 where
  pub delivered : ℕ
  pub repaired : ℕ
  pub unrecoverable : ℕ
  pub duplicates : ℕ
  pub repair_requests : ℕ

abbrev pub no_stats : Stats
no_stats = record {
  delivered = 0;
  repaired = 0;
  unrecoverable = 0;
  duplicates = 0;
  repair_requests = 0;
}

pub record Hole : Type 0 where
  pub noticed : ℕ
  pub asked : ℕ

pub record Bucket : Type 0 where
  pub id : ℕ
  pub synced : Bool
  pub done : Bool
  pub next_sequence : ℕ
  pub parked : OrdMap ℕ OrderMessage
  pub gone : OrdMap ℕ (Unit {0})
  pub holes : OrdMap ℕ Hole
  pub stats : Stats

-- The body of the constructor's loop.
unfoldable pub make_bucket : ℕ → ℕ → Bucket
make_bucket first_expected id = record {
  id = id;
  synced = ltb 0 first_expected;
  done = false;
  next_sequence = if ltb 0 first_expected then first_expected else 1;
  parked = [];
  gone = [];
  holes = [];
  stats = no_stats;
}

-- Tuning in: the first datagram fixes where the stream starts.
unfoldable pub sync : ℕ → ℕ → Bucket → Bucket
sync backfill sequence b = if b.synced then b else record b {
  next_sequence =
      if backfill == 0
      then sequence
      else (if ltb backfill sequence then sequence - backfill else 1);
  synced = true;
}

unfoldable pub note_hole : ℕ → ℕ → Bucket → Bucket
note_hole now missing b =
    if not (contains missing b.parked)
      && not (contains missing b.holes)
      && not (contains missing b.gone)
    then record b { holes = insert missing (record { noticed = now; asked = 0 }) b.holes }
    else b

-- `for (missing = ...; missing < sequence; missing++)` with `left` rounds to go.
unfoldable pub note_holes : ℕ → ℕ → ℕ → Bucket → Bucket
note_holes zero missing now b = b
note_holes (suc left) missing now b = note_holes left (missing + 1) now (note_hole now missing b)

-- A message that is neither behind nor held already.
unfoldable pub park : ℕ → ℕ → OrderMessage → Bucket → Bucket
park now sequence msg b =
    let noted = note_holes (sequence - b.next_sequence) b.next_sequence now b in
    record noted { holes = erase sequence noted.holes; parked = insert sequence msg noted.parked }

unfoldable pub count_duplicate : Bucket → Bucket
count_duplicate b = record b {
  stats = record (b.stats) { duplicates = u64 (b.stats.duplicates + 1) };
}

-- `accept_OrderMessage`; `now` is what `now_ns` reads.
unfoldable pub accept : ℕ → ℕ → ℕ → OrderMessage → Bucket → Bucket
accept backfill now sequence msg b =
    let s = sync backfill sequence b in
    if ltb sequence s.next_sequence || contains sequence s.parked
    then count_duplicate s
    else park now sequence msg s

-- A repair frame for the bucket: a message, or "gone" for a number that the sender's ring lost.
unfoldable pub on_frame : ℕ → Option OrderMessage → Bucket → Bucket
on_frame sequence none b =
    let closed = record b { holes = erase sequence b.holes } in
    if leb b.next_sequence sequence
    then record closed { gone = insert sequence tt closed.gone }
    else closed
on_frame sequence (some msg) b =
    let closed = record b { holes = erase sequence b.holes } in
    if leb b.next_sequence sequence && not (contains sequence b.parked)
    then record closed {
      parked = insert sequence msg closed.parked;
      stats = record (b.stats) { repaired = u64 (b.stats.repaired + 1) };
    }
    else closed

-- A parked message leaves at the head of the stream.
unfoldable pub take_parked : Bucket → Bucket
take_parked b = record b {
  parked = erase b.next_sequence b.parked;
  next_sequence = u64 (b.next_sequence + 1);
}

unfoldable pub count_delivered : Bucket → Bucket
count_delivered b = record b {
  stats = record (b.stats) { delivered = u64 (b.stats.delivered + 1) };
}

-- A number that is gone is passed over.
unfoldable pub skip_gone : Bucket → Bucket
skip_gone b = record b {
  gone = erase b.next_sequence b.gone;
  next_sequence = u64 (b.next_sequence + 1);
  stats = record (b.stats) { unrecoverable = u64 (b.stats.unrecoverable + 1) };
}

-- The loop of `deliver` on fuel, with the messages that it hands to the callback.
unfoldable pub deliver_loop : ℕ → Bucket → Bucket × List OrderMessage
deliver_loop zero b = (b, [])
deliver_loop (suc fuel) b =
    let after_skip = deliver_loop fuel (skip_gone b) in
    if b.done then (b, []) else elim (find b.next_sequence b.parked) [
      | none ↦ (if contains b.next_sequence b.gone then after_skip else (b, []))
      | some msg ↦
          let rest = deliver_loop fuel (count_delivered (take_parked b)) in
          if msg.type == b'E'
          then (record (take_parked b) { done = true }, [])
          else (rest.0, msg ∷ rest.1)
    ]

-- Every round takes an entry out of `parked` or `gone`.
unfoldable pub deliver : Bucket → Bucket × List OrderMessage
deliver b = deliver_loop (suc (length b.parked + length b.gone)) b
