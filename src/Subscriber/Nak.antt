-- ===== src/Subscriber/Nak.antt =====
-- src/subscriber.h: the repair connection and `nak`, which writes off old holes and asks for the
-- rest. What the clock, `tcp_connect` and `write_all` answer is an argument.
use mega_feed_handler.Base.{
  ℕ, zero, suc, ◌+◌, List, [], ◌∷◌, ◌++◌, Bool, true, false, ◌&&◌, ◌||◌, not, Option, none, some,
  ◌==◌, ltb, if◌then◌else◌, length,
}
use mega_feed_handler.Base.Bits.{u64, sub64, u16}
use mega_feed_handler.Base.OrdMap.{OrdMap, ascending, find, insert}
use mega_feed_handler.Wire.Bytes.{put_u16, put_u64}
use mega_feed_handler.Subscriber.Bucket.{Hole, Bucket}
use mega_feed_handler.Publisher.Serve.{max_repair_batch}

-- The waiting times in nanoseconds, from src/env.h.
pub record Timing : Type 0 where
  pub nak_delay : ℕ
  pub nak_repeat : ℕ
  pub repair_retry : ℕ
  pub giveup : ℕ

abbrev pub configured : Timing
configured = record {
  nak_delay = 5000000;
  nak_repeat = 200000000;
  repair_retry = 100000000;
  giveup = 2000000000;
}

-- The repair connection: whether it is open, the bytes held, and when a connect may be tried again.
pub record Link : Type 0 where
  pub connected : Bool
  pub buffer : List ℕ
  pub blocked_until : ℕ

unfoldable pub reset_repair : Link → Link
reset_repair link = record link { connected = false; buffer = [] }

-- The loop that writes off the expired holes at the front of the map.
unfoldable pub expire :
    ℕ → ℕ → OrdMap ℕ Hole → OrdMap ℕ (Unit {0}) → OrdMap ℕ Hole × OrdMap ℕ (Unit {0})
expire now giveup [] gone = ([], gone)
expire now giveup ((k, hole) ∷ holes) gone =
    let rest = expire now giveup holes (insert k tt gone) in
    if ltb giveup (sub64 now hole.noticed) then rest else ((k, hole) ∷ holes, gone)

unfoldable pub write_off : ℕ → ℕ → Bucket → Bucket
write_off now giveup b =
    let (holes, gone) = expire now giveup b.holes b.gone in record b { holes = holes; gone = gone }

-- Whether a hole is asked for now: for the first time, or once more.
unfoldable pub is_due : Timing → ℕ → Hole → Bool
is_due t now hole =
    (hole.asked == 0 && ltb t.nak_delay (sub64 now hole.noticed))
    || (not (hole.asked == 0) && ltb t.nak_repeat (sub64 now hole.asked))

-- The batch, with `room` numbers left to fill.
unfoldable pub select_due : Timing → ℕ → ℕ → OrdMap ℕ Hole → List ℕ
select_due t now zero holes = []
select_due t now (suc room) [] = []
select_due t now (suc room) ((k, hole) ∷ holes) =
    let taken = select_due t now room holes in
    let passed = select_due t now (suc room) holes in
    if is_due t now hole then k ∷ taken else passed

unfoldable pub put_sequences : List ℕ → List ℕ
put_sequences [] = []
put_sequences (k ∷ ks) = put_u64 k ++ put_sequences ks

unfoldable pub request_bytes : ℕ → List ℕ → List ℕ
request_bytes id ks = put_u16 (u16 id) ++ (put_u16 (u16 (length ks)) ++ put_sequences ks)

unfoldable pub stamp_one : ℕ → ℕ → OrdMap ℕ Hole → OrdMap ℕ Hole
stamp_one now k holes = elim (find k holes) [
  | none ↦ holes
  | some hole ↦ insert k (record hole { asked = now }) holes
]

unfoldable pub stamp : ℕ → List ℕ → OrdMap ℕ Hole → OrdMap ℕ Hole
stamp now [] holes = holes
stamp now (k ∷ ks) holes = stamp now ks (stamp_one now k holes)

unfoldable pub mark_asked : ℕ → List ℕ → Bucket → Bucket
mark_asked now ks b = record b {
  holes = stamp now ks b.holes;
  stats = record (b.stats) { repair_requests = u64 (b.stats.repair_requests + 1) };
}

-- What the environment answers to one call of `nak`.
pub record Outside : Type 0 where
  pub now : ℕ
  pub connects : Bool
  pub writes : Bool

-- The bucket, the connection, and the request that was written.
pub record Asked : Type 0 where
  pub bucket : Bucket
  pub link : Link
  pub request : Option (List ℕ)

-- Sending a batch, from an open connection.
unfoldable pub send_request : Timing → Outside → List ℕ → Bucket → Link → Asked
send_request t o ks b link =
    if o.writes
    then record {
      bucket = mark_asked o.now ks b;
      link = link;
      request = some (request_bytes b.id ks);
    }
    else record {
      bucket = b;
      link = record (reset_repair link) { blocked_until = u64 (o.now + t.repair_retry) };
      request = none;
    }

-- Connecting first, where there is no connection.
unfoldable pub connect_and_send : Timing → Outside → List ℕ → Bucket → Link → Asked
connect_and_send t o ks b link =
    if link.connected
    then send_request t o ks b link
    else (if o.connects then send_request t o ks b (record link { connected = true }) else record {
      bucket = b;
      link = record link { blocked_until = u64 (o.now + t.repair_retry) };
      request = none;
    })

-- Asking for what is due, of the holes that are left.
unfoldable pub ask : Timing → Outside → Bucket → Link → Asked
ask t o b link =
    let quiet : Asked = record { bucket = b; link = link; request = none } in
    let ks = select_due t o.now max_repair_batch b.holes in
    if length b.holes == 0
    then quiet
    else (if not link.connected && ltb o.now link.blocked_until
        then quiet
        else (if length ks == 0 then quiet else connect_and_send t o ks b link))

unfoldable pub nak : Timing → Outside → Bucket → Link → Asked
nak t o b link =
    if length b.holes == 0
    then record { bucket = b; link = link; request = none }
    else ask t o (write_off o.now t.giveup b) link
