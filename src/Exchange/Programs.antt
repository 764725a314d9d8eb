-- ===== src/Exchange/Programs.antt =====
-- src/exchange.cpp, `main`: the replay loop; src/checkcap.cpp, `main`. Printing is left out, and of
-- the replay its pacing, which sends nothing.
use mega_feed_handler.Base.{
  ℕ, zero, suc, ◌+◌, Bool, not, ◌&&◌, Option, none, some, List, [], ◌∷◌, ◌++◌, ltb, ◌==◌, length,
  if◌then◌else◌,
}
use mega_feed_handler.Base.Bits.{u64}
use mega_feed_handler.Capture.Defs.{PcapngReader, open_file, new_reader}
use mega_feed_handler.Capture.Blocks.{Reading, ended, found, fault, out_of_fuel}
use mega_feed_handler.Capture.Frames.{next_packet, bytes_left}

-- env.h: `PCAP_PACKET_COUNT`
abbrev pub pcap_packet_count : ℕ
pcap_packet_count = 1_000_000

-- The counters of the replay, and what `sendto` was called with.
pub record Replay : Type 0 where
  pub packets : ℕ
  pub bytes : ℕ
  pub send_failures : ℕ
  pub sent : List (List ℕ)

abbrev pub no_replay : Replay
no_replay = record { packets = 0; bytes = 0; send_failures = 0; sent = [] }

-- The world of the replay: `g_stop` before round `n`, and whether the `n`-th `sendto` fails.
pub record World : Type 0 where
  pub stopped : ℕ → Bool
  pub send_fails : ℕ → Bool

unfoldable pub send_packet : World → List ℕ → Replay → Replay
send_packet world payload replay = record {
  packets = u64 (replay.packets + 1);
  bytes = u64 (replay.bytes + length payload);
  send_failures =
      if world.send_fails replay.packets
      then u64 (replay.send_failures + 1)
      else replay.send_failures;
  sent = replay.sent ++ (payload ∷ []);
}

-- The loop, for a capture of at most `pcap_packet_count` packets that are replayed.
unfoldable pub replay_loop : ℕ → ℕ → World → PcapngReader → Replay → Reading Replay
replay_loop zero count world reader replay = out_of_fuel
replay_loop (suc fuel) count world reader replay =
    if not (world.stopped replay.packets) && ltb replay.packets count
    then (elim (next_packet reader) [
      | ended reader' ↦ found replay reader'
      | fault ↦ fault
      | out_of_fuel ↦ out_of_fuel
      | found (payload, timestamp_ns) reader' ↦
          replay_loop fuel count world reader' (send_packet world payload replay)
    ])
    else found replay reader

-- Each round takes a block of the capture.
unfoldable pub replay_capture : ℕ → World → PcapngReader → Reading Replay
replay_capture count world reader =
    replay_loop (suc (bytes_left reader)) count world reader no_replay

-- The counters of `checkcap`.
pub record Counts : Type 0 where
  pub packets : ℕ
  pub bytes : ℕ
  pub first_ns : ℕ
  pub last_ns : ℕ

abbrev pub no_counts : Counts
no_counts = record { packets = 0; bytes = 0; first_ns = 0; last_ns = 0 }

unfoldable pub count_packet : List ℕ → ℕ → Counts → Counts
count_packet payload timestamp_ns counts = record {
  packets = u64 (counts.packets + 1);
  bytes = u64 (counts.bytes + length payload);
  first_ns = if counts.packets == 0 then timestamp_ns else counts.first_ns;
  last_ns = timestamp_ns;
}

unfoldable pub count_loop : ℕ → PcapngReader → Counts → Reading Counts
count_loop zero reader counts = out_of_fuel
count_loop (suc fuel) reader counts = elim (next_packet reader) [
  | ended reader' ↦ found counts reader'
  | fault ↦ fault
  | out_of_fuel ↦ out_of_fuel
  | found (payload, timestamp_ns) reader' ↦
      count_loop fuel reader' (count_packet payload timestamp_ns counts)
]

unfoldable pub count_capture : PcapngReader → Reading Counts
count_capture reader = count_loop (suc (bytes_left reader)) reader no_counts

-- The exit code of `checkcap` for a capture that was read.
unfoldable pub exit_code : Counts → ℕ
exit_code counts =
    if counts.packets == 0 then 1 else (if ltb counts.packets pcap_packet_count then 2 else 0)

-- `checkcap` on what is found under the path: its counters and its exit code. `none` is a read out
-- of range, or the fuel running out.
unfoldable pub checkcap : Option (List ℕ) → Option (Counts × ℕ)
checkcap file = elim (open_file file new_reader) [
  | none ↦ none
  | some (some error, reader) ↦ some (no_counts, 1)
  | some (none, reader) ↦ elim (count_capture reader) [
    | found counts reader' ↦ some (counts, exit_code counts)
    | ended reader' ↦ none
    | fault ↦ none
    | out_of_fuel ↦ none
  ]
]
