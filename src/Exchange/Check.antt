-- ===== src/Exchange/Check.antt =====
-- src/checkcap.cpp, `main`: what it counts in a capture.
use mega_feed_handler.Base.{
  ℕ, zero, suc, ◌+◌, ◌^◌, ◌<◌, ◌≤◌, ◌≡◌, refl, List, [], ◌∷◌, arith, ◌==◌, length, if◌then◌else◌,
}
use mega_feed_handler.Capture.Defs.{PcapngReader}
use mega_feed_handler.Capture.Blocks.{found}
use mega_feed_handler.Capture.Frames.{bytes_left}
use mega_feed_handler.Capture.Yields.{Yields, finished, more}
use mega_feed_handler.Exchange.Programs.{Counts, no_counts, count_packet, count_loop, count_capture}
use mega_feed_handler.Exchange.Replay.{total_bytes}

abbrev pub first_time : ℕ → List (List ℕ × ℕ) → ℕ
first_time time [] = time
first_time time ((payload, time') ∷ rest) = time'

abbrev pub last_time : ℕ → List (List ℕ × ℕ) → ℕ
last_time time [] = time
last_time time ((payload, time') ∷ rest) = last_time time' rest

-- The counters from `counts` on behind the payloads `xs`.
pub record IsCounted (xs : List (List ℕ × ℕ)) (counts result : Counts) : Type 0 where
  pub packets_read : result.packets ≡ counts.packets + length xs
  pub bytes_read : result.bytes ≡ counts.bytes + total_bytes xs
  pub first_read :
      result.first_ns
      ≡ (if counts.packets == 0 then first_time counts.first_ns xs else counts.first_ns)
  pub last_read : result.last_ns ≡ last_time counts.last_ns xs

nothing-IsCounted : (counts : Counts) → IsCounted [] counts counts
nothing-IsCounted counts = record {
  packets_read = omega arith;
  bytes_read = omega arith;
  first_read = ground arith;
  last_read = refl;
}

count_packet-IsCounted :
    (payload : List ℕ) (time : ℕ) (xs : List (List ℕ × ℕ)) (counts result : Counts)
    → suc counts.packets < 2 ^ 64
    → counts.bytes + length payload < 2 ^ 64
    → IsCounted xs (count_packet payload time counts) result
    → IsCounted ((payload, time) ∷ xs) counts result
unfolding count_packet
count_packet-IsCounted payload time xs counts result p b behind = record {
  packets_read = omega (arith, behind.packets_read, p);
  bytes_read = omega (arith, behind.bytes_read, b);
  first_read = ground (arith, behind.first_read, p);
  last_read = behind.last_read;
}

count_loop_lem :
    {reader : PcapngReader} {xs : List (List ℕ × ℕ)}
    → Yields reader xs
    → (fuel : ℕ) (counts : Counts) → length xs < fuel
    → counts.packets + length xs < 2 ^ 64
    → counts.bytes + total_bytes xs < 2 ^ 64
    → (result : Counts) × (reader' : PcapngReader) × (count_loop fuel reader counts
        ≡ found result reader')
      × IsCounted xs counts result
unfolding count_loop count_packet
count_loop_lem y zero counts enough p b = absurd (omega arith)
count_loop_lem (finished {r' = r'} e) (suc fuel) counts enough p b =
    (counts, r', rw (e, count_loop) refl, nothing-IsCounted counts)
count_loop_lem (more {payload} {time} {rest} e y) (suc fuel) counts enough p b =
    let (result, reader', e', behind) =
      count_loop_lem y fuel (count_packet payload time counts) (omega arith) (omega (arith, p))
        (omega (arith, b)) in
    (
      result,
      reader',
      rw (e, count_loop) e',
      count_packet-IsCounted payload time rest counts result (omega (arith, p)) (omega (arith, b))
          behind,
    )

-- `checkcap` reads all of a capture, and its counters are those of the payloads.
pub count_capture_lem :
    (reader : PcapngReader) (xs : List (List ℕ × ℕ))
    → Yields reader xs
    → length xs ≤ bytes_left reader
    → length xs < 2 ^ 64
    → total_bytes xs < 2 ^ 64
    → (result : Counts) × (reader' : PcapngReader) × (count_capture reader ≡ found result reader')
      × IsCounted xs no_counts result
unfolding count_capture
count_capture_lem reader xs y left n b =
    count_loop_lem y (suc (bytes_left reader)) no_counts (omega (arith, left)) (omega (arith, n))
      (omega (arith, b))
