-- ===== src/Exchange/Replay.antt =====
-- src/exchange.cpp, `main`: what the replay of a capture sends.
use mega_feed_handler.Base.{
  ℕ, zero, suc, ◌+◌, ◌-◌, ◌^◌, ◌<◌, ◌≤◌, ◌≡◌, refl, sym, ◌∙◌, Bool, false, List, [], ◌∷◌, ◌++◌,
  arith, ltb, Bool-cases, inl, inr, take-nil, length, take, if◌then◌else◌,
}
use mathlib.Core.List.{append_assoc, append-nil}
use mega_feed_handler.Base.Bits.{u64}
use mega_feed_handler.Capture.Defs.{PcapngReader}
use mega_feed_handler.Capture.Blocks.{found}
use mega_feed_handler.Capture.Frames.{bytes_left}
use mega_feed_handler.Capture.Yields.{Yields, finished, more}
use mega_feed_handler.Exchange.Programs.{
  Replay, World, no_replay, send_packet, replay_loop, replay_capture,
}

-- The bytes of some payloads.
abbrev pub total_bytes : List (List ℕ × ℕ) → ℕ
total_bytes [] = 0
total_bytes ((payload, time) ∷ rest) = length payload + total_bytes rest

abbrev pub payloads : List (List ℕ × ℕ) → List (List ℕ)
payloads [] = []
payloads ((payload, time) ∷ rest) = payload ∷ payloads rest

-- How many of the `n` sends from number `i` on fail.
abbrev pub failures : (ℕ → Bool) → ℕ → ℕ → ℕ
failures send_fails zero i = 0
failures send_fails (suc n) i =
    let rest = failures send_fails n (suc i) in if send_fails i then suc rest else rest

failures-le : (send_fails : ℕ → Bool) (n i : ℕ) → failures send_fails n i ≤ n
failures-le send_fails zero i = omega arith
failures-le send_fails (suc n) i = let rest = failures-le send_fails n (suc i) in ground arith

module _ (count : ℕ) (world : World) (going : (n : ℕ) → world.stopped n ≡ false) where
  -- The counters behind a replay of `xs`: none of them has wrapped around.
  record IsAfter (xs : List (List ℕ × ℕ)) (replay result : Replay) : Type 0 where
    packets_sent : result.packets ≡ replay.packets + length xs
    bytes_sent : result.bytes ≡ replay.bytes + total_bytes xs
    sends_failed :
        result.send_failures
        ≡ replay.send_failures + failures world.send_fails (length xs) replay.packets
    sent_in_order : result.sent ≡ replay.sent ++ payloads xs

  nothing-IsAfter : (replay : Replay) → IsAfter [] replay replay
  nothing-IsAfter replay = record {
    packets_sent = omega arith;
    bytes_sent = omega arith;
    sends_failed = omega arith;
    sent_in_order = sym (append-nil replay.sent);
  }

  send_packet-IsAfter :
      (payload : List ℕ) (time : ℕ) (xs : List (List ℕ × ℕ)) (replay result : Replay)
      → suc replay.packets < 2 ^ 64
      → replay.bytes + length payload < 2 ^ 64
      → suc replay.send_failures < 2 ^ 64
      → IsAfter xs (send_packet world payload replay) result
      → IsAfter ((payload, time) ∷ xs) replay result
  unfolding send_packet
  send_packet-IsAfter payload time xs replay result p b f behind =
      let next : u64 (replay.packets + 1) ≡ suc replay.packets = omega (arith, p) in
      let failed = rw next at behind.sends_failed in
      record {
        packets_sent = omega (arith, behind.packets_sent, p);
        bytes_sent = omega (arith, behind.bytes_sent, b);
        sends_failed = ground (arith, failed, f);
        sent_in_order =
            behind.sent_in_order ∙ append_assoc replay.sent (payload ∷ []) (payloads xs);
      }

  send_packet-IsAfter_first :
      (payload : List ℕ) (time : ℕ) (xs : List (List ℕ × ℕ)) (replay result : Replay)
      → replay.packets < count
      → suc replay.packets < 2 ^ 64
      → replay.bytes + length payload < 2 ^ 64
      → suc replay.send_failures < 2 ^ 64
      → IsAfter
          (take (count - u64 (replay.packets + 1)) xs)
          (send_packet world payload replay)
          result
      → IsAfter (take (count - replay.packets) ((payload, time) ∷ xs)) replay result
  send_packet-IsAfter_first payload time xs replay result below p b f behind =
      let next : u64 (replay.packets + 1) ≡ suc replay.packets = omega (arith, p) in
      let left : count - replay.packets ≡ suc (count - suc replay.packets) = omega (arith, below) in
      rw left (
        send_packet-IsAfter payload time (take (count - suc replay.packets) xs) replay result p b f
          (rw next at behind))

  replay_loop_lem :
      {reader : PcapngReader} {xs : List (List ℕ × ℕ)}
      → Yields reader xs
      → (fuel : ℕ) (replay : Replay) → length xs < fuel
      → replay.packets + length xs < 2 ^ 64
      → replay.bytes + total_bytes xs < 2 ^ 64
      → replay.send_failures + length xs < 2 ^ 64
      → (result : Replay) × (reader' : PcapngReader) × (replay_loop fuel count world reader replay
          ≡ found result reader')
        × IsAfter (take (count - replay.packets) xs) replay result
  unfolding replay_loop send_packet
  replay_loop_lem y zero replay enough p b f = absurd (omega arith)
  replay_loop_lem {reader} (finished {r' = r'} e) (suc fuel) replay enough p b f =
      let last : IsAfter (take (count - replay.packets) []) replay replay =
        rw (take-nil (List ℕ × ℕ) (count - replay.packets)) (nothing-IsAfter replay) in
      elim (Bool-cases (ltb replay.packets count)) [
        | inl below ↦ (replay, r', rw (going replay.packets, below, e, replay_loop) refl, last)
        | inr full ↦ (replay, reader, rw (going replay.packets, full, replay_loop) refl, last)
      ]
  replay_loop_lem {reader} (more {r' = r'} {payload} {time} {rest} e y) (suc fuel) replay enough p b
        f =
      elim (Bool-cases (ltb replay.packets count)) [
        | inl below ↦
            let next : u64 (replay.packets + 1) ≡ suc replay.packets = omega (arith, p) in
            let replay' = send_packet world payload replay in
            let failed : replay'.send_failures ≤ suc replay.send_failures =
              ground (arith, send_packet) in
            let (result, reader', e', behind) =
              replay_loop_lem y fuel replay' (omega arith) (omega (arith, p, next))
                (omega (arith, b)) (omega (arith, f, failed)) in
            (
              result,
              reader',
              rw (going replay.packets, below, e, replay_loop) e',
              send_packet-IsAfter_first payload time rest replay result (ground arith)
                  (omega (arith, p)) (omega (arith, b)) (omega (arith, f)) behind,
            )
        | inr full ↦
            let none_left : count - replay.packets ≡ 0 = ground arith in
            (
              replay,
              reader,
              rw (going replay.packets, full, replay_loop) refl,
              rw none_left (nothing-IsAfter replay),
            )
      ]

-- The counters and the sends of a replay of the first `count` of `xs`.
pub record IsReplayOf (count : ℕ) (world : World) (xs : List (List ℕ × ℕ)) (result : Replay)
    : Type 0 where
  pub sent_in_order : result.sent ≡ payloads (take count xs)
  pub packets_sent : result.packets ≡ length (take count xs)
  pub bytes_sent : result.bytes ≡ total_bytes (take count xs)
  pub sends_failed : result.send_failures ≡ failures world.send_fails (length (take count xs)) 0

after-IsReplayOf :
    (count : ℕ) (world : World) (going : (n : ℕ) → world.stopped n ≡ false) (xs : List (List ℕ × ℕ))
    (result : Replay)
    → IsAfter count world going (take (count - 0) xs) no_replay result
    → IsReplayOf count world xs result
after-IsReplayOf count world going xs result behind =
    let all : count - 0 ≡ count = omega arith in
    let fine : IsAfter count world going (take count xs) no_replay result = rw all at behind in
    record {
      sent_in_order = fine.sent_in_order;
      packets_sent = omega (arith, fine.packets_sent);
      bytes_sent = omega (arith, fine.bytes_sent);
      sends_failed = omega (arith, fine.sends_failed);
    }

-- A replay that is never stopped: the first `count` payloads, each in one send and in order.
pub replay_capture_lem :
    (count : ℕ) (world : World)
    → ((n : ℕ) → world.stopped n ≡ false)
    → (reader : PcapngReader) (xs : List (List ℕ × ℕ)) → Yields reader xs
    → length xs ≤ bytes_left reader
    → length xs < 2 ^ 64
    → total_bytes xs < 2 ^ 64
    → (result : Replay) × (reader' : PcapngReader) × (replay_capture count world reader
        ≡ found result reader')
      × IsReplayOf count world xs result
unfolding replay_capture
replay_capture_lem count world going reader xs y left n b =
    let (result, reader', e, behind) =
      replay_loop_lem count world going y (suc (bytes_left reader)) no_replay (omega (arith, left))
        (omega (arith, n)) (omega (arith, b)) (omega (arith, n)) in
    (result, reader', e, after-IsReplayOf count world going xs result behind)
