-- ===== src/Exchange/Tests.antt =====
-- The replay and the check of a small capture.
use mega_feed_handler.Base.{
  ℕ, ◌≡◌, refl, true, false, some, none, List, [], ◌∷◌, arith, inl, replicate, All, ◌==◌,
}
use mega_feed_handler.Capture.Defs.{PcapngReader, new_reader, open_file}
use mega_feed_handler.Capture.Blocks.{found}
use mega_feed_handler.Capture.Encode.{Frame, IsFrame}
use mega_feed_handler.Capture.Times.{IsTimed, captured}
use mega_feed_handler.Exchange.Programs.{World, Replay, replay_capture, Counts, no_counts, checkcap}
use mega_feed_handler.Exchange.Replay.{IsReplayOf}
use mega_feed_handler.Exchange.Check.{IsCounted}
use mega_feed_handler.Exchange.EndToEnd.{capture, opened, replay-capture, checkcap-capture}

abbrev frame : Frame
frame = record {
  addresses = replicate 12 2;
  words = 6;
  ip_middle = replicate 8 0;
  ip_end = replicate 14 1;
  ports = replicate 4 7;
  checksum = 0 ∷ 0 ∷ [];
  payload = 1 ∷ 2 ∷ 3 ∷ 4 ∷ [];
  trailer = replicate 10 0;
}

frame-IsFrame : IsFrame frame
frame-IsFrame = record {
  addresses_length = refl;
  words_ge = omega arith;
  words_lt = omega arith;
  middle_length = refl;
  end_length = refl;
  ports_length = refl;
  checksum_length = refl;
  payload_lt = omega arith;
}

-- Two packets; the second `sendto` fails.
abbrev packets : List (ℕ × Frame)
packets = (5, frame) ∷ (9, frame) ∷ []

packets-IsTimed : All (IsTimed 6) packets
packets-IsTimed = (
  ((frame-IsFrame, omega arith, omega arith), omega arith),
  (((frame-IsFrame, omega arith, omega arith), omega arith), tt),
)

abbrev world : World
world = record { stopped = λ n. false; send_fails = λ n. n == 1 }

replay-capture_example :
    (open_file (some (capture true 0 6 packets)) new_reader ≡ some (none, opened true 0 6 packets))
    × ((result : Replay) × (reader' : PcapngReader) × (replay_capture 10 world
            (opened true 0 6 packets)
          ≡ found result reader')
        × IsReplayOf 10 world (captured 6 packets) result)
replay-capture_example =
    replay-capture true 0 6 packets (inl (omega arith)) packets-IsTimed (omega arith) (omega arith)
      10 world (λ n. refl)

checkcap-capture_example :
    (counts : Counts) × (checkcap (some (capture true 0 6 packets)) ≡ some (counts, 2))
    × IsCounted (captured 6 packets) no_counts counts
checkcap-capture_example =
    checkcap-capture true 0 6 packets (inl (omega arith)) packets-IsTimed (omega arith)
      (omega arith)
