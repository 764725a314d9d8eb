-- ===== src/Subscriber/RunTests.antt =====
-- src/subscriber.h: concrete rounds of `run`.
use mega_feed_handler.Base.{
  ◌≡◌, refl, List, [], ◌∷◌, ◌++◌, true, false, some, Succeeds, arith, replicate,
}
use mega_feed_handler.Base.OrdMap.{find, contains}
use mega_feed_handler.Subscriber.Bucket.{make_bucket, deliver_loop, deliver}
use mega_feed_handler.Subscriber.Nak.{configured, nak}
use mega_feed_handler.Subscriber.Pump.{
  Subscriber, Inputs, closed_link, drain_udp, drain_all, drain_link, serve_buckets, tag, pump,
  all_done,
}
use mega_feed_handler.Subscriber.Total.{IsHeard}
use mega_feed_handler.Subscriber.Run.{Round, Runner, Ran, interrupted, warn_silent, run}
use mega_feed_handler.Subscriber.Rounds.{IsRun}
use mega_feed_handler.Subscriber.Ends.{run-IsRun}

-- A round in which nothing comes, behind which `run` is stopped.
abbrev nothing_comes : Inputs
nothing_comes = record {
  datagrams = λ index. [];
  repairs = [];
  closed = false;
  outside = λ index. record { now = 7; connects = false; writes = false };
}

abbrev idle_rounds : List Round
idle_rounds =
    record { stopped = false; inputs = nothing_comes; now = 20_000_000_000 }
    ∷ record { stopped = true; inputs = nothing_comes; now = 20_000_000_001 }
    ∷ []

abbrev waiting : Subscriber
waiting = record {
  buckets = make_bucket 0 3 ∷ [];
  link = closed_link;
  backfill = 0;
  datagrams_seen = 0;
}

abbrev warned : Ran
warned = record {
  answer = interrupted;
  runner = record { subscriber = waiting; warned_silent = true };
  delivered = [];
}

idle_rounds_stop :
    run configured 0 idle_rounds (record { subscriber = waiting; warned_silent = false })
    ≡ some warned
unfolding run pump drain_all drain_udp drain_link serve_buckets nak deliver deliver_loop all_done
    warn_silent make_bucket tag find contains
idle_rounds_stop = refl

-- Bytes that are no datagram, and a frame of the repair server with half of one behind it.
abbrev noise : Inputs
noise = record {
  datagrams = λ index. record { now = 9; bytes = 7 ∷ 8 ∷ [] } ∷ [];
  repairs = 0 ∷ 5 ∷ (replicate 9 0 ++ (3 ∷ 0 ∷ []));
  closed = false;
  outside = λ index. record { now = 7; connects = true; writes = false };
}

noise-IsHeard : IsHeard noise
noise-IsHeard = record { datagrams_are = λ index. ground arith; repairs_are = ground arith }

abbrev noisy_rounds : List Round
noisy_rounds =
    record { stopped = false; inputs = noise; now = 20 }
    ∷ record { stopped = false; inputs = noise; now = 30 }
    ∷ record { stopped = true; inputs = noise; now = 40 }
    ∷ []

abbrev connected : Runner
connected = record {
  subscriber = record waiting {
    link = record { connected = true; buffer = 3 ∷ []; blocked_until = 0 };
  };
  warned_silent = false;
}

run-IsRun_example :
    Succeeds (IsRun configured 0 noisy_rounds connected) (run configured 0 noisy_rounds connected)
run-IsRun_example =
    run-IsRun configured 0 noisy_rounds connected
      (noise-IsHeard, (noise-IsHeard, (noise-IsHeard, tt))) (ground arith)
