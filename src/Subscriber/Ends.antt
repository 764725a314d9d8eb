-- ===== src/Subscriber/Ends.antt =====
-- src/subscriber.h: the reads and the end of `run`.
use mega_feed_handler.Base.{ℕ, sym, List, [], ◌∷◌, All, if_cases, Succeeds, succeeds, Succeeds->>=}
use mathlib.Core.Path.{subst}
use mega_feed_handler.Subscriber.Nak.{Timing}
use mega_feed_handler.Subscriber.Pump.{all_done}
use mega_feed_handler.Subscriber.Total.{IsHeard, IsLink, pump_in}
use mega_feed_handler.Subscriber.Run.{Round, Runner, Ran, run, warn_silent}
use mega_feed_handler.Subscriber.Rounds.{IsRun, run_lem, warn_silent-subscriber}

abbrev pub IsRunner : Runner → Type 0
IsRunner r = IsLink r.subscriber.link

run_in :
    (t : Timing) (started : ℕ) (rounds : List Round) (r : Runner)
    → All (λ x. IsHeard x.inputs) rounds
    → IsRunner r
    → Succeeds (λ e. IsRunner e.runner) (run t started rounds r)
unfolding run
run_in t started [] r heard held = succeeds held
run_in t started (x ∷ rounds) r heard held =
    if_cases (Succeeds (λ (e : Ran). IsRunner e.runner)) x.stopped (λ _. succeeds held)
      (λ _. Succeeds->>= (pump_in t x.inputs r.subscriber heard.0 held) (λ p good.
        let r' = record r { subscriber = p.0 } in
        if_cases (Succeeds (λ (e : Ran). IsRunner e.runner)) (all_done p.0.buckets)
          (λ _. succeeds good)
          (λ _.
            Succeeds->>=
              (run_in t started rounds (warn_silent started x.now r') heard.1
                (subst (λ s. IsLink s.link) (sym (warn_silent-subscriber started x.now r')) good))
              (λ e good'. succeeds good'))))

-- When everything that comes in is bytes, and so is what is held of the repair connection, `run`
-- over any finite list of rounds reads in range. It returns false before the first round that finds
-- `g_stop` set, and true behind the first round whose pump leaves every bucket at its end marker;
-- where no such round is among them, it has run them all and still runs, however silent the feed
-- is. The warning has been given behind a round that it goes on from exactly when it was before, or
-- no datagram has been counted and more than ten seconds have passed since the start, by the clock
-- modulo 2^64. The subscriber and all that the callback got are those of `pump` on the rounds that
-- were run, in order.
pub run-IsRun :
    (t : Timing) (started : ℕ) (rounds : List Round) (r : Runner)
    → All (λ x. IsHeard x.inputs) rounds
    → IsRunner r
    → Succeeds (IsRun t started rounds r) (run t started rounds r)
run-IsRun t started rounds r heard held =
    let (e, ends, _) = run_in t started rounds r heard held in
    (e, ends, run_lem t started rounds r e ends)
