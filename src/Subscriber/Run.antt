-- ===== src/Subscriber/Run.antt =====
-- src/subscriber.h: `run`, which waits for its sockets and calls `pump`, and `heard_feed`.
use mega_feed_handler.Base.{
  ℕ, ◌*◌, Bool, true, not, ◌&&◌, Option, some, List, [], ◌∷◌, ◌++◌, ltb, ◌==◌, if◌then◌else◌, ◌>>=◌,
}
use mega_feed_handler.Base.Bits.{sub64}
use mega_feed_handler.Subscriber.Nak.{Timing}
use mega_feed_handler.Subscriber.Pump.{Subscriber, Inputs, Delivery, pump, all_done}

-- env.h: `SUB_START_TIMEOUT_MS`, in nanoseconds
abbrev pub start_timeout_ns : ℕ
start_timeout_ns = 10_000 * 1_000_000

unfoldable pub heard_feed : Subscriber → Bool
heard_feed s = ltb 0 s.datagrams_seen

-- A round of the loop: `g_stop`, what `pump` meets when `poll` returns, and the clock behind it.
pub record Round : Type 0 where
  pub stopped : Bool
  pub inputs : Inputs
  pub now : ℕ

-- The subscriber with `warned_silent_`.
pub record Runner : Type 0 where
  pub subscriber : Subscriber
  pub warned_silent : Bool

-- What `run` has done: it returns true or false, or it still runs; with all that was handed on.
pub data Answer : Type 0 where
  all_ended : Answer
  interrupted : Answer
  still_running : Answer

pub record Ran : Type 0 where
  pub answer : Answer
  pub runner : Runner
  pub delivered : List Delivery

-- The warning, at most once, when nothing at all has arrived.
unfoldable pub warn_silent : ℕ → ℕ → Runner → Runner
warn_silent started now r =
    if r.subscriber.datagrams_seen == 0
      && not r.warned_silent
      && ltb start_timeout_ns (sub64 now started)
    then record r { warned_silent = true }
    else r

abbrev pub behind : List Delivery → Ran → Ran
behind out ran = record ran { delivered = out ++ ran.delivered }

-- The outer `none` is a read out of range.
unfoldable pub run : Timing → ℕ → List Round → Runner → Option Ran
run t started [] r = some (record { answer = still_running; runner = r; delivered = [] })
run t started (x ∷ rounds) r =
    if x.stopped
    then some (record { answer = interrupted; runner = r; delivered = [] })
    else (pump t x.inputs r.subscriber >>= λ (s, out).
        (let onward =
            run t started rounds (warn_silent started x.now (record r { subscriber = s })) in
          if all_done s.buckets
          then some
              (record { answer = all_ended; runner = record r { subscriber = s }; delivered = out })
          else (onward >>= λ ran. some (behind out ran))))
