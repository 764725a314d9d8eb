-- ===== src/Feed/Main.antt =====
-- src/feedhandler.cpp, `main` and `report`: the loop that receives the venue's packets until it is
-- stopped, hears nothing any more, or never hears anything.
use mega_feed_handler.Base.{
  ℕ, ◌+◌, ◌*◌, Bool, not, Option, none, some, List, [], ◌∷◌, ◌++◌, ltb, ◌==◌, length, if◌then◌else◌,
  ◌>>=◌,
}
use mega_feed_handler.Base.Bits.{u64, sub64}
use mega_feed_handler.Publisher.Defs.{Bucket, FeedPublisher, Sent, finish}
use mega_feed_handler.Feed.Handler.{FeedHandler, on_payload}

-- env.h, in nanoseconds
abbrev pub idle_stop_ns : ℕ
idle_stop_ns = 2000 * 1_000_000

abbrev pub start_timeout_ns : ℕ
start_timeout_ns = 10_000 * 1_000_000

-- What `recv` answers before the socket is drained: a signal, or a packet, with the clock behind it.
pub data Arrival : Type 0 where
  interrupted : Arrival
  arrived : List ℕ → ℕ → Arrival

-- A round of the loop: `g_stop`, whether `poll` has something, what is received then, and the clock
-- at the end.
pub record Wake : Type 0 where
  pub stopped : Bool
  pub ready : Bool
  pub arrivals : List Arrival
  pub now : ℕ

pub record Session : Type 0 where
  pub handler : FeedHandler
  pub packets : ℕ
  pub last_receive : ℕ

-- The inner loop; the outer `none` is a read out of range.
unfoldable pub drain : List Arrival → Session → Option (Session × List Sent)
drain [] s = some (s, [])
drain (interrupted ∷ arrivals) s = drain arrivals s
drain (arrived buf now ∷ arrivals) s = do
  (handler, sent) ← on_payload buf (length buf) s.handler
  (s', more) ←
      drain arrivals
        (record { handler = handler; packets = u64 (s.packets + 1); last_receive = now })
  some (s', sent ++ more)

pub data Reason : Type 0 where
  by_signal : Reason
  by_silence : Reason
  never_heard : Reason
  still_running : Reason

-- Why the loop is left behind a round, if it is.
unfoldable pub verdict : ℕ → ℕ → Session → Option Reason
verdict started now s =
    if not (s.last_receive == 0)
    then (if ltb idle_stop_ns (sub64 now s.last_receive) then some by_silence else none)
    else (if ltb start_timeout_ns (sub64 now started) then some never_heard else none)

-- How the loop ends, with everything that has been sent.
pub record Ended : Type 0 where
  pub reason : Reason
  pub session : Session
  pub sent : List Sent

abbrev pub after_sending : List Sent → Ended → Ended
after_sending sent e = record e { sent = sent ++ e.sent }

unfoldable pub receive_loop : ℕ → List Wake → Session → Option Ended
receive_loop started [] s = some (record { reason = still_running; session = s; sent = [] })
receive_loop started (w ∷ wakes) s =
    if w.stopped
    then some (record { reason = by_signal; session = s; sent = [] })
    else (drain (if w.ready then w.arrivals else []) s >>= λ (s', sent).
        (elim (verdict started w.now s') [
          | some reason ↦ some (record { reason = reason; session = s'; sent = sent })
          | none ↦ receive_loop started wakes s' >>= λ e. some (after_sending sent e)
        ]))

-- The exit code, with `g_stop` when everything is sent.
unfoldable pub exit_code : Bool → Reason → ℕ
exit_code stopped never_heard = 1
exit_code stopped by_signal = if stopped then 130 else 0
exit_code stopped by_silence = if stopped then 130 else 0
exit_code stopped still_running = if stopped then 130 else 0

-- `main` from the loop on: the end markers go out behind everything else.
unfoldable pub run_main :
    ℕ → List Wake → Bool → FeedHandler → Option (ℕ × FeedPublisher × List Sent)
run_main started wakes stopped handler =
    receive_loop started wakes (record { handler = handler; packets = 0; last_receive = 0 })
    >>= λ e.
        (let (publisher, ends) = finish e.session.handler.publisher in
          some (exit_code stopped e.reason, publisher, e.sent ++ ends))

-- The sums that `report` prints, each with the total so far.
unfoldable pub sum_dropped : ℕ → List Bucket → ℕ
sum_dropped dropped [] = dropped
sum_dropped dropped (b ∷ bs) = sum_dropped (u64 (dropped + b.dropped)) bs

unfoldable pub sum_crossed : ℕ → List Bucket → ℕ
sum_crossed crossed [] = crossed
sum_crossed crossed (b ∷ bs) = sum_crossed (u64 (crossed + b.golden.crossed)) bs
