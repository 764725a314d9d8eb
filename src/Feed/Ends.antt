-- ===== src/Feed/Ends.antt =====
-- src/feedhandler.cpp, `main`: the reads and the end of the receiving loop.
use mega_feed_handler.Base.{
  ℕ, none, some, List, [], ◌∷◌, All, if◌then◌else◌, ◌>>=◌, if_cases, Succeeds, succeeds,
  Succeeds->>=,
}
use mega_feed_handler.Wire.Bytes.{IsBytes}
use mega_feed_handler.Publisher.Defs.{Sent}
use mega_feed_handler.Feed.Total.{IsReady, on_payload_in}
use mega_feed_handler.Feed.Main.{
  Arrival, interrupted, arrived, Wake, Session, drain, verdict, Ended, after_sending, receive_loop,
}
use mega_feed_handler.Feed.Session.{packets_in, IsSession, receive_loop_lem}

abbrev IsReadySession : Session × List Sent → Type 0
IsReadySession (s, sent) = IsReady s.handler.publisher

abbrev pub IsReadyEnded : Ended → Type 0
IsReadyEnded e = IsReady e.session.handler.publisher

-- Whatever a round receives consists of bytes.
abbrev pub IsHeard : Wake → Type 0
IsHeard w = All IsBytes (packets_in w.arrivals)

drain_in :
    (arrivals : List Arrival) (s : Session)
    → All IsBytes (packets_in arrivals)
    → IsReady s.handler.publisher
    → Succeeds IsReadySession (drain arrivals s)
unfolding drain
drain_in [] s bs ready = succeeds ready
drain_in (interrupted ∷ arrivals) s bs ready = drain_in arrivals s bs ready
drain_in (arrived buf now ∷ arrivals) s bs ready =
    Succeeds->>= (on_payload_in buf s.handler bs.0 ready)
      (λ r good. Succeeds->>= (drain_in arrivals _ bs.1 good) (λ t good'. succeeds good'))

receive_loop_in :
    (started : ℕ) (wakes : List Wake) (s : Session)
    → All IsHeard wakes
    → IsReady s.handler.publisher
    → Succeeds IsReadyEnded (receive_loop started wakes s)
unfolding receive_loop
receive_loop_in started [] s heard ready = succeeds ready
receive_loop_in started (w ∷ wakes) s heard ready =
    if_cases (Succeeds IsReadyEnded) w.stopped (λ _. succeeds ready)
      (λ _.
        Succeeds->>=
          (drain_in (if w.ready then w.arrivals else []) s
            (if_cases (λ arrivals. All IsBytes (packets_in arrivals)) w.ready (λ _. heard.0)
              (λ _. tt))
            ready)
          (λ r good.
            elim (verdict started w.now r.0)
              as (λ v. Succeeds IsReadyEnded (elim v [
                | some reason ↦ some (record { reason = reason; session = r.0; sent = r.1 })
                | none ↦ receive_loop started wakes r.0 >>= λ e. some (after_sending r.1 e)
              ])) [
                | some reason ↦ succeeds good
                | none ↦
                    Succeeds->>= (receive_loop_in started wakes r.0 heard.1 good)
                      (λ e good'. succeeds good')
              ]))

-- When the publisher has its buckets and every packet consists of bytes, the receiving loop of the
-- feed handler over any finite list of rounds reads in range. It leaves before the first round that
-- finds `g_stop` set, or behind the first round at whose clock more than two seconds have passed
-- since the last packet, or more than ten since the start with no packet yet (by differences of the
-- clock modulo 2^64, and a clock of zero at the last packet counts as none), with the reason that
-- fits; where no such round is among them, it has run them all and still runs. The handler and
-- everything sent are those of `on_payload` on the packets of the rounds that were run, in the
-- order they came, the packets are counted modulo 2^64, and the publisher has its buckets still.
pub receive_loop-IsSession :
    (started : ℕ) (wakes : List Wake) (s : Session)
    → All IsHeard wakes
    → IsReady s.handler.publisher
    → Succeeds (λ e. IsSession started wakes s e × IsReadyEnded e) (receive_loop started wakes s)
receive_loop-IsSession started wakes s heard ready =
    let (e, ends, still) = receive_loop_in started wakes s heard ready in
    (e, ends, (receive_loop_lem started wakes s e ends, still))
