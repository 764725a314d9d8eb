-- ===== src/Feed/Session.antt =====
-- src/feedhandler.cpp, `main`: the loop is `on_payload` on the packets in the order they come.
use mathlib.Core.Path.{subst}
use mathlib.Core.List.{append_assoc, append-nil}
use mega_feed_handler.Base.{
  ℕ, suc, ◌+◌, false, none, ◌≡◌, refl, ap, sym, ◌∙◌, Option, some, List, [], ◌∷◌, ◌++◌, arith,
  length, take, if◌then◌else◌, ◌>>=◌, >>=-eq-some, some_same, length-append, Bool-cases,
  Option-cases, inl, inr,
}
use mega_feed_handler.Base.Bits.{u64}
use mega_feed_handler.Publisher.Defs.{Sent}
use mega_feed_handler.Feed.Handler.{FeedHandler, on_payload}
use mega_feed_handler.Feed.Course.{
  heard_by, last_heard, Course, all_run, stopped_before, silent_behind, unheard_behind, goes_on,
  IsVerdict, verdict-IsVerdict,
}
use mega_feed_handler.Feed.Main.{
  Arrival, interrupted, arrived, Wake, Session, drain, Reason, by_signal, by_silence, never_heard,
  still_running, verdict, Ended, after_sending, receive_loop,
}

some_pair :
    {A B : Type 0} {a a' : A} {b b' : B}
    → ◌≡◌ {A = Option (A × B)} (some (a, b)) (some (a', b'))
    → (a ≡ a') × (b ≡ b')
some_pair h = (cc, cc)

-- `on_payload` on one packet after the other.
unfoldable pub on_payloads : List (List ℕ) → FeedHandler → Option (FeedHandler × List Sent)
on_payloads [] f = some (f, [])
on_payloads (p ∷ packets) f = do
  (f', sent) ← on_payload p (length p) f
  (f'', more) ← on_payloads packets f'
  some (f'', sent ++ more)

on_payloads-append :
    (xs ys : List (List ℕ)) (f f' f'' : FeedHandler) (sent more : List Sent)
    → on_payloads xs f ≡ some (f', sent)
    → on_payloads ys f' ≡ some (f'', more)
    → on_payloads (xs ++ ys) f ≡ some (f'', sent ++ more)
unfolding on_payloads
on_payloads-append [] ys f f' f'' sent more first second =
    let same = some_pair first in rw (same.0, sym same.1) second
on_payloads-append (x ∷ xs) ys f f' f'' sent more first second =
    let ((f₁, sent₁), e₁, rest) = >>=-eq-some (on_payload x (length x) f) _ first in
    let ((f₂, sent₂), e₂, last) = >>=-eq-some (on_payloads xs f₁) _ rest in
    let same = some_pair last in
    let onward = on_payloads-append xs ys f₁ f₂ f'' sent₂ more e₂ (rw (sym same.0) at second) in
    let joined : sent₁ ++ (sent₂ ++ more) ≡ sent ++ more =
      sym (append_assoc sent₁ sent₂ more) ∙ ap (λ t. t ++ more) same.1 in
    rw (e₁, onward, joined) refl

-- The packets among some arrivals, and those of some rounds.
abbrev pub packets_in : List Arrival → List (List ℕ)
packets_in [] = []
packets_in (interrupted ∷ arrivals) = packets_in arrivals
packets_in (arrived buf now ∷ arrivals) = buf ∷ packets_in arrivals

abbrev pub received_in : List Wake → List (List ℕ)
received_in [] = []
received_in (w ∷ wakes) = packets_in (if w.ready then w.arrivals else []) ++ received_in wakes

drain_lem :
    (arrivals : List Arrival) (s s' : Session) (sent : List Sent)
    → drain arrivals s ≡ some (s', sent)
    → (on_payloads (packets_in arrivals) s.handler ≡ some (s'.handler, sent))
      × (u64 s'.packets ≡ u64 (s.packets + length (packets_in arrivals)))
unfolding drain on_payloads
drain_lem [] s s' sent e =
    let same = some_pair e in (rw (same.0, same.1) refl, rw (sym same.0) (omega arith))
drain_lem (interrupted ∷ arrivals) s s' sent e = drain_lem arrivals s s' sent e
drain_lem (arrived buf now ∷ arrivals) s s' sent e =
    let ((f, first), e₁, rest) = >>=-eq-some (on_payload buf (length buf) s.handler) _ e in
    let ((s'', more), e₂, last) =
      >>=-eq-some
        (drain arrivals (record { handler = f; packets = u64 (s.packets + 1); last_receive = now }))
        _ rest in
    let (front, count) = drain_lem arrivals _ s'' more e₂ in
    let same = some_pair last in
    (rw (e₁, front, same.0, same.1) refl, rw (sym same.0) (omega (arith, count)))

-- How a loop over these rounds has ended.
pub record IsSession (started : ℕ) (wakes : List Wake) (s : Session) (e : Ended) : Type 0 where
  pub run : ℕ
  pub course : Course started s.last_receive wakes run e.reason
  pub handled :
      on_payloads (received_in (take run wakes)) s.handler ≡ some (e.session.handler, e.sent)
  pub counted : u64 e.session.packets ≡ u64 (s.packets + length (received_in (take run wakes)))

drain_last :
    (arrivals : List Arrival) (s s' : Session) (sent : List Sent)
    → drain arrivals s ≡ some (s', sent)
    → s'.last_receive ≡ heard_by s.last_receive arrivals
unfolding drain
drain_last [] s s' sent e = ap (λ t. t.last_receive) (sym (some_pair e).0)
drain_last (interrupted ∷ arrivals) s s' sent e = drain_last arrivals s s' sent e
drain_last (arrived buf now ∷ arrivals) s s' sent e =
    let ((f, first), e₁, rest) = >>=-eq-some (on_payload buf (length buf) s.handler) _ e in
    let ((s'', more), e₂, last) =
      >>=-eq-some
        (drain arrivals (record { handler = f; packets = u64 (s.packets + 1); last_receive = now }))
        _ rest in
    ap (λ t. t.last_receive) (sym (some_pair last).0) ∙ drain_last arrivals _ s'' more e₂

-- A round that is run and ends the loop.
last-IsSession :
    (w : Wake) (wakes : List Wake) (s s' : Session) (sent : List Sent) (started : ℕ)
    (reason : Reason)
    → w.stopped ≡ false
    → drain (if w.ready then w.arrivals else []) s ≡ some (s', sent)
    → IsVerdict started w.now s'.last_receive (some reason)
    → IsSession started (w ∷ wakes) s (record { reason = reason; session = s'; sent = sent })
last-IsSession w wakes s s' sent started reason going drained v =
    let packets = packets_in (if w.ready then w.arrivals else []) in
    let (front, count) = drain_lem (if w.ready then w.arrivals else []) s s' sent drained in
    let last = drain_last (if w.ready then w.arrivals else []) s s' sent drained in
    record {
      run = 1;
      course =
          last_Course w wakes started s.last_receive reason going
            (subst (λ l. IsVerdict started w.now l (some reason)) last v);
      handled = rw (append-nil packets) front;
      counted = rw (append-nil packets) count;
    }
  where
    last_Course :
        (w : Wake) (wakes : List Wake) (started last : ℕ) (reason : Reason)
        → w.stopped ≡ false
        → IsVerdict started w.now (last_heard last w) (some reason)
        → Course started last (w ∷ wakes) 1 reason
    last_Course w wakes started last by_silence going v = silent_behind w going v
    last_Course w wakes started last never_heard going v = unheard_behind w going v
    last_Course w wakes started last by_signal going v = absurd v
    last_Course w wakes started last still_running going v = absurd v

-- A round that is run, in front of the others.
more-IsSession :
    (w : Wake) (wakes : List Wake) (s s' : Session) (sent : List Sent) (started : ℕ) (e : Ended)
    → w.stopped ≡ false
    → drain (if w.ready then w.arrivals else []) s ≡ some (s', sent)
    → IsVerdict started w.now s'.last_receive none
    → IsSession started wakes s' e
    → IsSession started (w ∷ wakes) s (after_sending sent e)
more-IsSession w wakes s s' sent started e going drained patient v =
    let packets = packets_in (if w.ready then w.arrivals else []) in
    let behind = received_in (take v.run wakes) in
    let (front, count) = drain_lem (if w.ready then w.arrivals else []) s s' sent drained in
    let last = drain_last (if w.ready then w.arrivals else []) s s' sent drained in
    let (loud, heard) = subst (λ l. IsVerdict started w.now l none) last patient in
    record {
      run = suc v.run;
      course =
          goes_on w going loud heard
            (subst (λ l. Course started l wakes v.run e.reason) last v.course);
      handled =
          on_payloads-append packets behind s.handler s'.handler e.session.handler sent e.sent front
            v.handled;
      counted = omega (arith, v.counted, count, length-append {0} packets behind);
    }

-- Whenever the loop has ended, the handler and everything sent are those of `on_payload` on the
-- packets of the rounds that have run, in the order they came, and the packets are counted.
pub receive_loop_lem :
    (started : ℕ) (wakes : List Wake) (s : Session) (e : Ended)
    → receive_loop started wakes s ≡ some e
    → IsSession started wakes s e
unfolding receive_loop on_payloads
receive_loop_lem started [] s e h =
    rw (sym (some_same h))
      (record { run = 0; course = all_run; handled = refl; counted = omega arith })
receive_loop_lem started (w ∷ wakes) s e h = elim (Bool-cases w.stopped) [
  | inl stopped ↦
      let same : record { reason = by_signal; session = s; sent = [] } ≡ e =
        some_same (rw stopped at h) in
      rw (sym same) (record {
        run = 0;
        course = stopped_before w stopped;
        handled = refl;
        counted = omega arith;
      })
  | inr going ↦
      let ((s', sent), drained, rest) =
        >>=-eq-some (drain (if w.ready then w.arrivals else []) s) _ (rw going at h) in
      let said = verdict-IsVerdict started w.now s' in
      elim (Option-cases (verdict started w.now s')) [
        | inl onward ↦
            let (e', h', last) =
              >>=-eq-some (receive_loop started wakes s') _ (rw onward at rest) in
            rw (sym (some_same last)) (
              more-IsSession w wakes s s' sent started e' going drained (rw onward at said)
                (receive_loop_lem started wakes s' e' h'))
        | inr (reason, why) ↦
            let same : record { reason = reason; session = s'; sent = sent } ≡ e =
              some_same (rw why at rest) in
            rw (sym same)
              (last-IsSession w wakes s s' sent started reason going drained (rw why at said))
      ]
]
