-- ===== src/Subscriber/Rounds.antt =====
-- src/subscriber.h: `run` is `pump` round by round, until every bucket has reached its end marker.
use mathlib.Core.List.{append-nil}
use mega_feed_handler.Base.{
  ℕ, suc, ◌<◌, ◌↔◌, ◌⊎◌, All, false, ◌≡◌, refl, sym, true, Option, some, List, [], ◌∷◌, ◌++◌, arith,
  take, ◌>>=◌, >>=-eq-some, some_same, Bool-cases, inl, inr,
}
use mega_feed_handler.Base.Bits.{sub64}
use mega_feed_handler.Subscriber.Bucket.{Bucket}
use mega_feed_handler.Subscriber.Nak.{Timing}
use mega_feed_handler.Subscriber.Pump.{Subscriber, Delivery, pump, all_done}
use mega_feed_handler.Subscriber.Run.{
  Round, Runner, Answer, all_ended, interrupted, still_running, Ran, warn_silent, behind, run,
}

-- `pump` round by round, with all that is handed on in order.
unfoldable pub pumps : Timing → List Round → Subscriber → Option (Subscriber × List Delivery)
pumps t [] s = some (s, [])
pumps t (x ∷ rounds) s = do
  (s', out) ← pump t x.inputs s
  (s'', more) ← pumps t rounds s'
  some (s'', out ++ more)

-- Every bucket has reached its end marker.
abbrev pub IsDone : Subscriber → Type 0
IsDone s = All (λ b. b.done ≡ true) s.buckets

all_done_iff : (bs : List Bucket) → (all_done bs ≡ true) ↔ All (λ b. b.done ≡ true) bs
unfolding all_done
all_done_iff [] = (λ _. tt, λ _. refl)
all_done_iff (b ∷ bs) = ground (arith, all_done_iff bs)

-- Nothing has come for more than ten seconds.
abbrev pub IsUnheard : ℕ → ℕ → Subscriber → Type 0
IsUnheard started now s = (s.datagrams_seen ≡ 0) × (10_000_000_000 < sub64 now started)

-- Behind a round: the subscriber that `pump` has left, and the warning if it is given now or was
-- before.
pub record IsBehind (started now : ℕ) (s : Subscriber) (r r' : Runner) : Type 0 where
  pub pumped : r'.subscriber ≡ s
  pub warned : (r'.warned_silent ≡ true) ↔ ((r.warned_silent ≡ true) ⊎ IsUnheard started now s)

-- Rounds that are pumped with a bucket open behind each, and what comes next: a round that finds
-- `g_stop` set, a round behind which every bucket is done, or no round at all.
pub data Course (t : Timing) (started : ℕ)
    : Runner → List Round → ℕ → Answer → Runner → Type 0 where
  all_run : (r : Runner) → Course t started r [] 0 still_running r
  stopped_before :
      (r : Runner) (x : Round) (rounds : List Round)
      → x.stopped ≡ true
      → Course t started r (x ∷ rounds) 0 interrupted r
  done_behind :
      (r : Runner) (x : Round) (rounds : List Round) (s : Subscriber) (out : List Delivery)
      → x.stopped ≡ false
      → pump t x.inputs r.subscriber ≡ some (s, out)
      → IsDone s
      → Course t started r (x ∷ rounds) 1 all_ended (record r { subscriber = s })
  goes_on :
      (r r' : Runner) (x : Round) (rounds : List Round) (s : Subscriber) (out : List Delivery)
      {ran : ℕ} {answer : Answer} {end : Runner}
      → x.stopped ≡ false
      → pump t x.inputs r.subscriber ≡ some (s, out)
      → ¬ IsDone s
      → IsBehind started x.now s r r'
      → Course t started r' rounds ran answer end
      → Course t started r (x ∷ rounds) (suc ran) answer end

pub record IsRun (t : Timing) (started : ℕ) (rounds : List Round) (r : Runner) (e : Ran)
    : Type 0 where
  pub ran : ℕ
  pub course : Course t started r rounds ran e.answer e.runner
  pub pumped : pumps t (take ran rounds) r.subscriber ≡ some (e.runner.subscriber, e.delivered)

warn_silent-IsBehind :
    (started now : ℕ) (r : Runner) (s : Subscriber)
    → IsBehind started now s r (warn_silent started now (record r { subscriber = s }))
unfolding warn_silent
warn_silent-IsBehind started now r s = record { pumped = ground arith; warned = ground arith }

pub warn_silent-subscriber :
    (started now : ℕ) (r : Runner) → (warn_silent started now r).subscriber ≡ r.subscriber
unfolding warn_silent
warn_silent-subscriber started now r = ground arith

more-IsRun :
    (t : Timing) (started : ℕ) (x : Round) (rounds : List Round) (r r' : Runner) (s : Subscriber)
    (out : List Delivery) (e : Ran)
    → x.stopped ≡ false
    → pump t x.inputs r.subscriber ≡ some (s, out)
    → ¬ IsDone s
    → IsBehind started x.now s r r'
    → IsRun t started rounds r' e
    → IsRun t started (x ∷ rounds) r (behind out e)
unfolding pumps
more-IsRun t started x rounds r r' s out e going pumped undone after v = record {
  ran = suc v.ran;
  course = goes_on r r' x rounds s out going pumped undone after v.course;
  pumped = rw (pumped, ← after.pumped, v.pumped) refl;
}

-- Whatever the rounds meet: when `run` has an answer, its rounds have this course, and the
-- subscriber and all that the callback got are those of `pump` on the rounds that were run.
pub run_lem :
    (t : Timing) (started : ℕ) (rounds : List Round) (r : Runner) (e : Ran)
    → run t started rounds r ≡ some e
    → IsRun t started rounds r e
unfolding run pumps
run_lem t started [] r e h =
    rw (sym (some_same h)) (record { ran = 0; course = all_run r; pumped = refl })
run_lem t started (x ∷ rounds) r e h = elim (Bool-cases x.stopped) [
  | inl stopped ↦
      let same : record { answer = interrupted; runner = r; delivered = [] } ≡ e =
        some_same (rw stopped at h) in
      rw (sym same) (record { ran = 0; course = stopped_before r x rounds stopped; pumped = refl })
  | inr going ↦
      let ((s, out), pumped, rest) = >>=-eq-some (pump t x.inputs r.subscriber) _ (rw going at h) in
      let r' = warn_silent started x.now (record r { subscriber = s }) in
      elim (Bool-cases (all_done s.buckets)) [
        | inl done ↦
            let same : record {
              answer = all_ended;
              runner = record r { subscriber = s };
              delivered = out;
            }
                ≡ e =
              some_same (rw done at rest) in
            rw (sym same) (record {
              ran = 1;
              course = done_behind r x rounds s out going pumped ((all_done_iff s.buckets).0 done);
              pumped = rw (pumped, append-nil out) refl;
            })
        | inr open_yet ↦
            let (e', h', last) = >>=-eq-some (run t started rounds r') _ (rw open_yet at rest) in
            let undone : ¬ IsDone s =
              λ done. absurd (ground (arith, open_yet, (all_done_iff s.buckets).1 done)) in
            rw (sym (some_same last)) (
              more-IsRun t started x rounds r r' s out e' going pumped undone
                (warn_silent-IsBehind started x.now r s) (run_lem t started rounds r' e' h'))
      ]
]
