-- ===== src/Subscriber/Stream.antt =====
-- src/subscriber.h: every run of a bucket, as steps in any order: datagrams of the stream, repair
-- frames, calls of `nak` and of `deliver`.
use mega_feed_handler.Base.{
  ℕ, zero, suc, ◌+◌, ◌<◌, ◌≤◌, ◌≡◌, ◌⊎◌, ◌∙◌, inl, inr, refl, List, [], ◌++◌, true, none, some,
  ◌==◌, length, arith, Bool-cases,
}
use mega_feed_handler.Base.OrdMap.{ascending, find, contains}
use mega_feed_handler.Wire.Message.{OrderMessage}
use mega_feed_handler.Subscriber.Bucket.{
  Bucket, make_bucket, sync, accept, on_frame, take_parked, skip_gone, count_delivered,
  deliver_loop, deliver,
}
use mega_feed_handler.Subscriber.Nak.{Timing, Link, Outside, nak}
use mega_feed_handler.Subscriber.Invariant.{limit, Live}
use mega_feed_handler.Subscriber.Deliver.{deliver_loop-Delivers}
use mega_feed_handler.Subscriber.Datagram.{
  accept-Live, accept_first-Live, IsIdle, make_bucket-IsIdle, make_bucket-Live,
}
use mega_feed_handler.Subscriber.Frames.{on_frame-Live}
use mega_feed_handler.Subscriber.Chase.{nak-Live}

-- Buckets that a run reaches from `make_bucket first_expected`, with what they handed on. Message
-- number `k` of the stream is `h k`, wherever it comes from; frames come to a tuned bucket, since
-- only that has asked.
pub data Reach (h : ℕ → OrderMessage) (first_expected : ℕ)
    : Bucket → List OrderMessage → Type 0 where
  made :
      (id : ℕ) → first_expected ≤ limit → Reach h first_expected (make_bucket first_expected id) []
  datagram :
      {b : Bucket} {out : List OrderMessage} (backfill now sequence : ℕ)
      → sequence < limit
      → Reach h first_expected b out
      → Reach h first_expected (accept backfill now sequence (h sequence) b) out
  repaired :
      {b : Bucket} {out : List OrderMessage} (sequence : ℕ)
      → sequence < limit
      → b.synced ≡ true
      → Reach h first_expected b out
      → Reach h first_expected (on_frame sequence (some (h sequence)) b) out
  refused :
      {b : Bucket} {out : List OrderMessage} (sequence : ℕ)
      → sequence < limit
      → b.synced ≡ true
      → Reach h first_expected b out
      → Reach h first_expected (on_frame sequence none b) out
  chased :
      {b : Bucket} {out : List OrderMessage} (t : Timing) (o : Outside) (link : Link)
      → Reach h first_expected b out
      → Reach h first_expected (nak t o b link).bucket out
  handed_on :
      {b : Bucket} {out : List OrderMessage}
      → Reach h first_expected b out
      → Reach h first_expected (deliver b).0 (out ++ (deliver b).1)

deliver_loop_synced : (fuel : ℕ) (b : Bucket) → (deliver_loop fuel b).0.synced ≡ b.synced
unfolding deliver_loop take_parked skip_gone count_delivered
deliver_loop_synced zero b = refl
deliver_loop_synced (suc fuel) b = ground (
  arith,
  deliver_loop_synced fuel (skip_gone b),
  deliver_loop_synced fuel (count_delivered (take_parked b)),
)

-- `deliver` keeps the invariant, with what it hands on appended.
pub deliver-Live :
    {low : ℕ} (h : ℕ → OrderMessage) (start : ℕ) (b : Bucket) (out : List OrderMessage)
    → Live low h start b out
    → Live low h start (deliver b).0 (out ++ (deliver b).1)
unfolding deliver
deliver-Live h start b out v =
    let fuel : ℕ = suc (length b.parked + length b.gone) in
    let r = deliver_loop-Delivers h start v.high fuel b out v.areas v.log in
    record {
      high = v.high;
      high_low = v.high_low;
      areas = r.0;
      log = r.1;
      tuned = deliver_loop_synced fuel b ∙ v.tuned;
    }

-- Before it tunes in, a bucket has nothing to ask for and nothing to hand on.
idle-nak :
    (t : Timing) (o : Outside) (b : Bucket) (link : Link) → IsIdle b → (nak t o b link).bucket ≡ b
unfolding nak
idle-nak t o b link i = rw i.nothing_missing refl

pub idle-deliver : (b : Bucket) → IsIdle b → deliver b ≡ (b, [])
unfolding deliver deliver_loop find contains
idle-deliver b i = simp (i.open_yet, i.nothing_parked, i.nothing_gone) refl

-- A tuned bucket of a run that began with `first_expected`.
abbrev pub Tuned : (ℕ → OrderMessage) → ℕ → Bucket → List OrderMessage → Type 0
Tuned h first_expected b out =
    (start : ℕ) × (0 < first_expected → start ≡ first_expected) × Live 0 h start b out

Tuned-map :
    {h : ℕ → OrderMessage} {first_expected : ℕ} {b c : Bucket} {out next : List OrderMessage}
    → ((start : ℕ) → Live 0 h start b out → Live 0 h start c next)
    → Tuned h first_expected b out
    → Tuned h first_expected c next
Tuned-map f (start, e, v) = (start, e, f start v)

-- Every reachable bucket is still idle, or satisfies the invariant.
pub Reach-Live :
    {h : ℕ → OrderMessage} {first_expected : ℕ} {b : Bucket} {out : List OrderMessage}
    → Reach h first_expected b out
    → (IsIdle b × (out ≡ []) × (first_expected ≡ 0)) ⊎ Tuned h first_expected b out
Reach-Live {h} {first_expected} (made id small) = elim (Bool-cases (first_expected == 0)) [
  | inl live ↦
      let zeroed : first_expected ≡ 0 = ground arith in
      inl (rw zeroed (make_bucket-IsIdle id), refl, zeroed)
  | inr back ↦
      inr (first_expected, (λ _. refl), make_bucket-Live h first_expected id (ground arith) small)
]
Reach-Live {h} (datagram {b = b} {out = out} backfill now sequence small r) = elim (Reach-Live r) [
  | inl (i, e, z) ↦ inr (
    (sync backfill sequence b).next_sequence,
    (λ p. ground (arith, p, z)),
    rw e (accept_first-Live h b backfill now sequence small i),
  )
  | inr v ↦ inr (Tuned-map (λ start. accept-Live h start b out backfill now sequence small) v)
]
Reach-Live {h} (repaired {b = b} {out = out} sequence small s r) = elim (Reach-Live r) [
  | inl (i, e, z) ↦ absurd (ground (arith, i.untuned, s))
  | inr v ↦ inr (Tuned-map (λ start w. (on_frame-Live h start b out sequence small w).0) v)
]
Reach-Live {h} (refused {b = b} {out = out} sequence small s r) = elim (Reach-Live r) [
  | inl (i, e, z) ↦ absurd (ground (arith, i.untuned, s))
  | inr v ↦ inr (Tuned-map (λ start w. (on_frame-Live h start b out sequence small w).1) v)
]
Reach-Live {h} (chased {b = b} {out = out} t o link r) = elim (Reach-Live r) [
  | inl (i, e, z) ↦ inl (rw (idle-nak t o b link i) i, e, z)
  | inr v ↦ inr (Tuned-map (λ start. nak-Live h start out t o b link) v)
]
Reach-Live {h} (handed_on {b = b} {out = out} r) = elim (Reach-Live r) [
  | inl (i, e, z) ↦ inl (rw (idle-deliver b i) i, rw (idle-deliver b i, e) refl, z)
  | inr v ↦ inr (Tuned-map (λ start. deliver-Live h start b out) v)
]
