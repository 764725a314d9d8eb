-- ===== src/Subscriber/Datagram.antt =====
-- src/subscriber.h: `accept_OrderMessage` and the invariant, from the first datagram on.
use Prim.Native.Nat.{max}
use mega_feed_handler.Base.{
  ℕ, ◌+◌, ◌-◌, ◌<◌, ◌≤◌, ◌≡◌, ◌∙◌, inl, inr, refl, ap, sym, List, [], true, false, ◌||◌, ◌==◌, ltb,
  if◌then◌else◌, arith, Bool-cases,
}
use mathlib.Core.Path.{subst}
use mega_feed_handler.Base.OrdMap.{ascending, find, contains}
use mega_feed_handler.Wire.Message.{OrderMessage}
use mega_feed_handler.Subscriber.Bucket.{Bucket, sync, park, accept, count_duplicate, make_bucket}
use mega_feed_handler.Subscriber.Invariant.{limit, begin, Areas-of_fields, Log-of_fields, Live}
use mega_feed_handler.Subscriber.Arrive.{park-Areas, note_holes-Untouched}

pub accept_synced :
    (b : Bucket) (backfill now sequence : ℕ) (m : OrderMessage)
    → b.synced ≡ true
    → accept backfill now sequence m b ≡ (
        if ltb sequence b.next_sequence || contains sequence b.parked
        then count_duplicate b
        else park now sequence m b)
unfolding accept sync
accept_synced b backfill now sequence m e = simp e

count_duplicate-Live :
    {low : ℕ} (h : ℕ → OrderMessage) (start : ℕ) (b : Bucket) (out : List OrderMessage)
    → Live low h start b out
    → Live low h start (count_duplicate b) out
unfolding count_duplicate
count_duplicate-Live h start b out v = record {
  high = v.high;
  high_low = v.high_low;
  areas = Areas-of_fields b (count_duplicate b) refl refl refl refl v.areas;
  log = Log-of_fields b (count_duplicate b) refl refl refl refl v.log;
  tuned = v.tuned;
}

park-Live :
    {low : ℕ} (h : ℕ → OrderMessage) (start : ℕ) (b : Bucket) (out : List OrderMessage)
    (now sequence : ℕ)
    → sequence < limit
    → b.next_sequence ≤ sequence
    → contains sequence b.parked ≡ false
    → Live low h start b out
    → Live low h start (park now sequence (h sequence) b) out
park-Live h start b out now sequence small ahead free v =
    let u = note_holes-Untouched (sequence - b.next_sequence) b.next_sequence now b in
    record {
      high = max v.high (sequence + 1);
      high_low = omega (arith, v.high_low);
      areas = park-Areas h v.high b v.areas now sequence ahead small free;
      log =
          unfold park in
          Log-of_fields b (park now sequence (h sequence) b) u.0 u.3 (ap (λ s. s.unrecoverable) u.4)
            (ap (λ s. s.delivered) u.4) v.log;
      tuned = unfold park in u.5 ∙ v.tuned;
    }

-- A datagram of the stream, early, late or twice, keeps the invariant.
pub accept-Live :
    {low : ℕ} (h : ℕ → OrderMessage) (start : ℕ) (b : Bucket) (out : List OrderMessage)
    (backfill now sequence : ℕ)
    → sequence < limit
    → Live low h start b out
    → Live low h start (accept backfill now sequence (h sequence) b) out
accept-Live h start b out backfill now sequence small v =
    let held = ltb sequence b.next_sequence || contains sequence b.parked in
    rw (accept_synced b backfill now sequence (h sequence) v.tuned) (elim (Bool-cases held) [
      | inl old ↦ rw old (count_duplicate-Live h start b out v)
      | inr new ↦
          rw new (park-Live h start b out now sequence small (ground arith) (ground arith) v)
    ])

-- A bucket that has not tuned in: nothing is held, nothing was handed on.
pub record IsIdle (b : Bucket) : Type 0 where
  pub untuned : b.synced ≡ false
  pub nothing_parked : b.parked ≡ []
  pub nothing_gone : b.gone ≡ []
  pub nothing_missing : b.holes ≡ []
  pub open_yet : b.done ≡ false
  pub none_delivered : b.stats.delivered ≡ 0
  pub none_lost : b.stats.unrecoverable ≡ 0

-- A tuned bucket with nothing in it.
empty-Live :
    (h : ℕ → OrderMessage) (b : Bucket)
    → b.synced ≡ true
    → b.next_sequence ≤ limit
    → b.parked ≡ []
    → b.gone ≡ []
    → b.holes ≡ []
    → b.done ≡ false
    → b.stats.delivered ≡ 0
    → b.stats.unrecoverable ≡ 0
    → Live 0 h b.next_sequence b []
unfolding contains find
empty-Live h b t small p g o d e u = record {
  high = 0;
  high_low = omega arith;
  areas = record {
    next_small = small;
    high_small = omega arith;
    holes_sorted = rw o tt;
    authentic = λ k m. rw p (λ e. ground arith);
    parked_ahead = λ k. rw p (λ e. ground arith);
    gone_small = λ k. rw g (λ e. ground arith);
    holes_open = λ k. rw o (λ e. ground arith);
    covered = λ k p q. absurd (omega arith);
  };
  log = record {
    reached = b.next_sequence;
    reached_is = ground arith;
    order = rw u begin;
    counted = e;
    ended = λ e. ground arith;
  };
  tuned = t;
}

sync_tuned : (backfill sequence : ℕ) (b : Bucket) → b.synced ≡ true → sync backfill sequence b ≡ b
unfolding sync
sync_tuned backfill sequence b e = simp e

sync-Live :
    (h : ℕ → OrderMessage) (b : Bucket) (backfill sequence : ℕ)
    → sequence < limit
    → IsIdle b
    → Live 0 h (sync backfill sequence b).next_sequence (sync backfill sequence b) []
sync-Live h b backfill sequence small i =
    let start : ℕ =
      if backfill == 0
      then sequence
      else (if ltb backfill sequence then sequence - backfill else 1) in
    let low : start ≤ limit = ground arith in
    subst (λ c. Live 0 h c.next_sequence c []) (sym (tunes i.untuned))
      (empty-Live h (record b { next_sequence = start; synced = true }) refl low i.nothing_parked
        i.nothing_gone i.nothing_missing i.open_yet i.none_delivered i.none_lost)
  where
    tunes :
        b.synced ≡ false
        → sync backfill sequence b ≡ record b {
          next_sequence =
              if backfill == 0
              then sequence
              else (if ltb backfill sequence then sequence - backfill else 1);
          synced = true;
        }
    tunes e = unfold sync in simp e

-- The first datagram tunes the bucket in.
pub accept_first-Live :
    (h : ℕ → OrderMessage) (b : Bucket) (backfill now sequence : ℕ)
    → sequence < limit
    → IsIdle b
    → Live 0 h
        (sync backfill sequence b).next_sequence
        (accept backfill now sequence (h sequence) b)
        []
accept_first-Live h b backfill now sequence small i =
    let start : ℕ = (sync backfill sequence b).next_sequence in
    let v = sync-Live h b backfill sequence small i in
    subst (λ c. Live 0 h start c []) again
      (accept-Live h start (sync backfill sequence b) [] backfill now sequence small v)
  where
    again :
        accept backfill now sequence (h sequence) (sync backfill sequence b)
        ≡ accept backfill now sequence (h sequence) b
    again =
        unfold accept in
        ap
          (λ c.
            if ltb sequence c.next_sequence || contains sequence c.parked
            then count_duplicate c
            else park now sequence (h sequence) c)
          (sync_tuned backfill sequence (sync backfill sequence b)
            (sync-Live h b backfill sequence small i).tuned)

-- A bucket as the constructor makes it: idle when it joins live, and tuned to the first number
-- when it demands history.
pub make_bucket-IsIdle : (id : ℕ) → IsIdle (make_bucket 0 id)
unfolding make_bucket
make_bucket-IsIdle id = record {
  untuned = refl;
  nothing_parked = refl;
  nothing_gone = refl;
  nothing_missing = refl;
  open_yet = refl;
  none_delivered = refl;
  none_lost = refl;
}

pub make_bucket-Live :
    (h : ℕ → OrderMessage) (first id : ℕ)
    → 0 < first
    → first ≤ limit
    → Live 0 h first (make_bucket first id) []
make_bucket-Live h first id pos small =
    subst (λ n. Live 0 h n (make_bucket first id) []) {x = (make_bucket first id).next_sequence}
      (unfold make_bucket in ground arith)
      (empty-Live h (make_bucket first id) (unfold make_bucket in ground arith)
        (unfold make_bucket in ground arith) (unfold make_bucket in refl)
        (unfold make_bucket in refl) (unfold make_bucket in refl) (unfold make_bucket in refl)
        (unfold make_bucket in refl) (unfold make_bucket in refl))
