-- ===== src/Subscriber/CatchUp.antt =====
-- src/subscriber.h: how a bucket gets past a number that does not come.
use Prim.Native.Nat.{max}
use mega_feed_handler.Base.{
  ℕ, zero, suc, ◌+◌, ◌<◌, ◌≤◌, ◌≡◌, ◌⊎◌, ◌∙◌, inl, inr, refl, ap, List, [], ◌∷◌, true, false, ltb,
  length, arith, Bool-cases, All,
}
use mega_feed_handler.Base.Bits.{sub64}
use mega_feed_handler.Base.OrdMap.{OrdMap, ascending, find, contains, insert}
use mega_feed_handler.Wire.Message.{OrderMessage}
use mega_feed_handler.Subscriber.Bucket.{
  Bucket, Hole, accept, take_parked, skip_gone, count_delivered, deliver_loop, deliver,
}
use mega_feed_handler.Subscriber.Nak.{expire, write_off}
use mega_feed_handler.Subscriber.Invariant.{limit, Areas, Log, Log-of_fields, Live}
use mega_feed_handler.Subscriber.Deliver.{deliver_loop-Delivers}
use mega_feed_handler.Subscriber.Complete.{IsSettled, deliver-IsSettled}
use mega_feed_handler.Subscriber.Arrive.{park-Areas}
use mega_feed_handler.Subscriber.Datagram.{accept_synced, accept-Live}
use mega_feed_handler.Subscriber.Chase.{write_off-Areas}
use mega_feed_handler.Subscriber.Later.{Later, Later-Live}
use mega_feed_handler.Subscriber.Stream.{Reach, Reach-Live}

no_entries : (m : OrdMap ℕ Hole) → ((k : ℕ) → contains k m ≡ false) → m ≡ []
unfolding contains find
no_entries [] e = refl
no_entries ((k, hole) ∷ m) e = absurd (ground (arith, e k))

waits :
    (h : ℕ → OrderMessage) (high : ℕ) (c : Bucket)
    → Areas h high c
    → IsSettled c
    → (c.done ≡ true)
      ⊎ (contains c.next_sequence c.holes ≡ true)
      ⊎ ((c.holes ≡ []) × (high ≤ c.next_sequence))
waits h high c a s = elim (Bool-cases (ltb c.next_sequence high)) [
  | inl below ↦ ground (arith, s, a.covered c.next_sequence)
  | inr above ↦ inr (inr (no_entries c.holes (λ k. ground (arith, a.holes_open k)), ground arith))
]

delivered_waits :
    (h : ℕ → OrderMessage) (start high : ℕ) (c : Bucket) (out : List OrderMessage)
    → Areas h high c
    → Log h start c out
    → ((deliver c).0.done ≡ true)
      ⊎ (contains (deliver c).0.next_sequence (deliver c).0.holes ≡ true)
      ⊎ (((deliver c).0.holes ≡ []) × (high ≤ (deliver c).0.next_sequence))
unfolding deliver
delivered_waits h start high c out a l =
    let fuel : ℕ = suc (length c.parked + length c.gone) in
    waits h high (deliver_loop fuel c).0 (deliver_loop-Delivers h start high fuel c out a l).0
      (deliver-IsSettled c)

-- The areas after a datagram whose number is new.
accept-Areas :
    (h : ℕ → OrderMessage) (start : ℕ) (b : Bucket) (out : List OrderMessage)
    (backfill now sequence : ℕ)
    → sequence < limit
    → b.next_sequence ≤ sequence
    → contains sequence b.parked ≡ false
    → (v : Live 0 h start b out)
    → Areas h (max v.high (sequence + 1)) (accept backfill now sequence (h sequence) b)
accept-Areas h start b out backfill now sequence small ahead free v =
    let late : ltb sequence b.next_sequence ≡ false = ground arith in
    rw (accept_synced b backfill now sequence (h sequence) v.tuned, late, free)
      (park-Areas h v.high b v.areas now sequence ahead small free)

-- After a datagram whose number is new to a tuned bucket, every number that the bucket waits for up
-- to this one is parked, or a hole, or known to be gone.
pub accept-covers :
    (h : ℕ → OrderMessage) (first_expected : ℕ) (b : Bucket) (out : List OrderMessage)
    (backfill now sequence : ℕ)
    → Reach h first_expected b out
    → b.synced ≡ true
    → sequence < limit
    → b.next_sequence ≤ sequence
    → contains sequence b.parked ≡ false
    → (k : ℕ) → (accept backfill now sequence (h sequence) b).next_sequence ≤ k
    → k ≤ sequence
    → let c = accept backfill now sequence (h sequence) b in
      (contains k c.parked ≡ true) ⊎ (contains k c.holes ≡ true) ⊎ (contains k c.gone ≡ true)
accept-covers h first_expected b out backfill now sequence r s small ahead free k p q =
    elim (Reach-Live r) [
      | inl (i, e, z) ↦ absurd (ground (arith, i.untuned, s))
      | inr (start, first, v) ↦
          (accept-Areas h start b out backfill now sequence small ahead free v).covered k p
            (omega (arith, q))
    ]

-- When a datagram whose number is new has been accepted by a reachable tuned bucket, then behind any
-- further steps of the run and a `deliver` the bucket is done, or the number that it waits for is a
-- hole, so that `nak` chases it, or it has passed the datagram's number and has no hole at all.
pub deliver-waits :
    (h : ℕ → OrderMessage) (first_expected : ℕ) (b c : Bucket) (out next : List OrderMessage)
    (backfill now sequence : ℕ)
    → Reach h first_expected b out
    → b.synced ≡ true
    → sequence < limit
    → b.next_sequence ≤ sequence
    → contains sequence b.parked ≡ false
    → Later h (accept backfill now sequence (h sequence) b) out c next
    → let d = (deliver c).0 in
      (d.done ≡ true)
      ⊎ (contains d.next_sequence d.holes ≡ true)
      ⊎ ((d.holes ≡ []) × (sequence < d.next_sequence))
deliver-waits h first_expected b c out next backfill now sequence r s small ahead free later =
    elim (Reach-Live r) [
      | inl (i, e, z) ↦ absurd (ground (arith, i.untuned, s))
      | inr (start, first, v) ↦
          let kept = accept-Live h start b out backfill now sequence small v in
          let shown : Live (sequence + 1) h start (accept backfill now sequence (h sequence) b)
              out =
            record {
              high = max v.high (sequence + 1);
              high_low = omega arith;
              areas = accept-Areas h start b out backfill now sequence small ahead free v;
              log = kept.log;
              tuned = kept.tuned;
            } in
          let w = Later-Live shown later in
          ground (arith, w.high_low, delivered_waits h start w.high c next w.areas w.log)
    ]

-- A hole that is older than the limit.
abbrev pub IsExpired : ℕ → ℕ → ℕ × Hole → Type 0
IsExpired now giveup entry = giveup < sub64 now entry.1.noticed

expire-all :
    (now giveup : ℕ) (holes : OrdMap ℕ Hole) (gone : OrdMap ℕ (Unit {0}))
    → All (IsExpired now giveup) holes
    → (expire now giveup holes gone).0 ≡ []
unfolding expire
expire-all now giveup [] gone a = refl
expire-all now giveup ((k, hole) ∷ holes) gone (e, a) =
    ground (arith, expire-all now giveup holes (insert k tt gone) a)

deliver_loop_holes : (fuel : ℕ) (b : Bucket) → (deliver_loop fuel b).0.holes ≡ b.holes
unfolding deliver_loop take_parked skip_gone count_delivered
deliver_loop_holes zero b = refl
deliver_loop_holes (suc fuel) b = ground (
  arith,
  deliver_loop_holes fuel (skip_gone b),
  deliver_loop_holes fuel (count_delivered (take_parked b)),
)

caught_up :
    (h : ℕ → OrderMessage) (start high : ℕ) (c : Bucket) (out : List OrderMessage)
    → Areas h high c
    → Log h start c out
    → c.holes ≡ []
    → ((deliver c).0.done ≡ true) ⊎ (high ≤ (deliver c).0.next_sequence)
unfolding deliver contains find
caught_up h start high c out a l none_open =
    let fuel : ℕ = suc (length c.parked + length c.gone) in
    let no_holes = deliver_loop_holes fuel c ∙ none_open in
    ground (
      arith,
      delivered_waits h start high c out a l,
      ap (λ m. contains (deliver_loop fuel c).0.next_sequence m) no_holes,
    )

write_off-Log :
    (h : ℕ → OrderMessage) (start : ℕ) (b : Bucket) (out : List OrderMessage) (now giveup : ℕ)
    → Log h start b out
    → Log h start (write_off now giveup b) out
unfolding write_off
write_off-Log h start b out now giveup l =
    Log-of_fields b (write_off now giveup b) refl refl refl refl l

-- Time ends every wait: when a new datagram has been accepted by a tuned bucket and all its holes
-- have timed out, writing them off and delivering passes the datagram's number, unless the stream
-- has ended before it.
pub write_off-passes :
    (h : ℕ → OrderMessage) (first_expected : ℕ) (b : Bucket) (out : List OrderMessage)
    (backfill now sequence later giveup : ℕ)
    → Reach h first_expected b out
    → b.synced ≡ true
    → sequence < limit
    → b.next_sequence ≤ sequence
    → contains sequence b.parked ≡ false
    → All (IsExpired later giveup) (accept backfill now sequence (h sequence) b).holes
    → let c = (deliver (write_off later giveup (accept backfill now sequence (h sequence) b))).0 in
      (c.done ≡ true) ⊎ (sequence < c.next_sequence)
write_off-passes h first_expected b out backfill now sequence later giveup r s small ahead free x =
    elim (Reach-Live r) [
      | inl (i, e, z) ↦ absurd (ground (arith, i.untuned, s))
      | inr (start, first, v) ↦
          let c : Bucket = accept backfill now sequence (h sequence) b in
          let areas = accept-Areas h start b out backfill now sequence small ahead free v in
          let log = (accept-Live h start b out backfill now sequence small v).log in
          ground (
            arith,
            caught_up h start (max v.high (sequence + 1)) (write_off later giveup c) out
                (write_off-Areas h (max v.high (sequence + 1)) c later giveup areas)
                (write_off-Log h start c out later giveup log)
                (unfold write_off in expire-all later giveup c.holes c.gone x),
          )
    ]
