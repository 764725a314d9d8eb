-- ===== src/Subscriber/Complete.antt =====
-- src/subscriber.h: the end of the loop of `deliver`.
use mega_feed_handler.Base.{
  ℕ, zero, suc, ◌+◌, ◌<◌, ◌≡◌, ◌⊎◌, inl, inr, refl, true, false, ◌==◌, length, arith, Bool-cases,
  Option-cases,
}
use mega_feed_handler.Base.OrdMap.{
  ascending, find, contains, contains_of_none, find_of_contains, length-erase,
}
use mega_feed_handler.Subscriber.Bucket.{
  Bucket, take_parked, count_delivered, skip_gone, deliver_loop, deliver,
}

-- The loop has nothing left to do: the bucket is done, or the next number is neither parked nor
-- known to be gone.
abbrev pub IsSettled : Bucket → Type 0
IsSettled b =
    (b.done ≡ true)
    ⊎ ((contains b.next_sequence b.parked ≡ false) × (contains b.next_sequence b.gone ≡ false))

deliver_loop-IsSettled :
    (fuel : ℕ) (b : Bucket)
    → length b.parked + length b.gone < fuel
    → IsSettled (deliver_loop fuel b).0
unfolding deliver_loop
deliver_loop-IsSettled zero b f = absurd (omega arith)
deliver_loop-IsSettled (suc fuel) b f = elim (Bool-cases b.done) [
  | inl over ↦ simp over (inl refl)
  | inr open_yet ↦ elim (Option-cases (find b.next_sequence b.parked)) [
    | inl absent ↦ elim (Bool-cases (contains b.next_sequence b.gone)) [
      | inr missing ↦
          simp (open_yet, absent, missing)
            (inr (contains_of_none b.next_sequence b.parked absent, refl))
      | inl held ↦
          let entry = find_of_contains b.next_sequence b.gone held in
          simp (open_yet, absent, held)
            (deliver_loop-IsSettled fuel (skip_gone b) (
              unfold skip_gone in
              omega (arith, length-erase b.next_sequence b.gone entry.0 entry.1)))
    ]
    | inr (m, found) ↦ elim (Bool-cases (m.type == b'E')) [
      | inl end ↦ simp (open_yet, found, end) (inl refl)
      | inr more ↦
          simp (open_yet, found, more)
            (deliver_loop-IsSettled fuel (count_delivered (take_parked b)) (
              unfold count_delivered take_parked in
              omega (arith, length-erase b.next_sequence b.parked m found)))
    ]
  ]
]

-- `deliver` hands on all that it can: it stops only at the end marker, or at a number that is
-- neither parked nor gone.
pub deliver-IsSettled : (b : Bucket) → IsSettled (deliver b).0
unfolding deliver
deliver-IsSettled b = deliver_loop-IsSettled _ b (omega arith)
