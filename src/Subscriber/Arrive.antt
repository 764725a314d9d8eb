-- ===== src/Subscriber/Arrive.antt =====
-- src/subscriber.h: what a datagram or a repair frame changes.
use Prim.Native.Nat.{max}
use mega_feed_handler.Base.{
  ℕ, zero, suc, ◌+◌, ◌-◌, ◌<◌, ◌≤◌, ◌≡◌, inl, inr, refl, ap, sym, Bool, true, false, ◌&&◌, ◌||◌,
  not, some, ◌==◌, ltb, leb, if◌then◌else◌, arith, Bool-cases, ==_iff,
}
use mega_feed_handler.Base.OrdMap.{
  ascending, find, contains, find-insert, contains-insert, contains-erase,
}
use mega_feed_handler.Base.Sorted.{Sorted, insert-Sorted, erase-Sorted}
use mega_feed_handler.Wire.Message.{OrderMessage}
use mega_feed_handler.Subscriber.Bucket.{Hole, Bucket, note_hole, note_holes, park}
use mega_feed_handler.Subscriber.Invariant.{limit, Areas}

-- Noting holes changes the holes only.
abbrev pub Untouched : Bucket → Bucket → Type 0
Untouched b c =
    (c.next_sequence ≡ b.next_sequence)
    × (c.parked ≡ b.parked)
    × (c.gone ≡ b.gone)
    × (c.done ≡ b.done)
    × (c.stats ≡ b.stats)
    × (c.synced ≡ b.synced)
    × (c.id ≡ b.id)

note_hole-Untouched : (now missing : ℕ) (b : Bucket) → Untouched b (note_hole now missing b)
unfolding note_hole
note_hole-Untouched now missing b = ground arith

pub note_holes-Untouched :
    (left missing now : ℕ) (b : Bucket) → Untouched b (note_holes left missing now b)
unfolding note_holes
note_holes-Untouched zero missing now b = (refl, refl, refl, refl, refl, refl, refl)
note_holes-Untouched (suc left) missing now b = ground (
  arith,
  note_hole-Untouched now missing b,
  note_holes-Untouched left (missing + 1) now (note_hole now missing b),
)

note_hole-Sorted :
    (missing now : ℕ) (b : Bucket) → Sorted b.holes → Sorted (note_hole now missing b).holes
unfolding note_hole
note_hole-Sorted missing now b s =
    ground (arith, insert-Sorted missing (record { noticed = now; asked = 0 }) b.holes s)

note_holes-Sorted :
    (left missing now : ℕ) (b : Bucket)
    → Sorted b.holes
    → Sorted (note_holes left missing now b).holes
unfolding note_holes
note_holes-Sorted zero missing now b s = s
note_holes-Sorted (suc left) missing now b s =
    note_holes-Sorted left (missing + 1) now (note_hole now missing b)
      (note_hole-Sorted missing now b s)

-- A number that is held nowhere yet.
abbrev pub unknown : ℕ → Bucket → Bool
unknown k b = not (contains k b.parked) && not (contains k b.holes) && not (contains k b.gone)

abbrev pub fresh_hole : ℕ → Hole
fresh_hole now = record { noticed = now; asked = 0 }

note_hole-find :
    (missing now k : ℕ) (b : Bucket)
    → find k (note_hole now missing b).holes
      ≡ (if missing == k && unknown k b then some (fresh_hole now) else find k b.holes)
unfolding note_hole
note_hole-find missing now k b = elim (Bool-cases (missing == k)) [
  | inl e ↦
      rw (sym ((==_iff missing k).0 e))
        (ground (arith, find-insert missing missing (fresh_hole now) b.holes))
  | inr ne ↦ ground (arith, find-insert missing k (fresh_hole now) b.holes)
]

note_hole-unknown :
    (missing now k : ℕ) (b : Bucket)
    → unknown k (note_hole now missing b) ≡ (unknown k b && not (missing == k))
unfolding note_hole
note_hole-unknown missing now k b = elim (Bool-cases (missing == k)) [
  | inl e ↦
      rw (sym ((==_iff missing k).0 e))
        (ground (arith, contains-insert missing missing (fresh_hole now) b.holes))
  | inr ne ↦ ground (arith, contains-insert missing k (fresh_hole now) b.holes)
]

-- The new holes are the unknown numbers of the range, noticed now and not asked for.
pub note_holes-find :
    (left missing now k : ℕ) (b : Bucket)
    → find k (note_holes left missing now b).holes ≡ (
        if leb missing k && ltb k (missing + left) && unknown k b
        then some (fresh_hole now)
        else find k b.holes)
unfolding note_holes
note_holes-find zero missing now k b = ground arith
note_holes-find (suc left) missing now k b = ground (
  arith,
  note_holes-find left (missing + 1) now k (note_hole now missing b),
  note_hole-find missing now k b,
  note_hole-unknown missing now k b,
)

-- The bucket after noting the numbers from the head of the stream up to `sequence`.
abbrev noted : ℕ → ℕ → Bucket → Bucket
noted now sequence b = note_holes (sequence - b.next_sequence) b.next_sequence now b

noted-holes :
    (now sequence k : ℕ) (b : Bucket)
    → b.next_sequence ≤ sequence
    → contains k (noted now sequence b).holes
      ≡ (contains k b.holes || (leb b.next_sequence k && ltb k sequence && unknown k b))
unfolding contains
noted-holes now sequence k b p =
    let range : b.next_sequence + (sequence - b.next_sequence) ≡ sequence = omega arith in
    ground (arith, range, note_holes-find (sequence - b.next_sequence) b.next_sequence now k b)

-- Of the three areas: no number before `sequence` is unknown, and `sequence` itself is parked.
park_areas :
    (now sequence k : ℕ) (m : OrderMessage) (b : Bucket)
    → b.next_sequence ≤ sequence
    → (contains k (park now sequence m b).parked
        ≡ (if sequence == k then true else contains k b.parked))
      × (contains k (park now sequence m b).holes ≡ (
          if sequence == k
          then false
          else contains k b.holes || (leb b.next_sequence k && ltb k sequence && unknown k b)))
      × (contains k (park now sequence m b).gone ≡ contains k b.gone)
unfolding park
park_areas now sequence k m b p =
    let u = note_holes-Untouched (sequence - b.next_sequence) b.next_sequence now b in
    (
      rw u.1 (contains-insert sequence k m b.parked),
      rw (← noted-holes now sequence k b p)
          (contains-erase sequence k (noted now sequence b).holes),
      rw u.2,
    )

module _ (h : ℕ → OrderMessage) (high : ℕ) (b : Bucket) (a : Areas h high b) where
  -- `accept` of a message that is neither behind nor parked.
  pub park-Areas :
      (now sequence : ℕ)
      → b.next_sequence ≤ sequence
      → sequence < limit
      → contains sequence b.parked ≡ false
      → Areas h (max high (sequence + 1)) (park now sequence (h sequence) b)
  park-Areas now sequence ahead small free =
      let u = note_holes-Untouched (sequence - b.next_sequence) b.next_sequence now b in
      let p = park now sequence (h sequence) b in
      let next : p.next_sequence ≡ b.next_sequence = unfold park in u.0 in
      record {
        next_small = rw next a.next_small;
        high_small = omega (arith, a.high_small);
        holes_sorted =
            unfold park in
            erase-Sorted sequence _
              (note_holes-Sorted (sequence - b.next_sequence) b.next_sequence now b a.holes_sorted);
        authentic = λ k m e.
            unfold park in
            ground (
              arith,
              u,
              find-insert sequence k (h sequence) (noted now sequence b).parked,
              a.authentic k m,
              ap h {x = sequence} {y = k},
            );
        parked_ahead = λ k e.
            ground (arith, next, park_areas now sequence k (h sequence) b ahead, a.parked_ahead k);
        gone_small =
            λ k e. ground (arith, park_areas now sequence k (h sequence) b ahead, a.gone_small k);
        holes_open = λ k e.
            ground (arith, next, park_areas now sequence k (h sequence) b ahead, a.holes_open k);
        covered = λ k lo hi.
            ground (arith, next, park_areas now sequence k (h sequence) b ahead, a.covered k);
      }
