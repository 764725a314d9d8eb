-- ===== src/Publisher/Ring.antt =====
-- src/feedpublisher.h: the ring of a bucket as the last `ring_size` messages of its history.
use mega_feed_handler.Base.{
  ℕ, ◌+◌, ◌%◌, ◌^◌, ◌<◌, ◌≤◌, ◌≡◌, ◌≢◌, ◌∙◌, sym, ap, List, Bool, true, ◌&&◌, none, some, ◌==◌, ltb,
  leb, if◌then◌else◌, set, length, length-set, get_elem?-set_self, get_elem?-set_ne, arith,
  replicate, length-replicate, get_elem?-replicate, inl, inr, Bool-cases, ==_iff,
}
use mega_feed_handler.Base.Bits.{u64}
use native.Mathlib.Decide.{ℕ_discrete}
use mega_feed_handler.Publisher.Defs.{Slot, Bucket, store, fresh_bucket, empty_slot}
use mega_feed_handler.Publisher.Serve.{read_ring}

u64_small : (n : ℕ) → n < 2 ^ 64 → u64 n ≡ n
u64_small n h = omega arith

-- Whether `sequence` is one of the last `size` numbers before `next`.
abbrev pub in_window : ℕ → ℕ → ℕ → Bool
in_window size next sequence = ltb 0 sequence && ltb sequence next && leb next (sequence + size)

-- Numbers with one remainder are `size` apart at least.
same_slot : (a b size : ℕ) → 0 < size → a < b → a % size ≡ b % size → a + size ≤ b
same_slot a b size pos h e = grind arith

wrap_slot : (a size : ℕ) → 0 < size → (a + size) % size ≡ a % size
wrap_slot a size pos = grind arith

-- The ring of `b` answers for every number as the history does: with the payload that was stored
-- under it if it is among the last `size`, and with nothing otherwise.
pub record Holds (size : ℕ) (history : ℕ → List ℕ) (b : Bucket) : Type 0 where
  pub length_ring : length b.ring ≡ size
  pub started : 0 < b.next_sequence
  pub answers :
      (sequence : ℕ)
      → read_ring b.ring size sequence
        ≡ some (if in_window size b.next_sequence sequence then some (history sequence) else none)

read_ring-set_self :
    (ring : List Slot) (size next : ℕ) (payload : List ℕ) (sequence : ℕ)
    → 0 < size
    → length ring ≡ size
    → sequence % size ≡ next % size
    → read_ring
        (set ring (next % size) (record { sequence = next; used = true; msg = payload }))
        size
        sequence
      ≡ some (if next == sequence then some payload else none)
unfolding read_ring
read_ring-set_self ring size next payload sequence pos l e = rw (
  e,
  get_elem?-set_self ring (next % size) (record { sequence = next; used = true; msg = payload })
      (omega arith),
)

read_ring-set_ne :
    (ring : List Slot) (size next : ℕ) (slot : Slot) (sequence : ℕ)
    → sequence % size ≢ next % size
    → read_ring (set ring (next % size) slot) size sequence ≡ read_ring ring size sequence
unfolding read_ring
read_ring-set_ne ring size next slot sequence ne =
    rw (get_elem?-set_ne ring (next % size) (sequence % size) slot (λ e. ne (sym e)))

window_same :
    (size next sequence : ℕ)
    → 0 < size
    → 0 < next
    → sequence % size ≡ next % size
    → in_window size (next + 1) sequence ≡ (next == sequence)
window_same size next sequence pos started e = ground (arith, same_slot sequence next size pos)

window_other :
    (size next sequence : ℕ)
    → 0 < size
    → sequence % size ≢ next % size
    → in_window size (next + 1) sequence ≡ in_window size next sequence
window_other size next sequence pos ne = ground (
  arith,
  wrap_slot sequence size pos,
  ap (λ (t : ℕ). t % size) {x = sequence} {y = next},
  ap (λ (t : ℕ). t % size) {x = sequence + size} {y = next},
)

-- Storing the next message of the history keeps the ring's answers: the number that leaves the
-- window is the one whose slot is overwritten.
pub store-Holds :
    (size : ℕ) (history : ℕ → List ℕ) (b : Bucket)
    → 0 < size
    → b.next_sequence + 1 < 2 ^ 64
    → Holds size history b
    → Holds size history (store size (history b.next_sequence) b)
unfolding store
store-Holds size history b pos small h = record {
  length_ring = length-set b.ring (b.next_sequence % size) _ ∙ h.length_ring;
  started = omega arith;
  answers = λ sequence.
      rw (u64_small (b.next_sequence + 1) small)
        (elim (ℕ_discrete (sequence % size) (b.next_sequence % size)) [
          | yes e ↦
              read_ring-set_self b.ring size b.next_sequence _ sequence pos h.length_ring e
              ∙ rw (window_same size b.next_sequence sequence pos h.started e)
                  (hit_or_miss b.next_sequence sequence)
          | no ne ↦
              read_ring-set_ne b.ring size b.next_sequence _ sequence ne
              ∙ h.answers sequence
              ∙ rw (window_other size b.next_sequence sequence pos ne)
        ]);
}
  where
    hit_or_miss :
        (next sequence : ℕ)
        → some (if next == sequence then some (history next) else none)
          ≡ some (if next == sequence then some (history sequence) else none)
    hit_or_miss next sequence = elim (Bool-cases (next == sequence)) [
      | inl e ↦ rw ((==_iff next sequence).0 e)
      | inr ne ↦ rw ne
    ]

read_ring-empty :
    (size sequence : ℕ) → 0 < size → read_ring (replicate size empty_slot) size sequence ≡ some none
unfolding read_ring
read_ring-empty size sequence pos =
    rw (get_elem?-replicate size (sequence % size) empty_slot (omega arith))

-- A bucket that has published nothing answers nothing.
pub fresh-Holds :
    (size : ℕ) (history : ℕ → List ℕ) → 0 < size → Holds size history (fresh_bucket size)
unfolding fresh_bucket
fresh-Holds size history pos = record {
  length_ring = length-replicate size empty_slot;
  started = omega arith;
  answers = λ sequence. read_ring-empty size sequence pos ∙ ground arith;
}
