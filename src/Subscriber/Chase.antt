-- ===== src/Subscriber/Chase.antt =====
-- src/subscriber.h: `nak` and the invariant.
use mega_feed_handler.Base.{
  ℕ, ◌≡◌, ◌∙◌, inl, inr, refl, ap, sym, List, [], ◌∷◌, true, false, ◌&&◌, ◌||◌, not, ◌==◌, ltb,
  if◌then◌else◌, length, arith, Bool-cases, Option-cases,
}
use mega_feed_handler.Base.Bits.{sub64}
use mega_feed_handler.Base.OrdMap.{
  OrdMap, ascending, find, contains, insert, contains-insert, find_of_contains, contains_of_find,
}
use mega_feed_handler.Base.Sorted.{Above, Sorted, find-Above, insert-Sorted}
use mega_feed_handler.Wire.Message.{OrderMessage}
use mega_feed_handler.Subscriber.Bucket.{Bucket, Hole}
use mega_feed_handler.Subscriber.Nak.{
  Timing, Link, Outside, expire, write_off, stamp_one, stamp, select_due, mark_asked, send_request,
  connect_and_send, ask, nak,
}
use mega_feed_handler.Publisher.Serve.{max_repair_batch}
use mega_feed_handler.Subscriber.Invariant.{Areas, Log-of_fields, Live}

contains-cons :
    (k j : ℕ) (hole : Hole) (m : OrdMap ℕ Hole)
    → contains j ((k, hole) ∷ m) ≡ (if k == j then true else contains j m)
unfolding contains find
contains-cons k j hole m = ground arith

not-Above : (k : ℕ) (m : OrdMap ℕ Hole) → Above k m → contains k m ≡ false
not-Above k m a = elim (Bool-cases (contains k m)) [
  | inr absent ↦ absent
  | inl held ↦
      let entry = find_of_contains k m held in
      absurd (ground (arith, find-Above k k entry.0 m a entry.1))
]

-- The holes that the loop takes out of the map go to `gone`; none is lost, none comes back.
pub expire-split :
    (now giveup : ℕ) (holes : OrdMap ℕ Hole) (gone : OrdMap ℕ (Unit {0})) (j : ℕ)
    → Sorted holes
    → let r = expire now giveup holes gone in
      (contains j r.0 ≡ true → contains j holes ≡ true)
      × (contains j r.1 ≡ (contains j gone || (contains j holes && not (contains j r.0))))
unfolding expire
expire-split now giveup [] gone j s = (λ e. e, ground arith)
expire-split now giveup ((k, hole) ∷ holes) gone j s =
    let rest = expire-split now giveup holes (insert k tt gone) j s.1 in
    elim (Bool-cases (ltb giveup (sub64 now hole.noticed))) [
      | inr kept ↦ simp kept (λ e. e, ground arith)
      | inl old ↦ simp old (
          ground (
            arith,
            rest.0,
            rest.1,
            contains-insert k j tt gone,
            contains-cons k j hole holes,
            not-Above k holes s.0,
            ap (λ i. contains i holes) {x = k} {y = j},
          ))
    ]

Above-expire :
    (now giveup a : ℕ) (holes : OrdMap ℕ Hole) (gone : OrdMap ℕ (Unit {0}))
    → Above a holes
    → Above a (expire now giveup holes gone).0
unfolding expire
Above-expire now giveup a [] gone s = tt
Above-expire now giveup a ((k, hole) ∷ holes) gone s =
    ground (arith, Above-expire now giveup a holes (insert k tt gone) s.1)

expire-Sorted :
    (now giveup : ℕ) (holes : OrdMap ℕ Hole) (gone : OrdMap ℕ (Unit {0}))
    → Sorted holes
    → Sorted (expire now giveup holes gone).0
unfolding expire
expire-Sorted now giveup [] gone s = tt
expire-Sorted now giveup ((k, hole) ∷ holes) gone s =
    ground (arith, expire-Sorted now giveup holes (insert k tt gone) s.1)

stamp_one-contains :
    (now k j : ℕ) (holes : OrdMap ℕ Hole) → contains j (stamp_one now k holes) ≡ contains j holes
unfolding stamp_one
stamp_one-contains now k j holes = elim (Option-cases (find k holes)) [
  | inl absent ↦ rw (absent, stamp_one) refl
  | inr (hole, found) ↦
      rw (found, stamp_one)
        (ground (
          arith,
          contains-insert k j (record hole { asked = now }) holes,
          contains_of_find k hole holes found,
          ap (λ i. contains i holes) {x = k} {y = j},
        ))
]

stamp_one-Sorted :
    (now k : ℕ) (holes : OrdMap ℕ Hole) → Sorted holes → Sorted (stamp_one now k holes)
unfolding stamp_one
stamp_one-Sorted now k holes s = elim (Option-cases (find k holes)) [
  | inl absent ↦ rw (absent, stamp_one) s
  | inr (hole, found) ↦
      rw (found, stamp_one) (insert-Sorted k (record hole { asked = now }) holes s)
]

stamp-contains :
    (now j : ℕ) (ks : List ℕ) (holes : OrdMap ℕ Hole)
    → contains j (stamp now ks holes) ≡ contains j holes
unfolding stamp
stamp-contains now j [] holes = refl
stamp-contains now j (k ∷ ks) holes =
    stamp-contains now j ks (stamp_one now k holes) ∙ stamp_one-contains now k j holes

stamp-Sorted :
    (now : ℕ) (ks : List ℕ) (holes : OrdMap ℕ Hole) → Sorted holes → Sorted (stamp now ks holes)
unfolding stamp
stamp-Sorted now [] holes s = s
stamp-Sorted now (k ∷ ks) holes s =
    stamp-Sorted now ks (stamp_one now k holes) (stamp_one-Sorted now k holes s)

pub write_off-Areas :
    (h : ℕ → OrderMessage) (high : ℕ) (b : Bucket) (now giveup : ℕ)
    → Areas h high b
    → Areas h high (write_off now giveup b)
unfolding write_off
write_off-Areas h high b now giveup a =
    let split = λ (k : ℕ). expire-split now giveup b.holes b.gone k a.holes_sorted in
    record {
      next_small = a.next_small;
      high_small = a.high_small;
      holes_sorted = expire-Sorted now giveup b.holes b.gone a.holes_sorted;
      authentic = a.authentic;
      parked_ahead = a.parked_ahead;
      gone_small = λ k e. ground (arith, split k, a.gone_small k, a.holes_open k, a.high_small);
      holes_open = λ k e. ground (arith, split k, a.holes_open k);
      covered = λ k p q. ground (arith, split k, a.covered k);
    }

module _ {low : ℕ} (h : ℕ → OrderMessage) (start : ℕ) (b : Bucket) (out : List OrderMessage)
    (v : Live low h start b out) where
  write_off-Live : (now giveup : ℕ) → Live low h start (write_off now giveup b) out
  write_off-Live now giveup = record {
    high = v.high;
    high_low = v.high_low;
    areas = write_off-Areas h v.high b now giveup v.areas;
    log = unfold write_off in Log-of_fields b (write_off now giveup b) refl refl refl refl v.log;
    tuned = unfold write_off in v.tuned;
  }

  mark_asked-Live : (now : ℕ) (ks : List ℕ) → Live low h start (mark_asked now ks b) out
  unfolding mark_asked
  mark_asked-Live now ks =
      let a = v.areas in
      let same = λ (k : ℕ). stamp-contains now k ks b.holes in
      record {
        high = v.high;
        high_low = v.high_low;
        areas = record {
          next_small = a.next_small;
          high_small = a.high_small;
          holes_sorted = stamp-Sorted now ks b.holes a.holes_sorted;
          authentic = a.authentic;
          parked_ahead = a.parked_ahead;
          gone_small = a.gone_small;
          holes_open = λ k e. a.holes_open k (sym (same k) ∙ e);
          covered = λ k p q. ground (arith, same k, a.covered k);
        };
        log = Log-of_fields b (mark_asked now ks b) refl refl refl refl v.log;
        tuned = v.tuned;
      }

module _ {low : ℕ} (h : ℕ → OrderMessage) (start : ℕ) (out : List OrderMessage) (t : Timing)
    (o : Outside) where
  send_request-Live :
      (ks : List ℕ) (b : Bucket) (link : Link)
      → Live low h start b out
      → Live low h start (send_request t o ks b link).bucket out
  unfolding send_request
  send_request-Live ks b link v = elim (Bool-cases o.writes) [
    | inl sent ↦ simp sent (mark_asked-Live h start b out v o.now ks)
    | inr failed ↦ simp failed v
  ]

  connect_and_send-Live :
      (ks : List ℕ) (b : Bucket) (link : Link)
      → Live low h start b out
      → Live low h start (connect_and_send t o ks b link).bucket out
  unfolding connect_and_send
  connect_and_send-Live ks b link v = elim (Bool-cases link.connected) [
    | inl up ↦ simp up (send_request-Live ks b link v)
    | inr down ↦ elim (Bool-cases o.connects) [
      | inl now_up ↦
          simp (down, now_up) (send_request-Live ks b (record link { connected = true }) v)
      | inr refused ↦ simp (down, refused) v
    ]
  ]

  ask-Live :
      (b : Bucket) (link : Link)
      → Live low h start b out
      → Live low h start (ask t o b link).bucket out
  unfolding ask
  ask-Live b link v =
      let ks = select_due t o.now max_repair_batch b.holes in
      ground (arith, connect_and_send-Live ks b link v)

  -- Asking for repairs keeps the invariant, whatever the clock and the connection answer.
  pub nak-Live :
      (b : Bucket) (link : Link)
      → Live low h start b out
      → Live low h start (nak t o b link).bucket out
  unfolding nak
  nak-Live b link v = elim (Bool-cases (length b.holes == 0)) [
    | inl full ↦ simp full v
    | inr holes ↦
        simp holes (
          ask-Live (write_off o.now t.giveup b) link
            (write_off-Live h start b out v o.now t.giveup))
  ]
