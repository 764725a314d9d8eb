-- ===== src/Subscriber/Deliver.antt =====
-- src/subscriber.h: `deliver` and the invariant.
use mega_feed_handler.Base.{
  ℕ, zero, suc, ◌+◌, ◌≡◌, inl, inr, refl, ap, sym, List, [], ◌∷◌, ◌++◌, true, false, some, ◌==◌,
  arith, length-append, Bool-cases, Option-cases, ==_iff,
}
use mathlib.Core.Path.{◌∙◌}
use mathlib.Core.List.{append-nil, append_assoc}
use mega_feed_handler.Base.Bits.{u64}
use mega_feed_handler.Base.OrdMap.{
  ascending, find, contains, find-erase, contains-erase, contains_of_find, contains_of_none,
}
use mega_feed_handler.Wire.Message.{OrderMessage}
use mega_feed_handler.Subscriber.Bucket.{
  Bucket, take_parked, count_delivered, skip_gone, deliver_loop,
}
use mega_feed_handler.Subscriber.Invariant.{got, lost, Areas, Log, InOrder-length, Areas-of_fields}

module _ (h : ℕ → OrderMessage) (high : ℕ) (b : Bucket) (a : Areas h high b) where
  -- The number at the head of the stream leaves the areas.
  take_parked-Areas : contains b.next_sequence b.parked ≡ true → Areas h high (take_parked b)
  unfolding take_parked
  take_parked-Areas held =
      let small = a.parked_ahead b.next_sequence held in
      let next : u64 (b.next_sequence + 1) ≡ b.next_sequence + 1 = omega arith in
      record {
        next_small = omega arith;
        high_small = a.high_small;
        holes_sorted = a.holes_sorted;
        authentic = λ k m e. ground (arith, find-erase b.next_sequence k b.parked, a.authentic k m);
        parked_ahead = λ k e.
            ground (arith, next, contains-erase b.next_sequence k b.parked, a.parked_ahead k);
        gone_small = a.gone_small;
        holes_open =
            λ k e. ground (arith, next, contains-erase b.next_sequence k b.parked, a.holes_open k);
        covered =
            λ k p q. ground (arith, next, contains-erase b.next_sequence k b.parked, a.covered k);
      }

  skip_gone-Areas :
      contains b.next_sequence b.gone ≡ true
      → contains b.next_sequence b.parked ≡ false
      → Areas h high (skip_gone b)
  unfolding skip_gone
  skip_gone-Areas held free =
      let small = a.gone_small b.next_sequence held in
      let next : u64 (b.next_sequence + 1) ≡ b.next_sequence + 1 = omega arith in
      record {
        next_small = omega arith;
        high_small = a.high_small;
        holes_sorted = a.holes_sorted;
        authentic = a.authentic;
        parked_ahead = λ k e. ground (
          arith,
          next,
          a.parked_ahead k,
          ap (λ i. contains i b.parked) {x = k} {y = b.next_sequence},
        );
        gone_small = λ k e. ground (arith, contains-erase b.next_sequence k b.gone, a.gone_small k);
        holes_open =
            λ k e. ground (arith, next, contains-erase b.next_sequence k b.gone, a.holes_open k);
        covered =
            λ k p q. ground (arith, next, contains-erase b.next_sequence k b.gone, a.covered k);
      }

module _ (h : ℕ → OrderMessage) (start high : ℕ) (b : Bucket) (out : List OrderMessage)
    (a : Areas h high b) (l : Log h start b out) (open_yet : b.done ≡ false) where
  at_reached : l.reached ≡ b.next_sequence
  at_reached = ground (arith, l.reached_is)

  delivered-Log :
      (m : OrderMessage)
      → find b.next_sequence b.parked ≡ some m
      → Log h start (count_delivered (take_parked b)) (out ++ m ∷ [])
  unfolding count_delivered take_parked
  delivered-Log m e =
      let small = a.parked_ahead b.next_sequence (contains_of_find b.next_sequence m b.parked e) in
      let same : m ≡ h l.reached = a.authentic b.next_sequence m e ∙ ap h (sym at_reached) in
      record {
        reached = suc l.reached;
        reached_is = rw open_yet (omega (arith, at_reached));
        order = rw same (got l.order);
        counted =
            omega (
              arith,
              InOrder-length l.order,
              l.counted,
              at_reached,
              length-append {0} out (m ∷ []),
            );
        ended = λ e. ground arith;
      }

  ended-Log :
      (m : OrderMessage)
      → find b.next_sequence b.parked ≡ some m
      → m.type ≡ b'E'
      → Log h start (record (take_parked b) { done = true }) out
  unfolding take_parked
  ended-Log m e end =
      let small = a.parked_ahead b.next_sequence (contains_of_find b.next_sequence m b.parked e) in
      let same : m ≡ h l.reached = a.authentic b.next_sequence m e ∙ ap h (sym at_reached) in
      record {
        reached = l.reached;
        reached_is = omega (arith, at_reached);
        order = l.order;
        counted = l.counted;
        ended = λ _. rw same at end;
      }

  skipped-Log : contains b.next_sequence b.gone ≡ true → Log h start (skip_gone b) out
  unfolding skip_gone
  skipped-Log held =
      let small = a.gone_small b.next_sequence held in
      let counter : u64 (b.stats.unrecoverable + 1) ≡ suc b.stats.unrecoverable =
        omega (arith, InOrder-length l.order, at_reached) in
      record {
        reached = suc l.reached;
        reached_is = rw open_yet (omega (arith, at_reached));
        order = rw counter (lost l.order);
        counted = l.counted;
        ended = λ e. ground arith;
      }

abbrev pub Delivers :
    (ℕ → OrderMessage) → ℕ → ℕ → List OrderMessage → Bucket × List OrderMessage → Type 0
Delivers h start high out r = Areas h high r.0 × Log h start r.0 (out ++ r.1)

count_delivered-Areas :
    (h : ℕ → OrderMessage) (high : ℕ) (b : Bucket)
    → Areas h high b
    → Areas h high (count_delivered b)
unfolding count_delivered
count_delivered-Areas h high b a = Areas-of_fields b (count_delivered b) refl refl refl refl a

end-Areas :
    (h : ℕ → OrderMessage) (high : ℕ) (b : Bucket)
    → Areas h high b
    → Areas h high (record b { done = true })
end-Areas h high b a = Areas-of_fields b (record b { done = true }) refl refl refl refl a

-- Whatever the fuel, the loop appends to what was handed on, and keeps the invariant.
pub deliver_loop-Delivers :
    (h : ℕ → OrderMessage) (start high fuel : ℕ) (b : Bucket) (out : List OrderMessage)
    → Areas h high b
    → Log h start b out
    → Delivers h start high out (deliver_loop fuel b)
unfolding deliver_loop
deliver_loop-Delivers h start high zero b out a l = (a, rw append-nil l)
deliver_loop-Delivers h start high (suc fuel) b out a l = elim (Bool-cases b.done) [
  | inl over ↦ simp over (a, rw append-nil l)
  | inr open_yet ↦ elim (Option-cases (find b.next_sequence b.parked)) [
    | inl absent ↦ elim (Bool-cases (contains b.next_sequence b.gone)) [
      | inr missing ↦ simp (open_yet, absent, missing) (a, rw append-nil l)
      | inl held ↦
          simp (open_yet, absent, held)
            (deliver_loop-Delivers h start high fuel (skip_gone b) out
              (skip_gone-Areas h high b a held (contains_of_none b.next_sequence b.parked absent))
              (skipped-Log h start high b out a l open_yet held))
    ]
    | inr (m, found) ↦
        let taken =
          take_parked-Areas h high b a (contains_of_find b.next_sequence m b.parked found) in
        elim (Bool-cases (m.type == b'E')) [
          | inl end ↦
              simp (open_yet, found, end)
                (
                  end-Areas h high (take_parked b) taken,
                  rw append-nil
                      (ended-Log h start high b out a l open_yet m found ((==_iff _ _).0 end)),
                )
          | inr more ↦
              simp (open_yet, found, more)
                (rw append_assoc at (
                  deliver_loop-Delivers h start high fuel (count_delivered (take_parked b))
                    (out ++ m ∷ []) (count_delivered-Areas h high (take_parked b) taken)
                    (delivered-Log h start high b out a l open_yet m found)))
        ]
  ]
]
