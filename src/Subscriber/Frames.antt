-- ===== src/Subscriber/Frames.antt =====
-- src/subscriber.h: repair frames and the invariant.
use mega_feed_handler.Base.{
  ℕ, ◌<◌, ◌≡◌, ◌∙◌, inl, inr, ap, List, ◌&&◌, not, Option, none, some, leb, arith, Bool-cases,
}
use mega_feed_handler.Base.OrdMap.{
  ascending, contains, find-insert, contains-insert, contains-erase,
}
use mega_feed_handler.Base.Sorted.{erase-Sorted}
use mega_feed_handler.Wire.Message.{OrderMessage}
use mega_feed_handler.Subscriber.Bucket.{Bucket, on_frame}
use mega_feed_handler.Subscriber.Invariant.{limit, Areas, Log-of_fields, Live}

module _ (h : ℕ → OrderMessage) (b : Bucket) (sequence : ℕ) (small : sequence < limit) (high : ℕ)
    (a : Areas h high b) where
  -- The sender's ring has lost the number.
  gone-Areas : Areas h high (on_frame sequence none b)
  gone-Areas = elim (Bool-cases (leb b.next_sequence sequence)) [
    | inl ahead ↦
        unfold on_frame in
        simp ahead (record {
          next_small = a.next_small;
          high_small = a.high_small;
          holes_sorted = erase-Sorted sequence b.holes a.holes_sorted;
          authentic = a.authentic;
          parked_ahead = a.parked_ahead;
          gone_small = λ k e. ground (arith, contains-insert sequence k tt b.gone, a.gone_small k);
          holes_open = λ k e. ground (
            arith,
            contains-insert sequence k tt b.gone,
            contains-erase sequence k b.holes,
            a.holes_open k,
          );
          covered = λ k p q. ground (
            arith,
            contains-insert sequence k tt b.gone,
            contains-erase sequence k b.holes,
            a.covered k,
          );
        })
    | inr behind ↦
        unfold on_frame in
        simp behind (record {
          next_small = a.next_small;
          high_small = a.high_small;
          holes_sorted = erase-Sorted sequence b.holes a.holes_sorted;
          authentic = a.authentic;
          parked_ahead = a.parked_ahead;
          gone_small = a.gone_small;
          holes_open = λ k e. ground (arith, contains-erase sequence k b.holes, a.holes_open k);
          covered = λ k p q. ground (arith, contains-erase sequence k b.holes, a.covered k);
        })
  ]

  -- The message itself.
  repaired-Areas : Areas h high (on_frame sequence (some (h sequence)) b)
  repaired-Areas =
      elim (Bool-cases (leb b.next_sequence sequence && not (contains sequence b.parked))) [
        | inl fits ↦
            unfold on_frame in
            simp fits (record {
              next_small = a.next_small;
              high_small = a.high_small;
              holes_sorted = erase-Sorted sequence b.holes a.holes_sorted;
              authentic = λ k m e. ground (
                arith,
                find-insert sequence k (h sequence) b.parked,
                a.authentic k m,
                ap h {x = sequence} {y = k},
              );
              parked_ahead = λ k e.
                  ground
                    (arith, contains-insert sequence k (h sequence) b.parked, a.parked_ahead k);
              gone_small = a.gone_small;
              holes_open = λ k e. ground (
                arith,
                contains-insert sequence k (h sequence) b.parked,
                contains-erase sequence k b.holes,
                a.holes_open k,
              );
              covered = λ k p q. ground (
                arith,
                contains-insert sequence k (h sequence) b.parked,
                contains-erase sequence k b.holes,
                a.covered k,
              );
            })
        | inr old ↦
            unfold on_frame in
            simp old (record {
              next_small = a.next_small;
              high_small = a.high_small;
              holes_sorted = erase-Sorted sequence b.holes a.holes_sorted;
              authentic = a.authentic;
              parked_ahead = a.parked_ahead;
              gone_small = a.gone_small;
              holes_open = λ k e. ground (arith, contains-erase sequence k b.holes, a.holes_open k);
              covered = λ k p q. ground (
                arith,
                contains-erase sequence k b.holes,
                a.covered k,
                ap (λ i. contains i b.parked) {x = k} {y = sequence},
              );
            })
      ]

frame-fields :
    (b : Bucket) (sequence : ℕ) (found : Option OrderMessage)
    → let c = on_frame sequence found b in
      (c.next_sequence ≡ b.next_sequence)
      × (c.done ≡ b.done)
      × (c.stats.unrecoverable ≡ b.stats.unrecoverable)
      × (c.stats.delivered ≡ b.stats.delivered)
      × (c.synced ≡ b.synced)
unfolding on_frame
frame-fields b sequence none = ground arith
frame-fields b sequence (some m) = ground arith

-- A frame of the stream that is on its way, or the word that the ring lost its number, keeps the
-- invariant, whatever the number.
pub on_frame-Live :
    {low : ℕ} (h : ℕ → OrderMessage) (start : ℕ) (b : Bucket) (out : List OrderMessage)
    (sequence : ℕ)
    → sequence < limit
    → Live low h start b out
    → Live low h start (on_frame sequence (some (h sequence)) b) out
      × Live low h start (on_frame sequence none b) out
on_frame-Live {low} h start b out sequence small v = (
  keep (some (h sequence)) (repaired-Areas h b sequence small v.high v.areas),
  keep none (gone-Areas h b sequence small v.high v.areas),
)
  where
    keep :
        (found : Option OrderMessage)
        → Areas h v.high (on_frame sequence found b)
        → Live low h start (on_frame sequence found b) out
    keep found a =
        let f = frame-fields b sequence found in
        record {
          high = v.high;
          high_low = v.high_low;
          areas = a;
          log = Log-of_fields b (on_frame sequence found b) f.0 f.1 f.2 f.3 v.log;
          tuned = f.4 ∙ v.tuned;
        }
