-- ===== src/Publisher/Finish.antt =====
-- src/feedpublisher.h: `finish`, the end marker of every bucket.
use mega_feed_handler.Base.{
  ℕ, zero, suc, ◌+◌, ◌^◌, ◌<◌, ◌≡◌, ◌∙◌, refl, ap, sym, List, [], ◌∷◌, ◌++◌, some, get_elem?,
  length, arith, All, All-append, length-append, Bool-cases, inl, inr,
}
use mega_feed_handler.Wire.Message.{OrderMessage, message_encode, dgram_encode}
use mega_feed_handler.Publisher.Defs.{
  Bucket, FeedPublisher, store, draw_loss, end_message, send_ends, send_rounds, store_ends,
  next_sequences, finish,
}
use mega_feed_handler.Publisher.Ring.{Holds}
use mega_feed_handler.Publisher.Stream.{payload_at, payload_at-last, store-Publishes}
use mega_feed_handler.Publisher.Run.{IsOf, Runs}

-- The streams with their end markers.
abbrev pub ended : (ℕ → List OrderMessage) → ℕ → List OrderMessage
ended streams i = streams i ++ end_message ∷ []

get_elem?-store_ends :
    (size : ℕ) (bs : List Bucket) (i : ℕ) (b : Bucket)
    → get_elem? bs i ≡ some b
    → get_elem? (store_ends size bs) i ≡ some (store size (message_encode end_message) b)
unfolding store_ends
get_elem?-store_ends size [] i b e = absurd (ground (arith, e))
get_elem?-store_ends size (c ∷ bs) zero b e =
    ap some (ap (store size (message_encode end_message)) (ground (arith, e)))
get_elem?-store_ends size (c ∷ bs) (suc i) b e = get_elem?-store_ends size bs i b e

-- The numbers of the end markers, from bucket `index` on.
abbrev IsNext : (ℕ → List OrderMessage) → ℕ → List ℕ → Type 0
IsNext streams index [] = Unit
IsNext streams index (s ∷ ends) = (s ≡ length (streams index) + 1) × IsNext streams (index + 1) ends

send_ends-IsOf :
    (streams : ℕ → List OrderMessage) (loss index : ℕ) (ends : List ℕ) (rng : ℕ → ℕ)
    → IsNext streams index ends
    → All (IsOf (ended streams)) (send_ends loss index ends rng).0
unfolding send_ends
send_ends-IsOf streams loss index [] rng h = tt
send_ends-IsOf streams loss index (s ∷ ends) rng h =
    let more = send_ends-IsOf streams loss (index + 1) ends (draw_loss loss rng).1 h.1 in
    let grown = length-append {0} (streams index) (end_message ∷ []) in
    let payload = payload_at-last (streams index) end_message s (omega (arith, h.0)) in
    elim (Bool-cases (draw_loss loss rng).0) [
      | inl lost ↦ simp lost more
      | inr sent ↦ simp sent (
        (s, omega (arith, h.0), omega (arith, h.0, grown), ap (dgram_encode index s) (sym payload)),
        more,
      )
    ]

send_rounds-IsOf :
    (streams : ℕ → List OrderMessage) (rounds loss : ℕ) (ends : List ℕ) (rng : ℕ → ℕ)
    → IsNext streams 0 ends
    → All (IsOf (ended streams)) (send_rounds rounds loss ends rng).0
unfolding send_rounds
send_rounds-IsOf streams zero loss ends rng h = tt
send_rounds-IsOf streams (suc rounds) loss ends rng h =
    All-append (IsOf (ended streams)) (send_ends loss 0 ends rng).0 _
      (send_ends-IsOf streams loss 0 ends rng h)
      (send_rounds-IsOf streams rounds loss ends (send_ends loss 0 ends rng).1 h)

next_sequences-IsNext :
    (size : ℕ) (streams : ℕ → List OrderMessage) (bs : List Bucket) (index : ℕ)
    → ((i : ℕ) (b : Bucket)
        → get_elem? bs i ≡ some b
        → b.next_sequence ≡ length (streams (index + i)) + 1)
    → IsNext streams index (next_sequences bs)
unfolding next_sequences
next_sequences-IsNext size streams [] index h = tt
next_sequences-IsNext size streams (b ∷ bs) index h = (
  h 0 b refl ∙ ap (λ i. length (streams i) + 1) {x = index + 0} {y = index} (omega arith),
  next_sequences-IsNext size streams bs (index + 1) (λ i c e.
      h (suc i) c e
      ∙ ap (λ j. length (streams j) + 1) {x = index + suc i} {y = index + 1 + i} (omega arith)),
)

get_elem?-lt : (bs : List Bucket) (i : ℕ) (b : Bucket) → get_elem? bs i ≡ some b → i < length bs
get_elem?-lt [] i b e = absurd (ground (arith, e))
get_elem?-lt (c ∷ bs) zero b e = omega arith
get_elem?-lt (c ∷ bs) (suc i) b e = omega (arith, get_elem?-lt bs i b e)

Runs-next :
    (n size : ℕ) (streams : ℕ → List OrderMessage) (p : FeedPublisher)
    → Runs n size streams p
    → (i : ℕ) (b : Bucket) → get_elem? p.buckets i ≡ some b
    → b.next_sequence ≡ length (streams i) + 1
Runs-next n size streams p w i b e =
    let known = w.each i (omega (arith, get_elem?-lt p.buckets i b e, w.buckets_are)) in
    let same : known.0 ≡ b = ground (arith, known.1, e) in rw same at known.2.next

-- After any run, `finish` gives every bucket's stream its end marker under the next number: the
-- bucket's ring answers for the last `size` numbers of the stream with the marker behind it, and
-- every datagram that is sent carries a message of its group's stream with the marker behind it,
-- under that message's number; for a positive ring size and streams whose numbers do not wrap.
pub finish_lem :
    (n size : ℕ) (streams : ℕ → List OrderMessage) (p : FeedPublisher) (i : ℕ)
    → Runs n size streams p
    → 0 < size
    → i < n
    → length (streams i) + 2 < 2 ^ 64
    → (b : Bucket) × (get_elem? (finish p).0.buckets i ≡ some b)
      × (b.next_sequence ≡ length (ended streams i) + 1)
      × Holds size (payload_at (ended streams i)) b
      × All (IsOf (ended streams)) (finish p).1
unfolding finish
finish_lem n size streams p i w pos known small =
    let (b, found, publishes) = w.each i known in
    let stored = get_elem?-store_ends p.ring_size p.buckets i b found in
    let at_size = ap (λ s. some (store s (message_encode end_message) b)) w.size_of in
    (
      store size (message_encode end_message) b,
      stored ∙ at_size,
      unfold store in
          omega (arith, publishes.next, length-append {0} (streams i) (end_message ∷ []), small),
      store-Publishes size (streams i) end_message b pos small publishes,
      send_rounds-IsOf streams 20 p.loss_percent (next_sequences p.buckets) p.loss_rng (
          next_sequences-IsNext size streams p.buckets 0 (λ j c e.
            Runs-next n size streams p w j c e
            ∙ ap (λ k. length (streams k) + 1) {x = j} {y = 0 + j} (omega arith))),
    )
