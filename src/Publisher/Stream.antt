-- ===== src/Publisher/Stream.antt =====
-- src/feedpublisher.h: what a run of `publish` makes of each bucket, and what it sends.
use mega_feed_handler.Base.{
  ℕ, zero, suc, ◌+◌, ◌^◌, ◌<◌, ◌≤◌, ◌≡◌, ◌∙◌, refl, sym, ap, List, [], ◌∷◌, ◌++◌, Bool, ◌==◌,
  if◌then◌else◌, length, length-append, arith,
}
use mega_feed_handler.Wire.Message.{OrderMessage, message_encode}
use mega_feed_handler.Wire.Hash.{bucket_of}
use mega_feed_handler.Book.BookSet.{BookSet, empty_set, apply_message, apply_all}
use mega_feed_handler.Publisher.Defs.{Bucket, store, publish_in}
use mega_feed_handler.Publisher.Ring.{Holds, store-Holds}

-- The messages of bucket `i`, in their order.
unfoldable pub stream_of : ℕ → ℕ → List OrderMessage → List OrderMessage
stream_of n i [] = []
stream_of n i (m ∷ ms) = (if bucket_of m.symbol n == i then m ∷ [] else []) ++ stream_of n i ms

-- The encoding of the message with number `sequence`; numbers start at 1.
unfoldable pub payload_at : List OrderMessage → ℕ → List ℕ
payload_at stream zero = []
payload_at [] (suc n) = []
payload_at (m ∷ stream) (suc zero) = message_encode m
payload_at (m ∷ stream) (suc (suc n)) = payload_at stream (suc n)

-- What a bucket is after publishing `stream`: its next number and its count follow the length, its
-- golden books have seen every message, and its ring answers with the last `size` of them.
pub record Publishes (size : ℕ) (stream : List OrderMessage) (b : Bucket) : Type 0 where
  pub next : b.next_sequence ≡ length stream + 1
  pub count : b.published ≡ length stream
  pub reference : b.golden ≡ apply_all empty_set stream
  pub ring_holds : Holds size (payload_at stream) b

pub payload_at-append :
    (stream : List OrderMessage) (m : OrderMessage) (n : ℕ)
    → n ≤ length stream
    → payload_at (stream ++ m ∷ []) n ≡ payload_at stream n
unfolding payload_at
payload_at-append [] m zero h = refl
payload_at-append [] m (suc n) h = absurd (omega arith)
payload_at-append (x ∷ stream) m zero h = refl
payload_at-append (x ∷ stream) m (suc zero) h = refl
payload_at-append (x ∷ stream) m (suc (suc n)) h = payload_at-append stream m (suc n) (omega arith)

pub payload_at-last :
    (stream : List OrderMessage) (m : OrderMessage) (n : ℕ)
    → n ≡ suc (length stream)
    → payload_at (stream ++ m ∷ []) n ≡ message_encode m
unfolding payload_at
payload_at-last [] m zero h = absurd (omega arith)
payload_at-last [] m (suc zero) h = refl
payload_at-last [] m (suc (suc n)) h = absurd (omega arith)
payload_at-last (x ∷ stream) m zero h = absurd (omega arith)
payload_at-last (x ∷ stream) m (suc zero) h = absurd (omega arith)
payload_at-last (x ∷ stream) m (suc (suc n)) h = payload_at-last stream m (suc n) (omega arith)

apply_all-append :
    (s : BookSet) (ms : List OrderMessage) (m : OrderMessage)
    → apply_all s (ms ++ m ∷ []) ≡ apply_message (apply_all s ms) m
unfolding apply_all
apply_all-append s [] m = refl
apply_all-append s (x ∷ ms) m = apply_all-append (apply_message s x) ms m

-- The answers speak only of numbers below the next.
Holds-ext :
    (size : ℕ) (f g : ℕ → List ℕ) (b : Bucket)
    → ((n : ℕ) → n < b.next_sequence → f n ≡ g n)
    → Holds size f b
    → Holds size g b
Holds-ext size f g b e h = record {
  length_ring = h.length_ring;
  started = h.started;
  answers = λ n. ground (arith, h.answers n, e n);
}

-- The ring's answers speak only of the ring and the next number.
Holds-of_fields :
    (size : ℕ) (f : ℕ → List ℕ) (b c : Bucket)
    → c.ring ≡ b.ring
    → c.next_sequence ≡ b.next_sequence
    → Holds size f b
    → Holds size f c
Holds-of_fields size f b c e n h = record {
  length_ring = rw e h.length_ring;
  started = rw n h.started;
  answers = λ k. rw (e, n) (h.answers k);
}

pub store-Publishes :
    (size : ℕ) (stream : List OrderMessage) (m : OrderMessage) (b : Bucket)
    → 0 < size
    → length stream + 2 < 2 ^ 64
    → Publishes size stream b
    → Holds size (payload_at (stream ++ m ∷ [])) (store size (message_encode m) b)
store-Publishes size stream m b pos small p =
    let grown = payload_at (stream ++ m ∷ []) in
    let last : grown b.next_sequence ≡ message_encode m =
      payload_at-last stream m b.next_sequence (omega (arith, p.next)) in
    let before : Holds size grown b =
      Holds-ext size (payload_at stream) grown b
        (λ n h. sym (payload_at-append stream m n (omega (arith, p.next)))) p.ring_holds in
    rw (← last) (store-Holds size grown b pos (omega (arith, p.next)) before)

-- Publishing one more message, lost on the way or not, keeps what a bucket is after publishing a
-- stream: its numbers, its count, its golden books and the answers of its ring; for a positive ring
-- size and numbers that do not wrap.
pub publish_in-Publishes :
    (size : ℕ) (stream : List OrderMessage) (m : OrderMessage) (lost : Bool) (b : Bucket)
    → 0 < size
    → length stream + 2 < 2 ^ 64
    → Publishes size stream b
    → Publishes size (stream ++ m ∷ []) (publish_in size m lost b)
publish_in-Publishes size stream m lost b pos small p = record {
  next = unfold publish_in store in omega (arith, p.next, length-append {0} stream (m ∷ []));
  count = unfold publish_in store in omega (arith, p.count, length-append {0} stream (m ∷ []));
  reference =
      unfold publish_in store in
      ap (λ s. apply_message s m) p.reference ∙ sym (apply_all-append empty_set stream m);
  ring_holds =
      unfold publish_in store in
      Holds-of_fields size _ (store size (message_encode m) b) (publish_in size m lost b) refl refl
        (store-Publishes size stream m b pos small p);
}
