-- ===== src/Publisher/Run.antt =====
-- src/feedpublisher.h: the whole publisher over a run of messages.
use mathlib.Core.List.{append_assoc, append-nil}
use native.Mathlib.Decide.{ℕ_discrete}
use mathlib.Core.Path.{fun_ext}
use mega_feed_handler.Base.{
  ℕ, ◌+◌, ◌^◌, ◌<◌, ◌≤◌, ◌≡◌, ◌∙◌, refl, sym, ap, List, [], ◌∷◌, ◌++◌, Bool, true, false, Option,
  some, ◌==◌, if◌then◌else◌, ◌>>=◌, get_elem?, set, length, length-set, length-append,
  get_elem?-set_self, get_elem?-set_ne, arith, inl, inr, Bool-cases, ==_iff, All, All-map,
  All-append, get_elem?-replicate, length-replicate,
}
use mega_feed_handler.Wire.Message.{OrderMessage, message_encode, dgram_encode}
use mega_feed_handler.Wire.Hash.{bucket_of, bucket_of-lt}
use mega_feed_handler.Book.BookSet.{apply_all}
use mega_feed_handler.Publisher.Defs.{
  Bucket, FeedPublisher, Sent, publish_in, publish, draw_loss, init_with, fresh_bucket,
}
use mega_feed_handler.Publisher.Ring.{fresh-Holds}
use mega_feed_handler.Publisher.Stream.{
  Publishes, stream_of, payload_at, publish_in-Publishes, payload_at-append, payload_at-last,
}

unfoldable pub publish_all : FeedPublisher → List OrderMessage → Option (FeedPublisher × List Sent)
publish_all p [] = some (p, [])
publish_all p (m ∷ ms) =
    publish p m >>= λ (q, out). publish_all q ms >>= λ (r, more). some (r, out ++ more)

abbrev extend : ℕ → OrderMessage → (ℕ → List OrderMessage) → ℕ → List OrderMessage
extend n m streams i = streams i ++ (if bucket_of m.symbol n == i then m ∷ [] else [])

-- A datagram that carries a published message of its group under the message's number.
abbrev pub IsOf : (ℕ → List OrderMessage) → Sent → Type 0
IsOf streams d =
    (sequence : ℕ) × (0 < sequence)
    × (sequence ≤ length (streams d.group))
    × (d.bytes ≡ dgram_encode d.group sequence (payload_at (streams d.group) sequence))

pub record Runs (n size : ℕ) (streams : ℕ → List OrderMessage) (p : FeedPublisher) : Type 0 where
  pub count : p.bucket_count ≡ n
  pub size_of : p.ring_size ≡ size
  pub buckets_are : length p.buckets ≡ n
  pub each :
      (i : ℕ)
      → i < n
      → (b : Bucket) × (get_elem? p.buckets i ≡ some b) × Publishes size (streams i) b

init_with-Runs :
    (n size loss : ℕ) (rng : ℕ → ℕ) → 0 < size → Runs n size (λ i. []) (init_with n size loss rng)
unfolding init_with
init_with-Runs n size loss rng pos = record {
  count = refl;
  size_of = refl;
  buckets_are = length-replicate n (fresh_bucket size);
  each = λ i h. (
    fresh_bucket size,
    get_elem?-replicate n i (fresh_bucket size) h,
    record {
      next = unfold fresh_bucket in refl;
      count = unfold fresh_bucket in refl;
      reference = unfold fresh_bucket apply_all in refl;
      ring_holds = fresh-Holds size (payload_at []) pos;
    },
  );
}

IsOf-extend :
    (n : ℕ) (m : OrderMessage) (streams : ℕ → List OrderMessage) (d : Sent)
    → IsOf streams d
    → IsOf (extend n m streams) d
IsOf-extend n m streams d (s, pos, le, e) = elim (Bool-cases (bucket_of m.symbol n == d.group)) [
  | inl hit ↦ (
    s,
    pos,
    rw hit (omega (arith, length-append {0} (streams d.group) (m ∷ []))),
    rw (hit, payload_at-append (streams d.group) m s le) e,
  )
  | inr miss ↦ (s, pos, rw (miss, append-nil) le, rw (miss, append-nil) e)
]

abbrev Step : (n size : ℕ) → (ℕ → List OrderMessage) → FeedPublisher → OrderMessage → Type 0
Step n size streams p m =
    (q : FeedPublisher) × (out : List Sent) × (publish p m ≡ some (q, out))
    × Runs n size (extend n m streams) q
    × All (IsOf (extend n m streams)) out

-- The bucket of the message takes it, and the others stay.
bucket-extend :
    (n size : ℕ) (streams : ℕ → List OrderMessage) (m : OrderMessage) (lost : Bool)
    (buckets : List Bucket) (i j : ℕ) (b c : Bucket)
    → 0 < size
    → length (streams i) + 2 < 2 ^ 64
    → i ≡ bucket_of m.symbol n
    → get_elem? buckets i ≡ some b
    → Publishes size (streams i) b
    → get_elem? buckets j ≡ some c
    → Publishes size (streams j) c
    → i < length buckets
    → (d : Bucket) × (get_elem? (set buckets i (publish_in size m lost b)) j ≡ some d)
      × Publishes size (extend n m streams j) d
bucket-extend n size streams m lost buckets i j b c pos short e eb pb ec pc inside =
    elim (ℕ_discrete i j) [
      | yes same ↦
          let hit : (bucket_of m.symbol n == j) ≡ true = (==_iff _ _).1 (sym e ∙ same) in
          (
            publish_in size m lost b,
            rw (← same) (get_elem?-set_self buckets i _ inside),
            rw (hit, ← same) (publish_in-Publishes size (streams i) m lost b pos short pb),
          )
      | no other ↦
          let miss : (bucket_of m.symbol n == j) ≡ false = ground arith in
          (c, get_elem?-set_ne buckets i j _ other ∙ ec, rw (miss, append-nil) pc)
    ]

-- What is sent for a message, if it is not lost.
sent-IsOf :
    (n size : ℕ) (streams : ℕ → List OrderMessage) (m : OrderMessage) (i : ℕ) (b : Bucket)
    → i ≡ bucket_of m.symbol n
    → Publishes size (streams i) b
    → IsOf
        (extend n m streams)
        (record { group = i; bytes = dgram_encode i b.next_sequence (message_encode m) })
sent-IsOf n size streams m i b e p =
    let hit : (bucket_of m.symbol n == i) ≡ true = (==_iff _ _).1 (sym e) in
    (
      b.next_sequence,
      omega (arith, p.next),
      rw hit (omega (arith, p.next, length-append {0} (streams i) (m ∷ []))),
      rw (hit, payload_at-last (streams i) m b.next_sequence (omega (arith, p.next))),
    )

module _ (n size : ℕ) (pos : 0 < size) (some_bucket : 0 < n) where
  publish-Step :
      (streams : ℕ → List OrderMessage) (p : FeedPublisher) (m : OrderMessage)
      → ((i : ℕ) → length (streams i) + 2 < 2 ^ 64)
      → Runs n size streams p
      → Step n size streams p m
  unfolding publish
  publish-Step streams p m short r =
      let i = bucket_of m.symbol p.bucket_count in
      let e : i ≡ bucket_of m.symbol n = ap (bucket_of m.symbol) r.count in
      let inside : i < n = rw e (bucket_of-lt m.symbol n some_bucket) in
      let at = r.each i inside in
      let lost = (draw_loss p.loss_percent p.loss_rng).0 in
      (
        record p {
          buckets = set p.buckets i (publish_in p.ring_size m lost at.0);
          loss_rng = (draw_loss p.loss_percent p.loss_rng).1;
        },
        if lost
            then []
            else record { group = i; bytes = dgram_encode i at.0.next_sequence (message_encode m) }
              ∷ [],
        rw at.1,
        record {
          count = r.count;
          size_of = r.size_of;
          buckets_are = length-set p.buckets i _ ∙ r.buckets_are;
          each = λ j h.
              let other = r.each j h in
              rw r.size_of (
                bucket-extend n size streams m lost p.buckets i j at.0 other.0 pos (short i) e at.1
                  at.2 other.1 other.2 (omega (arith, inside, r.buckets_are)));
        },
        elim (Bool-cases lost) [
          | inl gone ↦ rw gone tt
          | inr kept ↦ rw kept (sent-IsOf n size streams m i at.0 e at.2, tt)
        ],
      )

abbrev after : ℕ → List OrderMessage → (ℕ → List OrderMessage) → ℕ → List OrderMessage
after n ms streams i = streams i ++ stream_of n i ms

after-cons :
    (n : ℕ) (m : OrderMessage) (ms : List OrderMessage) (streams : ℕ → List OrderMessage)
    → after n ms (extend n m streams) ≡ after n (m ∷ ms) streams
unfolding stream_of
after-cons n m ms streams = fun_ext (λ i. append_assoc (streams i) _ (stream_of n i ms))

after-nil : (n : ℕ) (streams : ℕ → List OrderMessage) → after n [] streams ≡ streams
unfolding stream_of
after-nil n streams = fun_ext (λ i. append-nil (streams i))

IsOf-after :
    (n : ℕ) (ms : List OrderMessage) (streams : ℕ → List OrderMessage) (ds : List Sent)
    → All (IsOf streams) ds
    → All (IsOf (after n ms streams)) ds
IsOf-after n [] streams ds h = rw (after-nil n streams) h
IsOf-after n (m ∷ ms) streams ds h =
    rw (← after-cons n m ms streams)
      (IsOf-after n ms (extend n m streams) ds (All-map (IsOf-extend n m streams) ds h))

length-extend :
    (n : ℕ) (m : OrderMessage) (streams : ℕ → List OrderMessage) (i : ℕ)
    → length (extend n m streams i) ≤ length (streams i) + 1
length-extend n m streams i = elim (Bool-cases (bucket_of m.symbol n == i)) [
  | inl hit ↦ rw hit (omega (arith, length-append {0} (streams i) (m ∷ [])))
  | inr miss ↦ rw miss (omega (arith, length-append {0} {A = OrderMessage} (streams i) []))
]

module _ (n size : ℕ) (pos : 0 < size) (some_bucket : 0 < n) where
  publish_all-Runs :
      (ms : List OrderMessage) (streams : ℕ → List OrderMessage) (p : FeedPublisher)
      → ((i : ℕ) → length (streams i) + length ms + 1 < 2 ^ 64)
      → Runs n size streams p
      → (q : FeedPublisher) × (sent : List Sent) × (publish_all p ms ≡ some (q, sent))
        × Runs n size (after n ms streams) q
        × All (IsOf (after n ms streams)) sent
  unfolding publish_all
  publish_all-Runs [] streams p short r = (p, [], refl, rw (after-nil n streams) r, tt)
  publish_all-Runs (m ∷ ms) streams p short r =
      let one = publish-Step n size pos some_bucket streams p m (λ i. omega (arith, short i)) r in
      let rest =
        publish_all-Runs ms (extend n m streams) one.0
          (λ i. omega (arith, short i, length-extend n m streams i)) one.3 in
      (
        rest.0,
        one.1 ++ rest.1,
        rw (one.2, rest.2),
        rw (← after-cons n m ms streams) rest.3,
        rw (← after-cons n m ms streams)
            (All-append _ one.1 rest.1 (IsOf-after n ms (extend n m streams) one.1 one.4) rest.4),
      )

-- Publishing any messages from a fresh publisher succeeds. Each bucket has then numbered its own
-- messages from 1 in order, shown all of them to its golden books, and its ring answers with the
-- last `size` of them; and every datagram that was sent carries a message under its number.
pub publish_all_lem :
    (n size loss : ℕ) (rng : ℕ → ℕ) (ms : List OrderMessage)
    → 0 < size
    → 0 < n
    → length ms + 1 < 2 ^ 64
    → (q : FeedPublisher) × (sent : List Sent) × (publish_all (init_with n size loss rng) ms
        ≡ some (q, sent))
      × Runs n size (λ i. stream_of n i ms) q
      × All (IsOf (λ i. stream_of n i ms)) sent
publish_all_lem n size loss rng ms pos some_bucket short =
    publish_all-Runs n size pos some_bucket ms (λ i. []) (init_with n size loss rng)
      (λ i. omega (arith, short)) (init_with-Runs n size loss rng pos)
