-- ===== src/Publisher/Defs.antt =====
-- src/feedpublisher.h: FeedPublisher. The draws of `loss_rng` still to come are any
-- stream; a datagram handed to `sendto` is an output. Under
-- `ring_mutex` each block is one step. Sleeps, sockets and addresses are left out.
use mega_feed_handler.Base.{
  ℕ, zero, suc, ◌+◌, ◌%◌, List, [], ◌∷◌, ◌++◌, Bool, true, false, Option, some, ◌==◌, ltb,
  if◌then◌else◌, ◌>>=◌, get_elem?, set, replicate,
}
use mega_feed_handler.Base.Bits.{u64}
use mega_feed_handler.Base.Int.{pos}
use mega_feed_handler.Wire.Message.{OrderMessage, message_encode, dgram_encode}
use mega_feed_handler.Wire.Hash.{bucket_of}
use mega_feed_handler.Book.BookSet.{BookSet, empty_set, apply_message}

pub record Slot : Type 0 where
  pub sequence : ℕ
  pub used : Bool
  pub msg : List ℕ

-- `msg` is left uninitialised in the source; it is never read while `used` is false.
abbrev pub empty_slot : Slot
empty_slot = record { sequence = 0; used = false; msg = [] }

pub record Bucket : Type 0 where
  pub next_sequence : ℕ
  pub published : ℕ
  pub dropped : ℕ
  pub ring : List Slot
  pub golden : BookSet

pub record FeedPublisher : Type 0 where
  pub bucket_count : ℕ
  pub loss_percent : ℕ
  pub ring_size : ℕ
  pub loss_rng : ℕ → ℕ
  pub buckets : List Bucket

-- A datagram that was sent to the group of a bucket.
pub record Sent : Type 0 where
  pub group : ℕ
  pub bytes : List ℕ

-- src/env.h
abbrev pub buckets_configured : ℕ
buckets_configured = 4

abbrev pub ring_size_configured : ℕ
ring_size_configured = 262144

-- `LOSS_PERCENT * 100`, cut to an `int`
abbrev pub loss_percent_configured : ℕ
loss_percent_configured = 5

unfoldable pub fresh_bucket : ℕ → Bucket
fresh_bucket size = record {
  next_sequence = 1;
  published = 0;
  dropped = 0;
  ring = replicate size empty_slot;
  golden = empty_set;
}

-- `init` for any configuration, and for the configured one; the stream is the seeded generator.
unfoldable pub init_with : ℕ → ℕ → ℕ → (ℕ → ℕ) → FeedPublisher
init_with bucket_count size loss rng = record {
  bucket_count = bucket_count;
  loss_percent = loss;
  ring_size = size;
  loss_rng = rng;
  buckets = replicate bucket_count (fresh_bucket size);
}

unfoldable pub init : (ℕ → ℕ) → FeedPublisher
init = init_with buckets_configured ring_size_configured loss_percent_configured

-- The block under the lock: take the next number, and overwrite its slot of the ring.
unfoldable pub store : ℕ → List ℕ → Bucket → Bucket
store size payload b = record b {
  next_sequence = u64 (b.next_sequence + 1);
  ring =
      set b.ring (b.next_sequence % size)
        (record { sequence = b.next_sequence; used = true; msg = payload });
}

-- `loss_percent && (int)(loss_rng() % 100) < loss_percent`: whether the datagram is lost, and the
-- draws that are left.
unfoldable pub draw_loss : ℕ → (ℕ → ℕ) → Bool × (ℕ → ℕ)
draw_loss loss rng = if loss == 0 then (false, rng) else (ltb (rng 0 % 100) loss, λ i. rng (suc i))

-- What `publish` does to the bucket of its message.
unfoldable pub publish_in : ℕ → OrderMessage → Bool → Bucket → Bucket
publish_in size msg lost b =
    let stored =
      store size (message_encode msg) (record b { golden = apply_message b.golden msg }) in
    record stored {
      published = u64 (stored.published + 1);
      dropped = if lost then u64 (stored.dropped + 1) else stored.dropped;
    }

-- `none` is an access to `buckets` out of range.
unfoldable pub publish : FeedPublisher → OrderMessage → Option (FeedPublisher × List Sent)
publish p msg =
    let index = bucket_of msg.symbol p.bucket_count in
    let (lost, rng) = draw_loss p.loss_percent p.loss_rng in
    (get_elem? p.buckets index >>= λ b. some (
      record p {
        buckets = set p.buckets index (publish_in p.ring_size msg lost b);
        loss_rng = rng;
      },
      if lost
          then []
          else record {
            group = index;
            bytes = dgram_encode index b.next_sequence (message_encode msg);
          }
            ∷ [],
    ))

abbrev pub end_message : OrderMessage
end_message = record { type = b'E'; symbol = replicate 9 0; price = pos 0; size = 0; timestamp = 0 }

-- The bursts of end markers: `ends` holds the sequence numbers of the buckets from `index` on.
unfoldable pub send_ends : ℕ → ℕ → List ℕ → (ℕ → ℕ) → List Sent × (ℕ → ℕ)
send_ends loss index [] rng = ([], rng)
send_ends loss index (sequence ∷ ends) rng =
    let (lost, rng') = draw_loss loss rng in
    let (sent, rng'') = send_ends loss (index + 1) ends rng' in
    (
      if lost
          then sent
          else record {
            group = index;
            bytes = dgram_encode index sequence (message_encode end_message);
          }
            ∷ sent,
      rng'',
    )

unfoldable pub send_rounds : ℕ → ℕ → List ℕ → (ℕ → ℕ) → List Sent × (ℕ → ℕ)
send_rounds zero loss ends rng = ([], rng)
send_rounds (suc rounds) loss ends rng =
    let (sent, rng') = send_ends loss 0 ends rng in
    let (more, rng'') = send_rounds rounds loss ends rng' in (sent ++ more, rng'')

unfoldable pub store_ends : ℕ → List Bucket → List Bucket
store_ends size [] = []
store_ends size (b ∷ bs) = store size (message_encode end_message) b ∷ store_ends size bs

unfoldable pub next_sequences : List Bucket → List ℕ
next_sequences [] = []
next_sequences (b ∷ bs) = b.next_sequence ∷ next_sequences bs

unfoldable pub finish : FeedPublisher → FeedPublisher × List Sent
finish p =
    let (sent, rng) = send_rounds 20 p.loss_percent (next_sequences p.buckets) p.loss_rng in
    (record p { buckets = store_ends p.ring_size p.buckets; loss_rng = rng }, sent)
