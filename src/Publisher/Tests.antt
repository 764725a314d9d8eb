-- ===== src/Publisher/Tests.antt =====
-- src/feedpublisher.h: a publisher with two buckets and a ring of two slots.
use mega_feed_handler.Base.{ℕ, ◌+◌, ◌^◌, ◌<◌, ◌≡◌, refl, List, [], ◌∷◌, some, true, arith, All}
use mega_feed_handler.Base.Int.{pos}
use mega_feed_handler.Book.BookSet.{apply_all}
use mega_feed_handler.Wire.Message.{OrderMessage}
use mega_feed_handler.Publisher.Defs.{Bucket, finish}
use mega_feed_handler.Publisher.Defs.{FeedPublisher, Sent, fresh_bucket, init_with}
use mega_feed_handler.Publisher.Serve.{Client, closed, serve_one_client}
use mega_feed_handler.Publisher.Ring.{Holds, fresh-Holds}
use mega_feed_handler.Publisher.Stream.{stream_of, payload_at, Publishes}
use mega_feed_handler.Publisher.Run.{IsOf, Runs, publish_all, publish_all_lem}
use mega_feed_handler.Publisher.Finish.{ended, finish_lem}
use mega_feed_handler.Base.{get_elem?, length}
use mega_feed_handler.Publisher.Session.{serve_one_client-closes}

abbrev note : ℕ → OrderMessage
note price = record {
  type = b'B';
  symbol = 65 ∷ 66 ∷ 0 ∷ [];
  price = pos price;
  size = 5;
  timestamp = 0;
}

abbrev three : List OrderMessage
three = note 1 ∷ note 2 ∷ note 3 ∷ []

-- Every datagram is lost.
abbrev zeros : ℕ → ℕ
zeros i = 0

publish_all_lem_example :
    (q : FeedPublisher) × (sent : List Sent) × (publish_all (init_with 2 2 5 zeros) three
      ≡ some (q, sent))
    × Runs 2 2 (λ i. stream_of 2 i three) q
    × All (IsOf (λ i. stream_of 2 i three)) sent
publish_all_lem_example =
    publish_all_lem 2 2 5 zeros three (omega arith) (omega arith) (omega arith)

-- The publisher with a fresh ring, at every request.
fresh_runs :
    (q : FeedPublisher) × (sent : List Sent) × (publish_all (init_with 2 2 5 zeros) []
      ≡ some (q, sent))
    × Runs 2 2 (λ i. stream_of 2 i []) q
    × All (IsOf (λ i. stream_of 2 i [])) sent
fresh_runs = publish_all_lem 2 2 5 zeros [] (omega arith) (omega arith) (omega arith)

abbrev digits : ℕ → List ℕ
digits k = k ∷ []

fresh_small : (fresh_bucket 2).next_sequence + 1 < 2 ^ 64
unfolding fresh_bucket
fresh_small = omega arith

fresh-Publishes : Publishes 2 [] (fresh_bucket 2)
unfolding fresh_bucket apply_all
fresh-Publishes = record {
  next = refl;
  count = refl;
  reference = refl;
  ring_holds = fresh-Holds 2 (payload_at []) (omega arith);
}

-- A request for numbers 1 and 9 of bucket 0, and half a request behind it.
abbrev asking : Client
asking = record {
  incoming =
      0 ∷ 0 ∷ 2 ∷ 0 ∷ 1 ∷ 0 ∷ 0 ∷ 0 ∷ 0 ∷ 0 ∷ 0 ∷ 0 ∷ 9 ∷ 0 ∷ 0 ∷ 0 ∷ 0 ∷ 0 ∷ 0 ∷ 0 ∷ 1 ∷ 0 ∷ [];
  accepts = λ n. true;
}

serve_one_client-closes_example :
    (out : List ℕ) × (serve_one_client (λ i. fresh_runs.0) asking ≡ closed out)
serve_one_client-closes_example =
    serve_one_client-closes 2 2 (λ i. λ j. stream_of 2 j []) (λ i. fresh_runs.0) asking
      (λ i. fresh_runs.3) (omega arith) (ground arith)

short_stream : length (stream_of 2 0 []) + 2 < 2 ^ 64
unfolding stream_of
short_stream = omega arith

finish_lem_example :
    (b : Bucket) × (get_elem? (finish fresh_runs.0).0.buckets 0 ≡ some b)
    × (b.next_sequence ≡ length (ended (λ j. stream_of 2 j []) 0) + 1)
    × Holds 2 (payload_at (ended (λ j. stream_of 2 j []) 0)) b
    × All (IsOf (ended (λ j. stream_of 2 j []))) (finish fresh_runs.0).1
finish_lem_example =
    finish_lem 2 2 (λ j. stream_of 2 j []) fresh_runs.0 0 fresh_runs.3 (omega arith) (omega arith)
      short_stream
