-- ===== src/Publisher/Session.antt =====
-- src/feedpublisher.h: a session of the repair server with any client.
use mega_feed_handler.Base.{
  ℕ, ◌&&◌, zero, suc, ◌+◌, ◌*◌, ◌%◌, ◌<◌, ◌≤◌, ◌≡◌, ◌∙◌, refl, sym, List, [], ◌++◌, ◌||◌, Bool,
  Option, none, some, ltb, leb, ◌==◌, if◌then◌else◌, length, drop, take, arith, All-drop, All-take,
  length-drop, length-take, get_elem?_in, inl, inr, Bool-cases, Option-cases,
}
use mega_feed_handler.Wire.Bytes.{IsBytes, get_u16_in, get_u64_in}
use mega_feed_handler.Wire.Message.{OrderMessage}
use mega_feed_handler.Publisher.Defs.{Slot, FeedPublisher}
use mega_feed_handler.Publisher.Serve.{
  read_ring, frame, respond, request_header, read_exact, answer_numbers, answer_request, closed,
  written, serve, serve_one_client, Client, max_repair_batch,
}
use mega_feed_handler.Publisher.Run.{Runs}

read_ring_in :
    (ring : List Slot) (size sequence : ℕ)
    → 0 < size
    → length ring ≡ size
    → (found : Option (List ℕ)) × (read_ring ring size sequence ≡ some found)
unfolding read_ring
read_ring_in ring size sequence pos e =
    let slot = get_elem?_in ring (sequence % size) (omega arith) in
    ((if slot.0.used && slot.0.sequence == sequence then some slot.0.msg else none), rw slot.1 refl)

respond_in :
    (bucket : ℕ) (ring : List Slot) (size count : ℕ) (bytes : List ℕ)
    → 0 < size
    → length ring ≡ size
    → IsBytes bytes
    → count * 8 ≤ length bytes
    → (response : List ℕ) × (respond bucket ring size count bytes ≡ some response)
unfolding respond
respond_in bucket ring size zero bytes pos e bs l = ([], refl)
respond_in bucket ring size (suc count) bytes pos e bs l =
    let number = get_u64_in bytes bs (omega (arith, l)) in
    let found = read_ring_in ring size number.0 pos e in
    let rest =
      respond_in bucket ring size count (drop 8 bytes) pos e (All-drop _ 8 bytes bs)
        (omega (arith, l, length-drop {0} 8 bytes)) in
    (frame bucket number.0 found.0 ++ rest.0, rw (number.1, found.1, rest.1) refl)

-- A round is in range, and leaves the loop or takes its request off the front of the bytes.
abbrev Progress : List ℕ → Option (List ℕ × List ℕ) → Type 0
Progress incoming none = Unit
Progress incoming (some (response, rest)) = IsBytes rest × (length rest + 4 ≤ length incoming)

answer_numbers_in :
    (n size : ℕ) (streams : ℕ → List OrderMessage) (p : FeedPublisher) (bucket count : ℕ)
    (rest : List ℕ)
    → Runs n size streams p
    → 0 < size
    → bucket < n
    → IsBytes rest
    → (r : Option (List ℕ × List ℕ)) × (answer_numbers p bucket count rest ≡ some r)
      × ((incoming : List ℕ) → length rest + 4 ≤ length incoming → Progress incoming r)
unfolding answer_numbers read_exact
answer_numbers_in n size streams p bucket count rest w pos known bs =
    elim (Bool-cases (ltb (length rest) (count * 8))) [
      | inl short ↦ (none, rw (short, answer_numbers) refl, λ incoming l. tt)
      | inr enough ↦
          let b = w.each bucket known in
          let ring_length = b.2.ring_holds.length_ring in
          let response =
            respond_in bucket b.0.ring p.ring_size count (take (count * 8) rest)
              (omega (arith, w.size_of, pos)) (ring_length ∙ sym w.size_of)
              (All-take _ (count * 8) rest bs)
              (omega (arith, length-take {0} (count * 8) rest (ground arith))) in
          (
            some (response.0, drop (count * 8) rest),
            rw (enough, b.1, response.1, answer_numbers) refl,
            λ incoming l. (
              All-drop _ (count * 8) rest bs,
              omega (arith, l, length-drop {0} (count * 8) rest),
            ),
          )
    ]

answer_request_in :
    (n size : ℕ) (streams : ℕ → List OrderMessage) (p : FeedPublisher) (incoming : List ℕ)
    → Runs n size streams p
    → 0 < size
    → IsBytes incoming
    → (r : Option (List ℕ × List ℕ)) × (answer_request p incoming ≡ some r) × Progress incoming r
unfolding answer_request read_exact request_header
answer_request_in n size streams p incoming w pos bs = elim (Bool-cases (ltb (length incoming) 4)) [
  | inl short ↦ (none, rw (short, answer_request) refl, tt)
  | inr enough ↦
      let four = length-take {0} 4 incoming (ground arith) in
      let head = All-take _ 4 incoming bs in
      let bucket = get_u16_in (take 4 incoming) head (omega (arith, four)) in
      let count =
        get_u16_in (drop 2 (take 4 incoming)) (All-drop _ 2 (take 4 incoming) head)
          (omega (arith, four, length-drop {0} 2 (take 4 incoming))) in
      elim (Bool-cases
        (leb p.bucket_count bucket.0 || count.0 == 0 || ltb max_repair_batch count.0)) [
          | inl bad ↦ (none, rw (enough, bucket.1, count.1, bad, answer_request) refl, tt)
          | inr good ↦
              let round =
                answer_numbers_in n size streams p bucket.0 count.0 (drop 4 incoming) w pos
                  (ground (arith, w.count)) (All-drop _ 4 incoming bs) in
              (
                round.0,
                rw (enough, bucket.1, count.1, good, answer_request) round.1,
                round.2 incoming (ground (arith, length-drop {0} 4 incoming)),
              )
        ]
]

serve-closes :
    (n size : ℕ) (streams : ℕ → ℕ → List OrderMessage) (publisher : ℕ → FeedPublisher)
    (accepts : ℕ → Bool) (fuel at : ℕ) (incoming : List ℕ)
    → ((i : ℕ) → Runs n size (streams i) (publisher i))
    → 0 < size
    → IsBytes incoming
    → length incoming < fuel
    → (out : List ℕ) × (serve fuel publisher accepts at incoming ≡ closed out)
unfolding serve written
serve-closes n size streams publisher accepts zero at incoming w pos bs l = absurd (omega arith)
serve-closes n size streams publisher accepts (suc fuel) at incoming w pos bs l =
    let round = answer_request_in n size (streams at) (publisher at) incoming (w at) pos bs in
    elim (Option-cases round.0) [
      | inl leave ↦ ([], rw (round.1, leave, serve) refl)
      | inr (more, go) ↦
          let progress : Progress incoming (some more) = rw go at round.2 in
          let next =
            serve-closes n size streams publisher accepts fuel (suc at) more.1 w pos progress.0
              (omega (arith, progress.1, l)) in
          elim (Bool-cases (accepts at)) [
            | inl on ↦ (more.0 ++ next.0, rw (round.1, go, on, next.1, serve) refl)
            | inr off ↦ ([], rw (round.1, go, off, serve) refl)
          ]
    ]

-- Whatever bytes a client sends, and whatever state of a run the publisher is in at each request, a
-- session of the repair server ends with the connection closed, and reads nothing out of range.
pub serve_one_client-closes :
    (n size : ℕ) (streams : ℕ → ℕ → List OrderMessage) (publisher : ℕ → FeedPublisher)
    (client : Client)
    → ((i : ℕ) → Runs n size (streams i) (publisher i))
    → 0 < size
    → IsBytes client.incoming
    → (out : List ℕ) × (serve_one_client publisher client ≡ closed out)
unfolding serve_one_client
serve_one_client-closes n size streams publisher client w pos bs =
    serve-closes n size streams publisher client.accepts (suc (length client.incoming)) 0
      client.incoming w pos bs (omega arith)
