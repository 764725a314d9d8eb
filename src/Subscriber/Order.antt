-- ===== src/Subscriber/Order.antt =====
-- src/subscriber.h: what a run of a bucket hands on, and its counters.
use mega_feed_handler.Base.{
  ℕ, zero, suc, ◌+◌, ◌-◌, ◌≡◌, ◌⊎◌, ◌∙◌, inl, inr, refl, ap, List, [], ◌∷◌, ◌++◌, true, false,
  if◌then◌else◌, length, arith, length-append, Bool-cases,
}
use mathlib.Core.Path.{subst}
use mega_feed_handler.Wire.Message.{OrderMessage}
use mega_feed_handler.Subscriber.Bucket.{Bucket}
use mega_feed_handler.Subscriber.Invariant.{InOrder, begin, got, lost, InOrder-length}
use mega_feed_handler.Subscriber.Stream.{Reach, Reach-Live}

-- Where the bucket stands: the number that it waits for, or the end marker that it has passed.
abbrev pub position : Bucket → ℕ
position b = if b.done then b.next_sequence - 1 else b.next_sequence

-- A reachable bucket that has tuned in has handed on, in order and each once, the messages of the
-- numbers from its start up to its position, but for exactly as many as it counts as
-- unrecoverable; the start is the first expected number, where one was asked for, and a bucket
-- that is done stands at the end marker.
pub Reach-InOrder :
    (h : ℕ → OrderMessage) (first_expected : ℕ) (b : Bucket) (out : List OrderMessage)
    → Reach h first_expected b out
    → b.synced ≡ true
    → (start : ℕ) × ((first_expected ≡ 0) ⊎ (start ≡ first_expected))
      × InOrder h start (position b) b.stats.unrecoverable out
      × ((b.done ≡ false) ⊎ ((h (position b)).type ≡ b'E'))
Reach-InOrder h first_expected b out r s = elim (Reach-Live r) [
  | inl (i, e, z) ↦ absurd (ground (arith, i.untuned, s))
  | inr (start, first, v) ↦
      let here : v.log.reached ≡ position b = ground (arith, v.log.reached_is) in
      (
        start,
        ground (arith, first),
        subst (λ n. InOrder h start n b.stats.unrecoverable out) here v.log.order,
        elim (Bool-cases b.done) [
          | inr open_yet ↦ inl open_yet
          | inl over ↦ inr (subst (λ n. (h n).type ≡ b'E') here (v.log.ended over))
        ],
      )
]

-- The counters of a reachable bucket account for every number: delivered and unrecoverable ones,
-- from the start, lead to its position; and `delivered` is how many messages were handed on.
pub Reach-counted :
    (h : ℕ → OrderMessage) (first_expected : ℕ) (b : Bucket) (out : List OrderMessage)
    → Reach h first_expected b out
    → b.synced ≡ true
    → (start : ℕ) × ((first_expected ≡ 0) ⊎ (start ≡ first_expected))
      × (start + b.stats.delivered + b.stats.unrecoverable ≡ position b)
      × (b.stats.delivered ≡ length out)
Reach-counted h first_expected b out r s = elim (Reach-Live r) [
  | inl (i, e, z) ↦ absurd (ground (arith, i.untuned, s))
  | inr (start, first, v) ↦ (
    start,
    ground (arith, first),
    ground (arith, v.log.reached_is, InOrder-length v.log.order, v.log.counted),
    v.log.counted,
  )
]

-- The messages of `count` numbers from `start`.
unfoldable pub history : (ℕ → OrderMessage) → ℕ → ℕ → List OrderMessage
history h start zero = []
history h start (suc count) = h start ∷ history h (start + 1) count

history-snoc :
    (h : ℕ → OrderMessage) (start count : ℕ)
    → history h start count ++ h (start + count) ∷ [] ≡ history h start (suc count)
unfolding history
history-snoc h start zero = ap (λ k. h k ∷ []) {x = start + 0} {y = start} (omega arith)
history-snoc h start (suc count) =
    ap (λ l. h start ∷ l)
      (ap (λ n. history h (start + 1) count ++ h n ∷ []) {x = start + suc count}
          {y = start + 1 + count} (omega arith)
        ∙ history-snoc h (start + 1) count)

InOrder-complete :
    {h : ℕ → OrderMessage} {start n missed : ℕ} {out : List OrderMessage}
    → InOrder h start n missed out
    → missed ≡ 0
    → out ≡ history h start (length out)
unfolding history
InOrder-complete begin e = refl
InOrder-complete {h} {start} (got {n = n} {missed = missed} {out = out} i) e =
    let whole : out ≡ history h start (length out) = InOrder-complete i e in
    let at : n ≡ start + length out = omega (arith, InOrder-length i, e) in
    let size : suc (length out) ≡ length (out ++ h n ∷ []) =
      omega (arith, length-append {0} out (h n ∷ [])) in
    ap (λ l. l ++ h n ∷ []) whole
    ∙ (ap (λ k. history h start (length out) ++ h k ∷ []) at
        ∙ (history-snoc h start (length out) ∙ ap (history h start) size))
InOrder-complete (lost i) e = absurd (omega (arith, e))

-- A reachable bucket that counts nothing unrecoverable has handed on exactly the stream's
-- messages from some number on, which is the first expected one, where one was asked for, with
-- none missing, repeated or out of order.
pub Reach-complete :
    (h : ℕ → OrderMessage) (first_expected : ℕ) (b : Bucket) (out : List OrderMessage)
    → Reach h first_expected b out
    → b.stats.unrecoverable ≡ 0
    → (start : ℕ) × ((first_expected ≡ 0) ⊎ (start ≡ first_expected))
      × (out ≡ history h start (length out))
unfolding history
Reach-complete h first_expected b out r none_lost = elim (Reach-Live r) [
  | inl (i, e, z) ↦ (0, inl z, rw e refl)
  | inr (start, first, v) ↦ (start, ground (arith, first), InOrder-complete v.log.order none_lost)
]
