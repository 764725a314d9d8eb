-- ===== src/Subscriber/Invariant.antt =====
-- src/subscriber.h: the invariant of a bucket between calls, for a stream whose message number `k` is
-- `h k`.
use mega_feed_handler.Base.{
  ℕ, suc, ◌+◌, ◌-◌, ◌^◌, ◌<◌, ◌≤◌, ◌≡◌, ◌⊎◌, List, [], ◌∷◌, ◌++◌, true, false, some, if◌then◌else◌,
  length, arith, length-append,
}
use mega_feed_handler.Base.OrdMap.{ascending, find, contains}
use mega_feed_handler.Base.Sorted.{Sorted}
use mega_feed_handler.Wire.Message.{OrderMessage}
use mega_feed_handler.Subscriber.Bucket.{Bucket}

-- Numbers stay below this, so that none wraps.
abbrev pub limit : ℕ
limit = 2 ^ 64 - 1

-- `out` is `h start`, `h (start + 1)`, ... below a number, in this order and each once, but for
-- those that are lost.
pub data InOrder (h : ℕ → OrderMessage) (start : ℕ) : ℕ → ℕ → List OrderMessage → Type 0 where
  begin : InOrder h start start 0 []
  got :
      {n missed : ℕ} {out : List OrderMessage}
      → InOrder h start n missed out
      → InOrder h start (suc n) missed (out ++ h n ∷ [])
  lost :
      {n missed : ℕ} {out : List OrderMessage}
      → InOrder h start n missed out
      → InOrder h start (suc n) (suc missed) out

-- What stands in the three areas, the holes in the order of their numbers. `high` is above every number that a datagram has shown.
pub record Areas (h : ℕ → OrderMessage) (high : ℕ) (b : Bucket) : Type 0 where
  pub next_small : b.next_sequence ≤ limit
  pub high_small : high ≤ limit
  pub holes_sorted : Sorted b.holes
  pub authentic : (k : ℕ) (m : OrderMessage) → find k b.parked ≡ some m → m ≡ h k
  pub parked_ahead : (k : ℕ) → contains k b.parked ≡ true → (b.next_sequence ≤ k) × (k < limit)
  pub gone_small : (k : ℕ) → contains k b.gone ≡ true → k < limit
  pub holes_open :
      (k : ℕ)
      → contains k b.holes ≡ true
      → (b.next_sequence ≤ k)
        × (k < high)
        × (contains k b.parked ≡ false)
        × (contains k b.gone ≡ false)
  pub covered :
      (k : ℕ)
      → b.next_sequence ≤ k
      → k < high
      → (contains k b.parked ≡ true) ⊎ (contains k b.holes ≡ true) ⊎ (contains k b.gone ≡ true)

-- What has been handed on. A bucket that is done has passed the end marker.
pub record Log (h : ℕ → OrderMessage) (start : ℕ) (b : Bucket) (out : List OrderMessage)
    : Type 0 where
  pub reached : ℕ
  pub reached_is : b.next_sequence ≡ (if b.done then reached + 1 else reached)
  pub order : InOrder h start reached b.stats.unrecoverable out
  pub counted : b.stats.delivered ≡ length out
  pub ended : b.done ≡ true → (h reached).type ≡ b'E'

-- The numbers passed are those handed on and those lost.
pub InOrder-length :
    {h : ℕ → OrderMessage} {start n missed : ℕ} {out : List OrderMessage}
    → InOrder h start n missed out
    → length out + missed + start ≡ n
InOrder-length begin = omega arith
InOrder-length {h} (got {n = n} {out = out} i) =
    omega (arith, InOrder-length i, length-append {0} out (h n ∷ []))
InOrder-length (lost i) = omega (arith, InOrder-length i)

-- The areas speak of no other field.
pub Areas-of_fields :
    {h : ℕ → OrderMessage} {high : ℕ} (b c : Bucket)
    → c.next_sequence ≡ b.next_sequence
    → c.parked ≡ b.parked
    → c.gone ≡ b.gone
    → c.holes ≡ b.holes
    → Areas h high b
    → Areas h high c
Areas-of_fields b c n p g o a = record {
  next_small = rw n a.next_small;
  high_small = a.high_small;
  holes_sorted = rw o a.holes_sorted;
  authentic = rw p a.authentic;
  parked_ahead = rw (n, p) a.parked_ahead;
  gone_small = rw g a.gone_small;
  holes_open = rw (n, p, g, o) a.holes_open;
  covered = rw (n, p, g, o) a.covered;
}

pub Log-of_fields :
    {h : ℕ → OrderMessage} {start : ℕ} {out : List OrderMessage} (b c : Bucket)
    → c.next_sequence ≡ b.next_sequence
    → c.done ≡ b.done
    → c.stats.unrecoverable ≡ b.stats.unrecoverable
    → c.stats.delivered ≡ b.stats.delivered
    → Log h start b out
    → Log h start c out
Log-of_fields b c n d u l g = record {
  reached = g.reached;
  reached_is = rw (n, d) g.reached_is;
  order = rw u g.order;
  counted = rw l g.counted;
  ended = rw d g.ended;
}

-- A synced bucket between calls, whose stream starts at `start`: how far the datagrams have shown
-- it, and what it has handed on.
pub record Live (low : ℕ) (h : ℕ → OrderMessage) (start : ℕ) (b : Bucket) (out : List OrderMessage)
    : Type 0 where
  pub high : ℕ
  pub high_low : low ≤ high
  pub areas : Areas h high b
  pub log : Log h start b out
  pub tuned : b.synced ≡ true
