-- ===== src/Net/Reads.antt =====
-- src/net.h: `read_exact` over any sequence of answers of a connection.
use mathlib.Core.List.{append_assoc, append-nil}
use mega_feed_handler.Base.{
  ℕ, zero, suc, ◌+◌, ◌-◌, ◌^◌, ◌<◌, ◌≤◌, ◌≡◌, refl, ap, sym, ◌∙◌, Bool, true, false, Option, none,
  some, List, [], ◌∷◌, ◌++◌, arith, ltb, ◌==◌, le→ltb, length, take, drop, length-append,
  if◌then◌else◌, take-append, take_add, drop-append,
}
use mega_feed_handler.Base.Bits.{sub64}
use mega_feed_handler.Net.Stream.{
  Recv, peer_closed, recv_interrupted, recv_failed, received, Read, read_all, read_failed,
  read_waits, read_loop, read_exact,
}
use mega_feed_handler.Publisher.Serve

-- What `recv` may answer a reader that wants `n` bytes, on a connection that carries `incoming`
-- and then closes: signals at any time, and pieces of any length that is not over what was asked.
pub data Answers : ℕ → List ℕ → List Recv → Type 0 where
  enough : {incoming : List ℕ} {answers : List Recv} → Answers 0 incoming answers
  signal :
      {n : ℕ} {incoming : List ℕ} {answers : List Recv}
      → Answers n incoming answers
      → Answers n incoming (recv_interrupted ∷ answers)
  piece :
      {n b : ℕ} {bytes incoming : List ℕ} {answers : List Recv}
      → length (b ∷ bytes) ≤ n
      → Answers (n - length (b ∷ bytes)) incoming answers
      → Answers n ((b ∷ bytes) ++ incoming) (received (b ∷ bytes) ∷ answers)
  closes : {n : ℕ} {answers : List Recv} → Answers n [] (peer_closed ∷ answers)

-- What the caller gets, the bytes asked for or a false; the outer `none` is a call that waits.
abbrev pub outcome : Read → Option (Option (List ℕ))
outcome (read_all got answers) = some (some got)
outcome read_failed = some none
outcome read_waits = none

-- The same of the repair server's `read_exact`, which is about all the bytes of the connection.
abbrev pub buffer : Option (List ℕ × List ℕ) → Option (List ℕ)
buffer none = none
buffer (some (bytes, rest)) = some bytes

-- The bytes asked for behind those that are there.
abbrev expected : ℕ → List ℕ → List ℕ → Option (Option (List ℕ))
expected n incoming got =
    some (if ltb (length incoming) n then none else some (got ++ take n incoming))

read_loop-zero :
    (answers : List Recv) (got : List ℕ) → read_loop answers 0 got ≡ read_all got answers
unfolding read_loop
read_loop-zero [] got = refl
read_loop-zero (peer_closed ∷ answers) got = refl
read_loop-zero (recv_interrupted ∷ answers) got = refl
read_loop-zero (recv_failed ∷ answers) got = refl
read_loop-zero (received bytes ∷ answers) got = refl

expected-zero : (incoming got : List ℕ) → some (some got) ≡ expected 0 incoming got
expected-zero incoming got =
    rw (le→ltb (length incoming) 0 (omega arith)) (ap (λ xs. some (some xs)) (sym (append-nil got)))

-- A piece in front is in the buffer, and the rest is asked for.
expected-piece :
    (n : ℕ) (bytes incoming got : List ℕ)
    → length bytes ≤ n
    → expected (n - length bytes) incoming (got ++ bytes) ≡ expected n (bytes ++ incoming) got
expected-piece n bytes incoming got h =
    let m : ℕ = n - length bytes in
    let whole : n ≡ length bytes + m = omega (arith, h) in
    let same : ltb (length incoming) m ≡ ltb (length (bytes ++ incoming)) n =
      ground (arith, h, length-append {0} bytes incoming) in
    let taken : take n (bytes ++ incoming) ≡ bytes ++ take m incoming =
      ap (λ k. take k (bytes ++ incoming)) whole
      ∙ (take_add (length bytes) m (bytes ++ incoming)
          ∙ rw (take-append bytes incoming, drop-append bytes incoming) refl) in
    rw (same, taken, append_assoc got bytes (take m incoming)) refl

read_loop_lem :
    {n : ℕ} {incoming : List ℕ} {answers : List Recv}
    → Answers n incoming answers
    → n < 2 ^ 64
    → (got : List ℕ) → outcome (read_loop answers n got) ≡ expected n incoming got
unfolding read_loop
read_loop_lem {answers} (enough {incoming}) h got =
    rw (read_loop-zero answers got) (expected-zero incoming got)
read_loop_lem {n = zero} {incoming} (signal a) h got = expected-zero incoming got
read_loop_lem {n = suc n} (signal a) h got =
    let again = read_loop_lem a h got in
    let more : (suc n == 0) ≡ false = ground arith in rw more again
read_loop_lem (piece {n} {b} {bytes} {incoming} l a) h got =
    let bytes' = b ∷ bytes in
    let more : (n == 0) ≡ false = ground (arith, l) in
    let left : sub64 n (length bytes') ≡ n - length bytes' = omega (arith, l, h) in
    rw (more, left)
      (read_loop_lem a (omega (arith, h)) (got ++ bytes') ∙ expected-piece n bytes' incoming got l)
read_loop_lem {n = zero} closes h got = expected-zero [] got
read_loop_lem {n = suc n} closes h got =
    let more : (suc n == 0) ≡ false = ground arith in
    let short : ltb 0 (suc n) ≡ true = ground arith in rw (more, short) refl

-- `read_exact` on a connection, however it splits the bytes and whichever signals interrupt it: the
-- bytes asked for once they are there, and false when the connection closes before.
pub read_exact_lem :
    (n : ℕ) (incoming : List ℕ) (answers : List Recv)
    → Answers n incoming answers
    → n < 2 ^ 64
    → outcome (read_exact answers n) ≡ some (buffer (Serve.read_exact n incoming))
unfolding read_exact Serve.read_exact
read_exact_lem n incoming answers a h =
    read_loop_lem a h [] ∙ ap some (split (ltb (length incoming) n))
  where
    split :
        (short : Bool)
        → (if short then none else some (take n incoming))
          ≡ buffer (if short then none else some (take n incoming, drop n incoming))
    split true = refl
    split false = refl
