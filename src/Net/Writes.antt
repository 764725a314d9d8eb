-- ===== src/Net/Writes.antt =====
-- src/net.h: `write_all` over any sequence of answers of `send` and `poll`.
use mathlib.Core.List.{append_assoc, append-nil}
use mega_feed_handler.Base.{
  ℕ, suc, ◌<◌, ◌≤◌, ◌≡◌, refl, ap, sym, ◌∙◌, true, false, List, [], ◌∷◌, ◌++◌, arith, length, All,
  take, drop, length-drop, split_take,
}
use mega_feed_handler.Net.Stream.{
  Send, took, send_interrupted, buffer_full, send_failed, Write, wrote_all, write_failed,
  write_waits, write_loop, write_all,
}

-- All of the buffer is out, or a part from its front on with something left.
abbrev pub IsWrite : List ℕ → Write → Type 0
IsWrite buffer (wrote_all out) = out ≡ buffer
IsWrite buffer (write_failed out) = (b : ℕ) × (rest : List ℕ) × (buffer ≡ out ++ (b ∷ rest))
IsWrite buffer (write_waits out) = (b : ℕ) × (rest : List ℕ) × (buffer ≡ out ++ (b ∷ rest))

write_loop-IsWrite :
    (answers : List Send) (out rest : List ℕ) → IsWrite (out ++ rest) (write_loop answers out rest)
unfolding write_loop
write_loop-IsWrite answers out [] = sym (append-nil out)
write_loop-IsWrite [] out (b ∷ rest) = (b, rest, refl)
write_loop-IsWrite (took n ∷ answers) out (b ∷ rest) =
    let onward = write_loop-IsWrite answers (out ++ take n (b ∷ rest)) (drop n (b ∷ rest)) in
    let same : (out ++ take n (b ∷ rest)) ++ drop n (b ∷ rest) ≡ out ++ (b ∷ rest) =
      append_assoc out (take n (b ∷ rest)) (drop n (b ∷ rest))
      ∙ ap (◌++◌ out) (split_take n (b ∷ rest)) in
    rw same at onward
write_loop-IsWrite (send_interrupted ∷ answers) out (b ∷ rest) =
    write_loop-IsWrite answers out (b ∷ rest)
write_loop-IsWrite (buffer_full true ∷ answers) out (b ∷ rest) =
    write_loop-IsWrite answers out (b ∷ rest)
write_loop-IsWrite (buffer_full false ∷ answers) out (b ∷ rest) = (b, rest, refl)
write_loop-IsWrite (send_failed ∷ answers) out (b ∷ rest) = (b, rest, refl)

-- Whatever the answers are: the bytes go out in order and none twice, and true means all of them.
pub write_all-IsWrite :
    (answers : List Send) (buffer : List ℕ) → IsWrite buffer (write_all answers buffer)
unfolding write_all
write_all-IsWrite answers buffer = write_loop-IsWrite answers [] buffer

-- An answer that is no failure; a `send` takes something.
abbrev pub IsGoing : Send → Type 0
IsGoing (took n) = 0 < n
IsGoing send_interrupted = Unit {0}
IsGoing (buffer_full room) = room ≡ true
IsGoing send_failed = ⊥

abbrev pub takes : List Send → ℕ
takes [] = 0
takes (took n ∷ answers) = suc (takes answers)
takes (_ ∷ answers) = takes answers

write_loop_lem :
    (answers : List Send) (out rest : List ℕ)
    → All IsGoing answers
    → length rest ≤ takes answers
    → write_loop answers out rest ≡ wrote_all (out ++ rest)
unfolding write_loop
write_loop_lem answers out [] going h = ap wrote_all (sym (append-nil out))
write_loop_lem [] out (b ∷ rest) going h = absurd (omega arith)
write_loop_lem (took n ∷ answers) out (b ∷ rest) (some_taken, going) h =
    let left = drop n (b ∷ rest) in
    let fewer : length left ≤ takes answers =
      omega (arith, h, some_taken, length-drop {0} n (b ∷ rest)) in
    write_loop_lem answers (out ++ take n (b ∷ rest)) left going fewer
    ∙ ap wrote_all
        (append_assoc out (take n (b ∷ rest)) left ∙ ap (◌++◌ out) (split_take n (b ∷ rest)))
write_loop_lem (send_interrupted ∷ answers) out (b ∷ rest) (_, going) h =
    write_loop_lem answers out (b ∷ rest) going h
write_loop_lem (buffer_full true ∷ answers) out (b ∷ rest) (_, going) h =
    write_loop_lem answers out (b ∷ rest) going h
write_loop_lem (buffer_full false ∷ answers) out (b ∷ rest) (room, going) h = absurd (cc)
write_loop_lem (send_failed ∷ answers) out (b ∷ rest) (failed, going) h = absurd failed

-- Signals and full buffers only delay: without a failure, as many sends as there are bytes get all
-- of them out.
pub write_all_lem :
    (answers : List Send) (buffer : List ℕ)
    → All IsGoing answers
    → length buffer ≤ takes answers
    → write_all answers buffer ≡ wrote_all buffer
unfolding write_all
write_all_lem answers buffer going h = write_loop_lem answers [] buffer going h
