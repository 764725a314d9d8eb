-- ===== src/Net/Stream.antt =====
-- src/net.h: `read_exact` and `write_all`. What `recv`, `send` and `poll` answer is a list of
-- answers in the order of the calls.
use mega_feed_handler.Base.{ℕ, Bool, List, [], ◌∷◌, ◌++◌, ◌==◌, length, take, drop, if◌then◌else◌}
use mega_feed_handler.Base.Bits.{sub64}

-- `recv`: the end of the connection, a signal (EINTR), another error, or some bytes.
pub data Recv : Type 0 where
  peer_closed : Recv
  recv_interrupted : Recv
  recv_failed : Recv
  received : List ℕ → Recv

-- The call returns true with the bytes of the buffer, or false; or the next `recv` still waits.
pub data Read : Type 0 where
  read_all : List ℕ → List Recv → Read
  read_failed : Read
  read_waits : Read

-- The loop; `got` is what stands in the buffer in front of the cursor.
unfoldable pub read_loop : List Recv → ℕ → List ℕ → Read
read_loop [] remaining got = if remaining == 0 then read_all got [] else read_waits
read_loop (peer_closed ∷ answers) remaining got =
    if remaining == 0 then read_all got (peer_closed ∷ answers) else read_failed
read_loop (recv_interrupted ∷ answers) remaining got =
    let again = read_loop answers remaining got in
    if remaining == 0 then read_all got (recv_interrupted ∷ answers) else again
read_loop (recv_failed ∷ answers) remaining got =
    if remaining == 0 then read_all got (recv_failed ∷ answers) else read_failed
read_loop (received bytes ∷ answers) remaining got =
    let onward = read_loop answers (sub64 remaining (length bytes)) (got ++ bytes) in
    if remaining == 0 then read_all got (received bytes ∷ answers) else onward

unfoldable pub read_exact : List Recv → ℕ → Read
read_exact answers remaining = read_loop answers remaining []

-- `send`: how many bytes it took, a signal, a full buffer (EAGAIN) with whether the `poll` behind
-- it finds room in time, or another error.
pub data Send : Type 0 where
  took : ℕ → Send
  send_interrupted : Send
  buffer_full : Bool → Send
  send_failed : Send

-- What the peer gets, and whether the call returns true or false; or it still waits.
pub data Write : Type 0 where
  wrote_all : List ℕ → Write
  write_failed : List ℕ → Write
  write_waits : List ℕ → Write

-- The loop; `out` is what has been taken so far, and `rest` is the buffer from the cursor on.
unfoldable pub write_loop : List Send → List ℕ → List ℕ → Write
write_loop answers out [] = wrote_all out
write_loop [] out (b ∷ rest) = write_waits out
write_loop (took n ∷ answers) out (b ∷ rest) =
    write_loop answers (out ++ take n (b ∷ rest)) (drop n (b ∷ rest))
write_loop (send_interrupted ∷ answers) out (b ∷ rest) = write_loop answers out (b ∷ rest)
write_loop (buffer_full room ∷ answers) out (b ∷ rest) =
    let again = write_loop answers out (b ∷ rest) in if room then again else write_failed out
write_loop (send_failed ∷ answers) out (b ∷ rest) = write_failed out

unfoldable pub write_all : List Send → List ℕ → Write
write_all answers buffer = write_loop answers [] buffer
