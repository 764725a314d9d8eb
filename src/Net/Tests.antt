-- ===== src/Net/Tests.antt =====
-- The loops over a socket on short sequences of answers.
use mega_feed_handler.Base.{
  ℕ, All, ◌≡◌, ◌≢◌, refl, true, false, some, none, Option, List, [], ◌∷◌, arith,
}
use mega_feed_handler.Publisher.Serve
use mega_feed_handler.Net.Stream.{
  recv_interrupted, received, read_exact, took, send_interrupted, buffer_full, wrote_all,
  write_failed, write_loop, write_all,
}
use mega_feed_handler.Net.Reads.{enough, signal, piece, outcome, buffer, read_exact_lem}
use mega_feed_handler.Net.Writes.{IsWrite, write_all-IsWrite, write_all_lem}
use mega_feed_handler.Net.Groups.{Inet, IsInet, parse_ipv4, group_for}
use mega_feed_handler.Net.Sockets.{
  Kernel, Made, needing, calls, join, udp_recv_socket, joined, udp_recv_socket-joined,
}
use mega_feed_handler.Net.Clock.{Moment, IsNap, sleep_spin_until, sleep_spin_until-IsNap}

-- Three bytes are wanted; two come, a signal, and one more.
read_exact_lem_example :
    outcome (read_exact (received (1 ∷ 2 ∷ []) ∷ recv_interrupted ∷ received (3 ∷ []) ∷ []) 3)
    ≡ some (buffer (Serve.read_exact 3 (1 ∷ 2 ∷ 3 ∷ 4 ∷ [])))
read_exact_lem_example =
    read_exact_lem 3 (1 ∷ 2 ∷ 3 ∷ 4 ∷ [])
      (received (1 ∷ 2 ∷ []) ∷ recv_interrupted ∷ received (3 ∷ []) ∷ [])
      (piece {incoming = 3 ∷ 4 ∷ []} (omega arith)
        (signal (piece {incoming = 4 ∷ []} (omega arith) enough)))
      (omega arith)

-- A full buffer that stays full is given up.
write_all-IsWrite_example :
    IsWrite (1 ∷ 2 ∷ 3 ∷ []) (write_all (took 2 ∷ buffer_full false ∷ []) (1 ∷ 2 ∷ 3 ∷ []))
write_all-IsWrite_example = write_all-IsWrite (took 2 ∷ buffer_full false ∷ []) (1 ∷ 2 ∷ 3 ∷ [])

write_gives_up :
    write_all (took 2 ∷ buffer_full false ∷ []) (1 ∷ 2 ∷ 3 ∷ []) ≡ write_failed (1 ∷ 2 ∷ [])
unfolding write_all write_loop
write_gives_up = refl

write_all_lem_example :
    write_all (took 1 ∷ send_interrupted ∷ buffer_full true ∷ took 1 ∷ []) (1 ∷ 2 ∷ [])
    ≡ wrote_all (1 ∷ 2 ∷ [])
write_all_lem_example =
    write_all_lem (took 1 ∷ send_interrupted ∷ buffer_full true ∷ took 1 ∷ []) (1 ∷ 2 ∷ [])
      (omega arith, (tt, (refl, (omega arith, tt)))) (omega arith)

-- An address that is written as its number.
read_number : List ℕ → Option ℕ
read_number (a ∷ []) = some a
read_number _ = none

abbrev inet : Inet
inet = record { pton = read_number; ntop = λ a. a ∷ []; htonl = λ a. a; ntohl = λ a. a }

inet-IsInet : IsInet inet
unfolding read_number
inet-IsInet = record { pton-ntop = λ a h. refl; ntohl-htonl = λ a h. refl }

group_3 : group_for inet (100 ∷ []) 3 ≡ some (103 ∷ [])
unfolding group_for parse_ipv4 read_number
group_3 = refl

group_4 : group_for inet (100 ∷ []) 4 ≡ some (104 ∷ [])
unfolding group_for parse_ipv4 read_number
group_4 = refl

abbrev willing : Kernel
willing = record { socket = some 5; accepts = λ c. true }

-- The sockets of the buckets 3 and 4, on the interface 9.
abbrev third : Made
third = udp_recv_socket inet willing (103 ∷ []) 30001 (9 ∷ []) 4096

abbrev fourth : Made
fourth = udp_recv_socket inet willing (104 ∷ []) 30001 (9 ∷ []) 4096

third_opens : third.0 ≡ some 5
unfolding udp_recv_socket needing calls join parse_ipv4 read_number
third_opens = refl

fourth_opens : fourth.0 ≡ some 5
unfolding udp_recv_socket needing calls join parse_ipv4 read_number
fourth_opens = refl

udp_recv_socket-joined_example : joined third.1 ≢ joined fourth.1
udp_recv_socket-joined_example =
    udp_recv_socket-joined inet inet-IsInet (100 ∷ []) (103 ∷ []) (104 ∷ []) 3 4 (omega arith)
      (omega arith) (omega arith) group_3 group_4 willing willing 30001 30001 (9 ∷ []) (9 ∷ []) 4096
      4096 5 5 third_opens fourth_opens

-- A millisecond to go: one nap, and then the clock is past the target.
abbrev moments : List Moment
moments = record { stopped = false; now = 5 } ∷ record { stopped = false; now = 1_000_005 } ∷ []

sleep_spin_until-IsNap_example : All (IsNap 150_000 1_000_005) (sleep_spin_until 1_000_005 moments)
sleep_spin_until-IsNap_example = sleep_spin_until-IsNap 1_000_005 moments
