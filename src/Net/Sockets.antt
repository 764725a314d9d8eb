-- ===== src/Net/Sockets.antt =====
-- src/net.h: the sockets of the publisher, the subscriber and the repair server. What the kernel
-- answers to each call is a parameter, and what is written to `stderr` is left out.
use mega_feed_handler.Base.{
  ◌∙◌, ap, sym, ◌<◌, ◌^◌, ◌≢◌, ℕ, ◌≡◌, refl, true, Bool, Option, none, some, List, [], ◌∷◌, ◌++◌,
  All, if◌then◌else◌, Bool-cases, inl, inr, arith,
}
use mega_feed_handler.Base.Bits.{u16}
use mega_feed_handler.Net.Groups.{Inet, IsInet, parse_ipv4, group_for, group_for-ne}

-- The calls on a descriptor: options of `setsockopt`, `bind` to any address, `listen`, and
-- `set_nonblocking`.
pub data Call : Type 0 where
  reuse_addr : Call
  reuse_port : Call
  receive_buffer : ℕ → Call
  bind_any : ℕ → Call
  listen : Call
  multicast_interface : ℕ → Call
  multicast_loop : ℕ → Call
  multicast_ttl : ℕ → Call
  add_membership : ℕ → ℕ → Call
  set_nonblocking : Call

-- The descriptor that `socket` gives, and whether it accepts a call.
pub record Kernel : Type 0 where
  pub socket : Option ℕ
  pub accepts : Call → Bool

-- The descriptor that is returned, or `none` where the program is left, and the calls that were
-- made on it.
abbrev pub Made : Type 0
Made = Option ℕ × List Call

-- Calls one after the other, each of which leaves the program when it fails.
unfoldable pub calls : Kernel → List Call → Made → Made
calls k [] onward = onward
calls k (c ∷ cs) onward =
    let rest = calls k cs onward in if k.accepts c then (rest.0, c ∷ rest.1) else (none, c ∷ [])

-- The program is left where something is missing.
unfoldable pub needing : Option ℕ → (ℕ → Made) → Made
needing none onward = (none, [])
needing (some x) onward = onward x

unfoldable pub udp_send_socket : Inet → Kernel → List ℕ → Made
udp_send_socket inet k mcast_if = needing k.socket (λ fd.
    needing (parse_ipv4 inet mcast_if) (λ interface_addr.
      calls k (multicast_interface interface_addr ∷ multicast_loop 1 ∷ multicast_ttl 1 ∷ [])
        (some fd, [])))

-- The end of `udp_recv_socket`, behind `bind`.
unfoldable pub join : Inet → Kernel → ℕ → List ℕ → List ℕ → Made
join inet k fd group mcast_if = needing (parse_ipv4 inet group) (λ multiaddr.
    needing (parse_ipv4 inet mcast_if) (λ interface_addr.
      calls k (add_membership multiaddr interface_addr ∷ set_nonblocking ∷ []) (some fd, [])))

unfoldable pub udp_recv_socket : Inet → Kernel → List ℕ → ℕ → List ℕ → ℕ → Made
udp_recv_socket inet k group port mcast_if rcvbuf_bytes = needing k.socket (λ fd.
    calls k (reuse_addr ∷ reuse_port ∷ receive_buffer rcvbuf_bytes ∷ bind_any (u16 port) ∷ [])
      (join inet k fd group mcast_if))

unfoldable pub tcp_listen : Kernel → ℕ → Made
tcp_listen k port =
    needing k.socket
      (λ fd. calls k (reuse_addr ∷ reuse_port ∷ bind_any (u16 port) ∷ listen ∷ []) (some fd, []))

needing_lem :
    (o : Option ℕ) (onward : ℕ → Made) (fd : ℕ)
    → (needing o onward).0 ≡ some fd
    → (x : ℕ) × (o ≡ some x) × ((onward x).0 ≡ some fd) × ((needing o onward).1 ≡ (onward x).1)
unfolding needing
needing_lem none onward fd h = cc
needing_lem (some x) onward fd h = (x, refl, h, refl)

-- Every call was accepted.
abbrev pub AllAccepted : Kernel → List Call → Type 0
AllAccepted k cs = All (λ c. k.accepts c ≡ true) cs

calls_lem :
    (k : Kernel) (cs : List Call) (onward : Made) (fd : ℕ)
    → (calls k cs onward).0 ≡ some fd
    → (onward.0 ≡ some fd) × ((calls k cs onward).1 ≡ cs ++ onward.1) × AllAccepted k cs
unfolding calls
calls_lem k [] onward fd h = (h, refl, tt)
calls_lem k (c ∷ cs) onward fd h = elim (Bool-cases (k.accepts c)) [
  | inl good ↦
      let (e, made, taken) = calls_lem k cs onward fd (rw good at h) in
      (e, rw (good, made) refl, (good, taken))
  | inr bad ↦ absurd (ground arith)
]

-- A socket that comes back from `tcp_listen` is the one given, behind these calls.
pub tcp_listen_lem :
    (k : Kernel) (port fd : ℕ)
    → (tcp_listen k port).0 ≡ some fd
    → (k.socket ≡ some fd)
      × ((tcp_listen k port).1 ≡ reuse_addr ∷ reuse_port ∷ bind_any (u16 port) ∷ listen ∷ [])
      × AllAccepted k (reuse_addr ∷ reuse_port ∷ bind_any (u16 port) ∷ listen ∷ [])
unfolding tcp_listen
tcp_listen_lem k port fd h =
    let (fd', given, onward, all) = needing_lem k.socket _ fd h in
    let (same, made, taken) = calls_lem k _ _ fd onward in (given ∙ same, all ∙ made, taken)

-- A socket that comes back from `udp_send_socket` sends through the interface of that address.
pub udp_send_socket_lem :
    (inet : Inet) (k : Kernel) (mcast_if : List ℕ) (fd : ℕ)
    → (udp_send_socket inet k mcast_if).0 ≡ some fd
    → (interface_addr : ℕ) × (k.socket ≡ some fd)
      × (parse_ipv4 inet mcast_if ≡ some interface_addr)
      × ((udp_send_socket inet k mcast_if).1
          ≡ multicast_interface interface_addr ∷ multicast_loop 1 ∷ multicast_ttl 1 ∷ [])
unfolding udp_send_socket
udp_send_socket_lem inet k mcast_if fd h =
    let (fd', given, onward, all) = needing_lem k.socket _ fd h in
    let (interface_addr, parsed, onward', all') =
      needing_lem (parse_ipv4 inet mcast_if) _ fd onward in
    let (same, made, taken) = calls_lem k _ _ fd onward' in
    (interface_addr, given ∙ same, parsed, all ∙ all' ∙ made)

-- A socket that comes back from `udp_recv_socket` is bound to the port, is a member of the group on
-- that interface, and does not block.
pub udp_recv_socket_lem :
    (inet : Inet) (k : Kernel) (group : List ℕ) (port : ℕ) (mcast_if : List ℕ) (rcvbuf_bytes fd : ℕ)
    → (udp_recv_socket inet k group port mcast_if rcvbuf_bytes).0 ≡ some fd
    → (multiaddr : ℕ) × (interface_addr : ℕ) × (k.socket ≡ some fd)
      × (parse_ipv4 inet group ≡ some multiaddr)
      × (parse_ipv4 inet mcast_if ≡ some interface_addr)
      × ((udp_recv_socket inet k group port mcast_if rcvbuf_bytes).1
          ≡ reuse_addr
            ∷ reuse_port
            ∷ receive_buffer rcvbuf_bytes
            ∷ bind_any (u16 port)
            ∷ add_membership multiaddr interface_addr
            ∷ set_nonblocking
            ∷ [])
unfolding udp_recv_socket join
udp_recv_socket_lem inet k group port mcast_if rcvbuf_bytes fd h =
    let (fd', given, onward, all) = needing_lem k.socket _ fd h in
    let (bound, made, _) = calls_lem k _ (join inet k fd' group mcast_if) fd onward in
    let (multiaddr, parsed, onward', all') = needing_lem (parse_ipv4 inet group) _ fd bound in
    let (interface_addr, parsed', onward'', all'') =
      needing_lem (parse_ipv4 inet mcast_if) _ fd onward' in
    let (same, made', _) = calls_lem k _ _ fd onward'' in
    (
      multiaddr,
      interface_addr,
      given ∙ same,
      parsed,
      parsed',
      all
          ∙ made
          ∙ ap
              (λ t. reuse_addr ∷ reuse_port ∷ receive_buffer rcvbuf_bytes ∷ bind_any (u16 port) ∷ t)
              (all' ∙ all'' ∙ made'),
    )

-- The groups that are joined.
abbrev pub joined : List Call → List ℕ
joined [] = []
joined (add_membership multiaddr interface_addr ∷ cs) = multiaddr ∷ joined cs
joined (c ∷ cs) = joined cs

-- For 32-bit bucket numbers that differ, with the groups that `group_for` gives for them, receiving
-- sockets that come back have joined different groups, whatever the kernel, the ports, the
-- interfaces and the buffers are, as long as a printed address is read as itself and `ntohl` takes
-- back `htonl`.
pub udp_recv_socket-joined :
    (inet : Inet)
    → IsInet inet
    → (base group group' : List ℕ) (i j : ℕ) → i < 2 ^ 32
    → j < 2 ^ 32
    → i ≢ j
    → group_for inet base i ≡ some group
    → group_for inet base j ≡ some group'
    → (k k' : Kernel) (port port' : ℕ) (mcast_if mcast_if' : List ℕ) (rcvbuf rcvbuf' fd fd' : ℕ)
    → (udp_recv_socket inet k group port mcast_if rcvbuf).0 ≡ some fd
    → (udp_recv_socket inet k' group' port' mcast_if' rcvbuf').0 ≡ some fd'
    → joined (udp_recv_socket inet k group port mcast_if rcvbuf).1
      ≢ joined (udp_recv_socket inet k' group' port' mcast_if' rcvbuf').1
udp_recv_socket-joined inet good base group group' i j hi hj differ ei ej k k' port port' mcast_if
      mcast_if' rcvbuf rcvbuf' fd fd' h h' same =
    let (a, _, _, parsed, _, made) = udp_recv_socket_lem inet k group port mcast_if rcvbuf fd h in
    let (b, _, _, parsed', _, made') =
      udp_recv_socket_lem inet k' group' port' mcast_if' rcvbuf' fd' h' in
    let equal : ◌≡◌ {A = List ℕ} (a ∷ []) (b ∷ []) =
      sym (ap joined made) ∙ same ∙ ap joined made' in
    let one : a ≡ b = cc in
    group_for-ne inet good base group group' i j hi hj differ ei ej
      (parsed ∙ ap some one ∙ sym parsed')
