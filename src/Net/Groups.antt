-- ===== src/Net/Groups.antt =====
-- src/net.h: the group of each bucket, and the connection to the repair server. The functions of
-- the system are parameters.
use mega_feed_handler.Base.{
  ℕ, ◌+◌, ◌^◌, ◌<◌, ◌≡◌, ◌≢◌, refl, Bool, Option, none, some, List, [], ◌∷◌, ◌++◌, arith, ◌>>=◌,
  >>=-eq-some, is_some, if◌then◌else◌, not, inl, inr, Option-cases,
}
use mega_feed_handler.Base.Bits.{u32}

-- `inet_pton` and `inet_ntop` of an address as it stands in `s_addr`, and the order of its bytes.
pub record Inet : Type 0 where
  pub pton : List ℕ → Option ℕ
  pub ntop : ℕ → List ℕ
  pub htonl : ℕ → ℕ
  pub ntohl : ℕ → ℕ

unfoldable pub parse_ipv4 : Inet → List ℕ → Option ℕ
parse_ipv4 inet text = inet.pton text

-- `none` is leaving the program.
unfoldable pub group_for : Inet → List ℕ → ℕ → Option (List ℕ)
group_for inet base id = do
  address ← parse_ipv4 inet base
  some (inet.ntop (inet.htonl (u32 (inet.ntohl address + u32 id))))

-- What the manual pages say of these functions: an address that is printed is read as itself, and
-- `ntohl` takes back what `htonl` does.
pub record IsInet (inet : Inet) : Type 0 where
  pub pton-ntop : (a : ℕ) → a < 2 ^ 32 → inet.pton (inet.ntop (inet.htonl a)) ≡ some (inet.htonl a)
  pub ntohl-htonl : (a : ℕ) → a < 2 ^ 32 → inet.ntohl (inet.htonl a) ≡ a

-- A printed group is read as the address that many behind the base.
group_for-parse_ipv4 :
    (inet : Inet)
    → IsInet inet
    → (base group : List ℕ) (i : ℕ) → group_for inet base i ≡ some group
    → (address : ℕ) × (parse_ipv4 inet base ≡ some address)
      × (parse_ipv4 inet group ≡ some (inet.htonl (u32 (inet.ntohl address + u32 i))))
unfolding group_for parse_ipv4
group_for-parse_ipv4 inet good base group i e =
    let (address, parsed, printed) = >>=-eq-some (inet.pton base) _ e in
    let read = good.pton-ntop (u32 (inet.ntohl address + u32 i)) (omega arith) in
    (address, parsed, cc)

-- Different buckets have groups of different addresses.
pub group_for-ne :
    (inet : Inet)
    → IsInet inet
    → (base group group' : List ℕ) (i j : ℕ) → i < 2 ^ 32
    → j < 2 ^ 32
    → i ≢ j
    → group_for inet base i ≡ some group
    → group_for inet base j ≡ some group'
    → parse_ipv4 inet group ≢ parse_ipv4 inet group'
group_for-ne inet good base group group' i j hi hj differ ei ej same =
    let (address, parsed, read) = group_for-parse_ipv4 inet good base group i ei in
    let (address', parsed', read') = group_for-parse_ipv4 inet good base group' j ej in
    let based : address ≡ address' = cc in
    let back = good.ntohl-htonl (u32 (inet.ntohl address + u32 i)) (omega arith) in
    let back' = good.ntohl-htonl (u32 (inet.ntohl address' + u32 j)) (omega arith) in
    let equal : u32 (inet.ntohl address + u32 i) ≡ u32 (inet.ntohl address + u32 j) = cc in
    differ (omega (arith, equal, hi, hj))

-- What `tcp_connect` meets: the descriptor that `socket` gives, and whether `connect` succeeds.
pub record Connecting : Type 0 where
  pub socket : Option ℕ
  pub connects : Bool

-- The descriptor that is returned, if any, and those that are closed.
unfoldable pub tcp_connect : Inet → Connecting → List ℕ → Option ℕ × List ℕ
tcp_connect inet c host = elim c.socket [
  | none ↦ (none, [])
  | some fd ↦
      if not (is_some (parse_ipv4 inet host))
      then (none, fd ∷ [])
      else (if not c.connects then (none, fd ∷ []) else (some fd, []))
]

abbrev pub listed : Option ℕ → List ℕ
listed none = []
listed (some fd) = fd ∷ []

-- No descriptor is lost: what `socket` gave is returned or closed, and not both.
pub tcp_connect_lem :
    (inet : Inet) (c : Connecting) (host : List ℕ)
    → listed (tcp_connect inet c host).0 ++ (tcp_connect inet c host).1 ≡ listed c.socket
unfolding tcp_connect
tcp_connect_lem inet c host = elim (Option-cases c.socket) [
  | inl missing ↦ rw (missing, tcp_connect) refl
  | inr (fd, given) ↦ rw (given, tcp_connect) (ground arith)
]
