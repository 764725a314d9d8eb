-- ===== src/Feed/DeepPlus/Reads.antt =====
-- src/deepplus.h: the reads of `decode`, and the room of its output.
use mega_feed_handler.Base.{
  ℕ, zero, suc, ◌+◌, ◌-◌, ◌≤◌, ◌≡◌, refl, List, [], ◌∷◌, ◌++◌, Option, some, Bool, ◌&&◌, ◌||◌, true,
  false, ◌==◌, ltb, leb, if◌then◌else◌, ◌>>=◌, drop, replicate, length, arith, Bool-cases,
  Option-cases, inl, inr, All-drop, length-drop, get_elem?_in,
}
use mega_feed_handler.Wire.Bytes.{IsBytes, get_u32, get_u64, get_u32_in, get_u64_in}
use mega_feed_handler.Wire.Message.{copy_bytes}
use mega_feed_handler.Base.HashMap.{nat_key, find}
use mega_feed_handler.Feed.DeepPlus.Defs.{
  trimmed_length, copy_symbol, Order, DeepPlusDecoder, Decoded, add_order, unknown, delete_order,
  modify_order, execute_order, with_order, decode_add, decode_modify, decode_execute, decode_trade,
  dispatch, decode, side_sell, order_add, side_buy,
}

-- The reads were in range, and there are two messages at most.
abbrev pub IsFine : Option Decoded → Type 0
IsFine r = (d : Decoded) × (r ≡ some d) × (length d.1 ≤ 2)

read_then :
    {A : Type 0} {o : Option A} {f : A → Option Decoded}
    → (v : A) × (o ≡ some v)
    → ((v : A) → IsFine (f v))
    → IsFine (o >>= f)
read_then (v, e) h = rw e (h v)

ite-IsFine :
    {a b : Option Decoded} (test : Bool)
    → (test ≡ true → IsFine a)
    → IsFine b
    → IsFine (if test then a else b)
ite-IsFine true h k = h refl
ite-IsFine false h k = k

trimmed_length_in :
    (n : ℕ) (bytes : List ℕ)
    → n ≤ length bytes
    → (k : ℕ) × (trimmed_length n bytes ≡ some k) × (k ≤ n)
unfolding trimmed_length
trimmed_length_in zero bytes l = (0, refl, omega arith)
trimmed_length_in (suc n) bytes l =
    let byte = get_elem?_in bytes n (omega arith) in
    let rest = trimmed_length_in n bytes (omega arith) in
    elim (Bool-cases (byte.0 == b' ' || byte.0 == 0)) [
      | inl blank ↦ (rest.0, rw (byte.1, blank, rest.1) refl, omega (arith, rest.2))
      | inr last ↦ (suc n, rw (byte.1, last) refl, omega arith)
    ]

copy_bytes_in :
    (n : ℕ) (bytes : List ℕ) → n ≤ length bytes → (out : List ℕ) × (copy_bytes n bytes ≡ some out)
unfolding copy_bytes
copy_bytes_in zero bytes l = ([], refl)
copy_bytes_in (suc n) [] l = absurd (omega arith)
copy_bytes_in (suc n) (b ∷ bytes) l =
    let rest = copy_bytes_in n bytes (omega arith) in (b ∷ rest.0, rw rest.1 refl)

copy_symbol_in :
    (bytes : List ℕ) → 8 ≤ length bytes → (out : List ℕ) × (copy_symbol bytes ≡ some out)
unfolding copy_symbol
copy_symbol_in bytes l =
    let n = trimmed_length_in 8 bytes l in
    let text = copy_bytes_in n.0 bytes (omega (arith, n.2)) in
    (text.0 ++ replicate (9 - n.0) 0, rw (n.1, text.1) refl)

module _ (bytes : List ℕ) (bs : IsBytes bytes) where
  u32_at : (i : ℕ) → i + 4 ≤ length bytes → (v : ℕ) × (get_u32 (drop i bytes) ≡ some v)
  u32_at i l =
      let r =
        get_u32_in (drop i bytes) (All-drop _ i bytes bs)
          (omega (arith, l, length-drop {0} i bytes)) in
      (r.0, r.1)

  u64_at : (i : ℕ) → i + 8 ≤ length bytes → (v : ℕ) × (get_u64 (drop i bytes) ≡ some v)
  u64_at i l =
      let r =
        get_u64_in (drop i bytes) (All-drop _ i bytes bs)
          (omega (arith, l, length-drop {0} i bytes)) in
      (r.0, r.1)

  symbol_at : (i : ℕ) → i + 8 ≤ length bytes → (s : List ℕ) × (copy_symbol (drop i bytes) ≡ some s)
  symbol_at i l = copy_symbol_in (drop i bytes) (omega (arith, l, length-drop {0} i bytes))

  with_order_in :
      (d : DeepPlusDecoder) (then_do : ℕ → Order → Option Decoded)
      → 26 ≤ length bytes
      → ((id : ℕ) (order : Order) → IsFine (then_do id order))
      → IsFine (with_order bytes d then_do)
  unfolding with_order unknown
  with_order_in d then_do l then_fine = read_then (u64_at 18 l) (λ id.
      elim (Option-cases (find id d.orders)) [
        | inl missing ↦ simp missing (unknown d, refl, omega arith)
        | inr (order, found) ↦ simp found (then_fine id order)
      ])

  decode_add_in :
      (side timestamp : ℕ) (d : DeepPlusDecoder)
      → 38 ≤ length bytes
      → IsFine (decode_add side bytes timestamp d)
  unfolding decode_add add_order
  decode_add_in side timestamp d l = read_then (symbol_at 10 (omega arith)) (λ symbol.
      read_then (u32_at 26 (omega arith)) (λ size.
        read_then (u64_at 30 (omega arith))
          (λ price. read_then (u64_at 18 (omega arith)) (λ id. (_, refl, omega arith)))))

  decode_modify_in :
      (timestamp : ℕ) (d : DeepPlusDecoder)
      → 38 ≤ length bytes
      → IsFine (decode_modify bytes timestamp d)
  unfolding decode_modify modify_order
  decode_modify_in timestamp d l = with_order_in d _ (omega arith) (λ id order.
      read_then (u32_at 26 (omega arith))
        (λ size. read_then (u64_at 30 (omega arith)) (λ price. (_, refl, ground arith))))

  decode_execute_in :
      (timestamp : ℕ) (d : DeepPlusDecoder)
      → 46 ≤ length bytes
      → IsFine (decode_execute bytes timestamp d)
  unfolding decode_execute execute_order
  decode_execute_in timestamp d l = with_order_in d _ (omega arith) (λ id order.
      read_then (u32_at 26 (omega arith))
        (λ size. read_then (u64_at 30 (omega arith)) (λ price. (_, refl, omega arith))))

  decode_trade_in :
      (timestamp : ℕ) (d : DeepPlusDecoder)
      → 38 ≤ length bytes
      → IsFine (decode_trade bytes timestamp d)
  unfolding decode_trade
  decode_trade_in timestamp d l = read_then (symbol_at 10 (omega arith)) (λ symbol.
      read_then (u32_at 18 (omega arith))
        (λ size. read_then (u64_at 22 (omega arith)) (λ price. (_, refl, omega arith))))

  dispatch_in :
      (kind side size timestamp : ℕ) (d : DeepPlusDecoder)
      → 26 ≤ size
      → size ≤ length bytes
      → IsFine (dispatch kind side bytes size timestamp d)
  unfolding dispatch delete_order
  dispatch_in kind side size timestamp d l m =
      ite-IsFine (kind == order_add && leb 38 size && (side == side_buy || side == side_sell))
        (λ e. decode_add_in side timestamp d (ground (arith, e)))
        (ite-IsFine (kind == 0x52 && leb 26 size)
          (λ e.
            with_order_in d _ (omega arith)
              (λ id order. (delete_order id order timestamp d, refl, omega arith)))
          (ite-IsFine (kind == 0x4d && leb 38 size)
            (λ e. decode_modify_in timestamp d (ground (arith, e)))
            (ite-IsFine (kind == 0x4c && leb 46 size)
              (λ e. decode_execute_in timestamp d (ground (arith, e)))
              (ite-IsFine (kind == 0x54 && leb 38 size)
                (λ e. decode_trade_in timestamp d (ground (arith, e)))
                ((d, []), refl, omega arith)))))

-- On any message within the packet, `decode` reads nothing out of range and stores two messages at
-- most, which is what its output has room for.
pub decode_in :
    (bytes : List ℕ) (size : ℕ) (d : DeepPlusDecoder)
    → IsBytes bytes
    → size ≤ length bytes
    → IsFine (decode bytes size d)
unfolding decode
decode_in bytes size d bs m = elim (Bool-cases (ltb size 26)) [
  | inl short ↦ simp short ((d, []), refl, omega arith)
  | inr enough ↦
      let long : 26 ≤ size = ground arith in
      simp enough (
        read_then (u64_at bytes bs 2 (omega arith)) (λ timestamp.
          read_then (get_elem?_in bytes 0 (omega arith)) (λ kind.
            read_then (get_elem?_in bytes 1 (omega arith))
              (λ side. dispatch_in bytes bs kind side size timestamp d long m))))
]
