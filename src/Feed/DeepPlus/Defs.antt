-- ===== src/Feed/DeepPlus/Defs.antt =====
-- src/deepplus.h: the decoder, one function for a kind of message.
use mega_feed_handler.Base.{
  ℕ, zero, suc, ◌+◌, ◌-◌, List, [], ◌∷◌, ◌++◌, Option, none, some, Bool, ◌&&◌, ◌||◌, true, false,
  ◌==◌, ltb, leb, if◌then◌else◌, ◌>>=◌, get_elem?, drop, replicate,
}
use mega_feed_handler.Base.Bits.{u32, u64}
use mega_feed_handler.Base.Int.{ℤ, pos, pos_part, sub_ℕ, ◌+ℤ◌, ltb_ℤ, eqb_ℤ, to_i64}
use mega_feed_handler.Base.HashMap.{
  HashMap, nat_key, int_key, text_key, find, insert, erase, find_or,
}
use mega_feed_handler.Wire.Bytes.{get_u32, get_u64}
use mega_feed_handler.Wire.Message.{OrderMessage, copy_bytes}
use mega_feed_handler.Wire.Hash.{c_string}

-- The bytes that are left when spaces and zeros at the end are cut off.
unfoldable pub trimmed_length : ℕ → List ℕ → Option ℕ
trimmed_length zero bytes = some 0
trimmed_length (suc n) bytes = get_elem? bytes n >>= λ byte.
    if byte == b' ' || byte == 0 then trimmed_length n bytes else some (suc n)

-- Into a destination that was zeroed before, as in every call.
unfoldable pub copy_symbol : List ℕ → Option (List ℕ)
copy_symbol bytes = do
  n ← trimmed_length 8 bytes
  text ← copy_bytes n bytes
  some (text ++ replicate (9 - n) 0)

pub record Level : Type 0 where
  pub bids : HashMap ℤ ℤ
  pub asks : HashMap ℤ ℤ

abbrev pub empty_level : Level
empty_level = record { bids = []; asks = [] }

-- `side` is whether the order sells.
pub record Order : Type 0 where
  pub symbol : List ℕ
  pub price : ℤ
  pub size : ℕ
  pub side : Bool

pub record DeepPlusDecoder : Type 0 where
  pub orders : HashMap ℕ Order
  pub unknown_references : ℕ
  pub levels : HashMap (List ℕ) Level

abbrev pub empty_decoder : DeepPlusDecoder
empty_decoder = record { orders = []; unknown_references = 0; levels = [] }

unfoldable pub side_of : Bool → Level → HashMap ℤ ℤ
side_of true l = l.asks
side_of false l = l.bids

unfoldable pub with_side : Bool → HashMap ℤ ℤ → Level → Level
with_side true m l = record l { asks = m }
with_side false m l = record l { bids = m }

-- The size of a level after a change, which is not kept when it is not positive. The
-- 64 bits of the code are taken not to overflow.
unfoldable pub add_to_side : ℤ → ℤ → HashMap ℤ ℤ → HashMap ℤ ℤ × ℤ
add_to_side price delta sizes =
    let new_total = find_or price (pos 0) sizes +ℤ delta in
    if ltb_ℤ (pos 0) new_total
    then (insert price new_total sizes, new_total)
    else (erase price sizes, pos 0)

-- `addLevel`: the decoder, and the update that is stored.
unfoldable pub add_level : Order → ℤ → ℕ → DeepPlusDecoder → DeepPlusDecoder × OrderMessage
add_level order delta timestamp d =
    let name = c_string order.symbol in
    let level = find_or name empty_level d.levels in
    let (sizes, new_total) = add_to_side order.price delta (side_of order.side level) in
    (
      record d { levels = insert name (with_side order.side sizes level) d.levels },
      record {
        type = if order.side then b'S' else b'B';
        symbol = order.symbol;
        price = order.price;
        size = u32 (pos_part new_total);
        timestamp = timestamp;
      },
    )

abbrev pub order_add : ℕ
order_add = 0x61

abbrev pub side_buy : ℕ
side_buy = 0x38

abbrev pub side_sell : ℕ
side_sell = 0x35

-- A decoder and what it stored.
abbrev pub Decoded : Type 0
Decoded = DeepPlusDecoder × List OrderMessage

unfoldable pub add_order : ℕ → Order → ℕ → DeepPlusDecoder → Decoded
add_order id order timestamp d =
    let (d', update) =
      add_level order (pos order.size) timestamp (record d { orders = insert id order d.orders }) in
    (d', update ∷ [])

unfoldable pub unknown : DeepPlusDecoder → Decoded
unknown d = (record d { unknown_references = u64 (d.unknown_references + 1) }, [])

-- 'R': an order that is known is taken away.
unfoldable pub delete_order : ℕ → Order → ℕ → DeepPlusDecoder → Decoded
delete_order id order timestamp d =
    let (d', update) = add_level order (sub_ℕ 0 order.size) timestamp d in
    (record d' { orders = erase id d'.orders }, update ∷ [])

-- 'M': one level changes if the price stays, and two if it moves.
unfoldable pub modify_order : ℕ → Order → ℕ → ℤ → ℕ → DeepPlusDecoder → Decoded
modify_order id order new_size new_price timestamp d =
    let (stay, update) = add_level order (sub_ℕ new_size order.size) timestamp d in
    let (left, leaves) = add_level order (sub_ℕ 0 order.size) timestamp d in
    let moved = record order { price = new_price } in
    let (joined, joins) = add_level moved (pos new_size) timestamp left in
    if eqb_ℤ new_price order.price
    then (
      record stay { orders = insert id (record order { size = new_size }) stay.orders },
      update ∷ [],
    )
    else (
      record joined { orders = insert id (record moved { size = new_size }) joined.orders },
      leaves ∷ joins ∷ [],
    )

-- 'L': shares of an order are filled.
unfoldable pub execute_order : ℕ → Order → ℕ → ℤ → ℕ → DeepPlusDecoder → Decoded
execute_order id order executed price timestamp d =
    let (d', update) = add_level order (sub_ℕ 0 executed) timestamp d in
    let trade : OrderMessage = record {
      type = b'T';
      symbol = order.symbol;
      price = price;
      size = executed;
      timestamp = timestamp;
    } in
    (
      record d' {
        orders =
            if leb order.size executed
            then erase id d'.orders
            else insert id (record order { size = order.size - executed }) d'.orders;
      },
      update ∷ trade ∷ [],
    )

-- A message about an order that must be known.
unfoldable pub with_order : List ℕ → DeepPlusDecoder → (ℕ → Order → Option Decoded) → Option Decoded
with_order bytes d then_do = get_u64 (drop 18 bytes) >>= λ id. elim (find id d.orders) [
  | none ↦ some (unknown d)
  | some order ↦ then_do id order
]

unfoldable pub decode_add : ℕ → List ℕ → ℕ → DeepPlusDecoder → Option Decoded
decode_add side bytes timestamp d = do
  symbol ← copy_symbol (drop 10 bytes)
  size ← get_u32 (drop 26 bytes)
  price ← get_u64 (drop 30 bytes)
  id ← get_u64 (drop 18 bytes)
  some (
      add_order id
        (record { symbol = symbol; price = to_i64 price; size = size; side = side == side_sell })
        timestamp d)

unfoldable pub decode_modify : List ℕ → ℕ → DeepPlusDecoder → Option Decoded
decode_modify bytes timestamp d = with_order bytes d (λ id order. do
  new_size ← get_u32 (drop 26 bytes)
  new_price ← get_u64 (drop 30 bytes)
  some (modify_order id order new_size (to_i64 new_price) timestamp d))

unfoldable pub decode_execute : List ℕ → ℕ → DeepPlusDecoder → Option Decoded
decode_execute bytes timestamp d = with_order bytes d (λ id order. do
  executed ← get_u32 (drop 26 bytes)
  price ← get_u64 (drop 30 bytes)
  some (execute_order id order executed (to_i64 price) timestamp d))

unfoldable pub decode_trade : List ℕ → ℕ → DeepPlusDecoder → Option Decoded
decode_trade bytes timestamp d = do
  symbol ← copy_symbol (drop 10 bytes)
  size ← get_u32 (drop 18 bytes)
  price ← get_u64 (drop 22 bytes)
  some (
    d,
    record {
      type = b'T';
      symbol = symbol;
      price = to_i64 price;
      size = size;
      timestamp = timestamp;
    }
        ∷ [],
  )

-- The tests of `decode` in their order, on the first two bytes.
unfoldable pub dispatch : ℕ → ℕ → List ℕ → ℕ → ℕ → DeepPlusDecoder → Option Decoded
dispatch kind side bytes length timestamp d =
    if kind == order_add && leb 38 length && (side == side_buy || side == side_sell)
    then decode_add side bytes timestamp d
    else (if kind == 0x52 && leb 26 length
        then with_order bytes d (λ id order. some (delete_order id order timestamp d))
        else (if kind == 0x4d && leb 38 length
            then decode_modify bytes timestamp d
            else (if kind == 0x4c && leb 46 length
                then decode_execute bytes timestamp d
                else (if kind == 0x54 && leb 38 length
                    then decode_trade bytes timestamp d
                    else some (d, [])))))

-- `none` is a read out of range.
unfoldable pub decode : List ℕ → ℕ → DeepPlusDecoder → Option Decoded
decode bytes length d = if ltb length 26 then some (d, []) else (do
  timestamp ← get_u64 (drop 2 bytes)
  kind ← get_elem? bytes 0
  side ← get_elem? bytes 1
  dispatch kind side bytes length timestamp d)
