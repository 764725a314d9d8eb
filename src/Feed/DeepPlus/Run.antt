-- ===== src/Feed/DeepPlus/Run.antt =====
-- src/deepplus.h: the runs of the decoder.
use mega_feed_handler.Base.{ℕ, ◌≤◌, ◌≡◌, refl, List, Bool, true, false, none, some}
use mega_feed_handler.Base.Int.{ℤ, pos}
use mega_feed_handler.Base.HashMap.{nat_key, text_key, int_key, find, find_or}
use mega_feed_handler.Feed.DeepPlus.Defs.{
  Order, DeepPlusDecoder, empty_decoder, add_order, delete_order, modify_order, execute_order,
  unknown, side_of,
}
use mega_feed_handler.Feed.DeepPlus.Weights.{weight}
use mega_feed_handler.Feed.DeepPlus.Totals.{level_of, size_on, IsConsistent}
use mega_feed_handler.Feed.DeepPlus.Events.{
  add_order-IsConsistent, delete_order-IsConsistent, modify_order-IsConsistent,
  execute_order-IsConsistent,
}

-- The decoders of a run in which the venue gives no id that is in use, and fills no order by more
-- than is left of it.
pub data Follows : DeepPlusDecoder → Type 0 where
  nothing : Follows empty_decoder
  missed : {d : DeepPlusDecoder} → Follows d → Follows (unknown d).0
  added :
      {d : DeepPlusDecoder} (id : ℕ) (order : Order) (timestamp : ℕ)
      → find id d.orders ≡ none
      → Follows d
      → Follows (add_order id order timestamp d).0
  deleted :
      {d : DeepPlusDecoder} (id : ℕ) (order : Order) (timestamp : ℕ)
      → find id d.orders ≡ some order
      → Follows d
      → Follows (delete_order id order timestamp d).0
  modified :
      {d : DeepPlusDecoder} (id : ℕ) (order : Order) (size : ℕ) (price : ℤ) (timestamp : ℕ)
      → find id d.orders ≡ some order
      → Follows d
      → Follows (modify_order id order size price timestamp d).0
  executed :
      {d : DeepPlusDecoder} (id : ℕ) (order : Order) (shares : ℕ) (price : ℤ) (timestamp : ℕ)
      → find id d.orders ≡ some order
      → shares ≤ order.size
      → Follows d
      → Follows (execute_order id order shares price timestamp d).0

empty-IsConsistent : IsConsistent empty_decoder
unfolding find_or find side_of weight
empty-IsConsistent = record { unique = tt; totals = go }
  where
    go :
        (name : List ℕ) (side : Bool) (price : ℤ)
        → level_of empty_decoder name side price
          ≡ pos (weight (size_on name side price) empty_decoder.orders)
    go name true price = refl
    go name false price = refl

unknown-IsConsistent : (d : DeepPlusDecoder) → IsConsistent d → IsConsistent (unknown d).0
unfolding unknown
unknown-IsConsistent d c = record { unique = c.unique; totals = c.totals }

Follows-IsConsistent : {d : DeepPlusDecoder} → Follows d → IsConsistent d
Follows-IsConsistent nothing = empty-IsConsistent
Follows-IsConsistent (missed {d = d} r) = unknown-IsConsistent d (Follows-IsConsistent r)
Follows-IsConsistent (added {d = d} id order t new r) =
    add_order-IsConsistent id order t d (Follows-IsConsistent r) new
Follows-IsConsistent (deleted {d = d} id order t known r) =
    delete_order-IsConsistent id order t d (Follows-IsConsistent r) known
Follows-IsConsistent (modified {d = d} id order size price t known r) =
    modify_order-IsConsistent id order t d (Follows-IsConsistent r) size price known
Follows-IsConsistent (executed {d = d} id order shares price t known few r) =
    execute_order-IsConsistent id order t d (Follows-IsConsistent r) shares price known few

-- In every run in which no id in use is given again and no order is filled by more than is left of
-- it, the size that the decoder keeps at a price of a symbol's side is the sum of the sizes of the
-- orders that rest there.
pub Follows-totals :
    (d : DeepPlusDecoder) (name : List ℕ) (side : Bool) (price : ℤ)
    → Follows d
    → level_of d name side price ≡ pos (weight (size_on name side price) d.orders)
Follows-totals d name side price r = (Follows-IsConsistent r).totals name side price
