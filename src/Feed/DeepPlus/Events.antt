-- ===== src/Feed/DeepPlus/Events.antt =====
-- src/deepplus.h: the events of an order and the sums.
use mega_feed_handler.Base.{
  ℕ, ◌+◌, ◌-◌, ◌≤◌, ◌≡◌, refl, leb, none, some, if◌then◌else◌, arith, Bool-cases, inl, inr, ap, ◌∙◌,
}
use mega_feed_handler.Base.Int.{ℤ, pos, sub_ℕ, ◌+ℤ◌, eqb_ℤ}
use mega_feed_handler.Base.HashMap.{nat_key, int_key, text_key, find, insert, erase}
use mega_feed_handler.Feed.DeepPlus.Defs.{
  Order, DeepPlusDecoder, add_level, add_order, delete_order, modify_order, execute_order,
}
use mega_feed_handler.Feed.DeepPlus.Weights.{
  insert-IsUnique, erase-IsUnique, weight, weight-insert, weight-erase,
}
use mega_feed_handler.Feed.DeepPlus.Totals.{
  level_of, rests_on, size_on, clamp, add_level-level_of, whole, IsConsistent, total_lem,
}

module _ (id : ℕ) (order : Order) (timestamp : ℕ) (d : DeepPlusDecoder) (c : IsConsistent d) where
  -- A new order, whose id is not in use.
  pub add_order-IsConsistent :
      find id d.orders ≡ none → IsConsistent (add_order id order timestamp d).0
  unfolding add_order add_level
  add_order-IsConsistent new = record {
    unique = insert-IsUnique id order d.orders c.unique;
    totals = λ n s p.
        total_lem (rests_on n s p order) (weight (size_on n s p) d.orders)
          (weight (size_on n s p) (insert id order d.orders)) 0 order.size (level_of d n s p) _
          (c.totals n s p)
          (add_level-level_of order (pos order.size) timestamp
              (record d { orders = insert id order d.orders }) n s p
            ∙ ap
                (λ t.
                  if rests_on n s p order then clamp (level_of d n s p +ℤ t) else level_of d n s p)
                (whole order.size))
          (ground (arith, rw new at (weight-insert (size_on n s p) id order d.orders)));
  }

  -- A known order that is taken away with all that is left of it.
  remove :
      (rest : ℕ) (d' : DeepPlusDecoder)
      → find id d.orders ≡ some order
      → rest ≡ order.size
      → d'.levels ≡ (add_level order (sub_ℕ 0 rest) timestamp d).0.levels
      → d'.orders ≡ erase id d.orders
      → IsConsistent d'
  remove rest d' known all levels orders = record {
    unique = rw orders (erase-IsUnique id d.orders c.unique);
    totals = λ n s p.
        let changed = add_level-level_of order (sub_ℕ 0 rest) timestamp d n s p in
        let sum = rw known at (weight-erase (size_on n s p) id d.orders c.unique) in
        rw (orders, levels)
          (total_lem (rests_on n s p order) (weight (size_on n s p) d.orders)
            (weight (size_on n s p) (erase id d.orders)) rest 0 (level_of d n s p) _
            (c.totals n s p) changed (ground (arith, sum, all)));
  }

  pub delete_order-IsConsistent :
      find id d.orders ≡ some order → IsConsistent (delete_order id order timestamp d).0
  delete_order-IsConsistent known =
      remove order.size (delete_order id order timestamp d).0 known refl
        (unfold delete_order in refl) (unfold delete_order add_level in refl)

  -- A change of the size alone, by what comes and what goes.
  resize :
      (size fresh old : ℕ) (d' : DeepPlusDecoder)
      → find id d.orders ≡ some order
      → size + old ≡ fresh + order.size
      → d'.levels ≡ (add_level order (sub_ℕ fresh old) timestamp d).0.levels
      → d'.orders ≡ insert id (record order { size = size }) d.orders
      → IsConsistent d'
  resize size fresh old d' known balance levels orders = record {
    unique = rw orders (insert-IsUnique id (record order { size = size }) d.orders c.unique);
    totals = λ n s p.
        let changed = add_level-level_of order (sub_ℕ fresh old) timestamp d n s p in
        let sum =
          rw known at (weight-insert (size_on n s p) id (record order { size = size }) d.orders) in
        rw (orders, levels)
          (total_lem (rests_on n s p order) (weight (size_on n s p) d.orders)
            (weight (size_on n s p) (insert id (record order { size = size }) d.orders)) old fresh
            (level_of d n s p) _ (c.totals n s p) changed (ground (arith, sum, balance)));
  }

  -- Shares of a known order are filled, and no more than it has.
  pub execute_order-IsConsistent :
      (executed : ℕ) (price : ℤ)
      → find id d.orders ≡ some order
      → executed ≤ order.size
      → IsConsistent (execute_order id order executed price timestamp d).0
  execute_order-IsConsistent executed price known few =
      elim (Bool-cases (leb order.size executed)) [
        | inr partly ↦
            resize (order.size - executed) 0 executed
              (execute_order id order executed price timestamp d).0 known (ground arith)
              (unfold execute_order in refl) (unfold execute_order add_level in simp partly refl)
        | inl fully ↦
            let all : executed ≡ order.size = ground arith in
            remove executed (execute_order id order executed price timestamp d).0 known all
              (unfold execute_order in refl) (unfold execute_order add_level in simp fully refl)
      ]

  -- All that is left of a known order goes, and comes back at another price.
  move :
      (size : ℕ) (price : ℤ) (d' : DeepPlusDecoder)
      → find id d.orders ≡ some order
      → let moved = record order { price = price } in
        let left = (add_level order (sub_ℕ 0 order.size) timestamp d).0 in
        d'.levels ≡ (add_level moved (pos size) timestamp left).0.levels
        → d'.orders ≡ insert id (record order { price = price; size = size }) d.orders
        → IsConsistent d'
  move size price d' known levels orders =
      let moved : Order = record order { price = price } in
      let placed : Order = record order { price = price; size = size } in
      let left : DeepPlusDecoder = (add_level order (sub_ℕ 0 order.size) timestamp d).0 in
      record {
        unique = rw orders (insert-IsUnique id placed d.orders c.unique);
        totals = λ n s p.
            let w = size_on n s p in
            let erased = rw known at (weight-erase w id d.orders c.unique) in
            let inserted = rw known at (weight-insert w id placed d.orders) in
            let leaves =
              total_lem (rests_on n s p order) (weight w d.orders) (weight w (erase id d.orders))
                order.size 0 (level_of d n s p) (level_of left n s p) (c.totals n s p)
                (add_level-level_of order (sub_ℕ 0 order.size) timestamp d n s p)
                (ground (arith, erased)) in
            rw (orders, levels)
              (total_lem (rests_on n s p moved) (weight w (erase id d.orders))
                (weight w (insert id placed d.orders)) 0 size (level_of left n s p) _ leaves
                (add_level-level_of moved (pos size) timestamp left n s p
                  ∙ ap
                      (λ t.
                        if rests_on n s p moved
                        then clamp (level_of left n s p +ℤ t)
                        else level_of left n s p)
                      (whole size))
                (ground (arith, erased, inserted)));
      }

  -- A known order gets a new size, at its price or at another.
  pub modify_order-IsConsistent :
      (size : ℕ) (price : ℤ)
      → find id d.orders ≡ some order
      → IsConsistent (modify_order id order size price timestamp d).0
  modify_order-IsConsistent size price known = elim (Bool-cases (eqb_ℤ price order.price)) [
    | inl stays ↦
        resize size size order.size (modify_order id order size price timestamp d).0 known refl
          (unfold modify_order in simp stays refl)
          (unfold modify_order add_level in simp stays refl)
    | inr moves ↦
        move size price (modify_order id order size price timestamp d).0 known
          (unfold modify_order in simp moves refl)
          (unfold modify_order add_level in simp moves refl)
  ]
