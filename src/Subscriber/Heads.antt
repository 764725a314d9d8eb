-- ===== src/Subscriber/Heads.antt =====
-- src/subscriber.h: the head of the buffer of `drain_tcp` when more bytes come.
use mega_feed_handler.Base.{
  ℕ, zero, suc, ◌+◌, ◌≤◌, ◌≡◌, ◌∙◌, ◌⊎◌, refl, ap, sym, List, [], ◌∷◌, ◌++◌, true, false, Option,
  none, some, ◌==◌, ltb, length, drop, take, arith, length-append, length-drop, All-drop, inl, inr,
  Bool-cases,
}
use mega_feed_handler.Wire.Bytes.{
  IsBytes, get_u16, get_u64, get_u16_in, get_u64_in, get_u16-put_u16, get_u64-put_u64,
}
use mega_feed_handler.Wire.Message.{OrderMessage, order_message_size, message_decode}
use mega_feed_handler.Wire.RoundTrip.{message_decode-encode}
use mega_feed_handler.Wire.Accept.{message_decode_in}
use mega_feed_handler.Subscriber.Repair.{Head, partial, broken, whole, frame_head}

split_at : (n : ℕ) (x y : List ℕ) → n ≤ length x → x ++ y ≡ take n x ++ (drop n x ++ y)
split_at zero x y h = refl
split_at (suc n) [] y h = absurd (omega (arith, h))
split_at (suc n) (a ∷ x) y h = ap (◌∷◌ a) (split_at n x y (omega (arith, h)))

pub drop_in : (n : ℕ) (x y : List ℕ) → n ≤ length x → drop n (x ++ y) ≡ drop n x ++ y
drop_in zero x y h = refl
drop_in (suc n) [] y h = absurd (omega (arith, h))
drop_in (suc n) (a ∷ x) y h = drop_in n x y (omega (arith, h))

u16_more : (x y : List ℕ) → IsBytes x → 2 ≤ length x → get_u16 (x ++ y) ≡ get_u16 x
u16_more x y bs h =
    let (v, read, small, stored) = get_u16_in x bs h in
    ap get_u16 (split_at 2 x y h ∙ ap (λ front. front ++ (drop 2 x ++ y)) (sym stored))
    ∙ (get_u16-put_u16 v (drop 2 x ++ y) small ∙ sym read)

u64_more : (x y : List ℕ) → IsBytes x → 8 ≤ length x → get_u64 (x ++ y) ≡ get_u64 x
u64_more x y bs h =
    let (v, read, small, stored) = get_u64_in x bs h in
    ap get_u64 (split_at 8 x y h ∙ ap (λ front. front ++ (drop 8 x ++ y)) (sym stored))
    ∙ (get_u64-put_u64 v (drop 8 x ++ y) small ∙ sym read)

message_more :
    (x y : List ℕ) → IsBytes x → 29 ≤ length x → message_decode (x ++ y) ≡ message_decode x
message_more x y bs h =
    let (m, read, wire, stored) = message_decode_in x bs h in
    ap message_decode (split_at 29 x y h ∙ ap (λ front. front ++ (drop 29 x ++ y)) (sym stored))
    ∙ (message_decode-encode m (drop 29 x ++ y) wire ∙ sym read)

-- What is known of the head of a buffer, with `y` to come.
data Known (x y : List ℕ) : Head → Type 0 where
  waits : Known x y partial
  bad : frame_head (x ++ y) ≡ some broken → Known x y broken
  good :
      (id sequence size : ℕ) (found : Option OrderMessage)
      → 12 ≤ size
      → size ≤ length x
      → frame_head (x ++ y) ≡ some (whole id sequence found size)
      → Known x y (whole id sequence found size)

-- The header of a frame, as it is read at the front of a buffer.
record Header (x : List ℕ) (id sequence size : ℕ) : Type 0 where
  enough : ltb (length x) 12 ≡ false
  read_id : get_u16 x ≡ some id
  read_sequence : get_u64 (drop 2 x) ≡ some sequence
  read_size : get_u16 (drop 10 x) ≡ some size

Header-in :
    (x y : List ℕ)
    → IsBytes x
    → 12 ≤ length x
    → (id : ℕ) × (sequence : ℕ) × (size : ℕ) × Header x id sequence size
      × Header (x ++ y) id sequence size
Header-in x y bs long =
    let id = get_u16_in x bs (omega (arith, long)) in
    let number =
      get_u64_in (drop 2 x) (All-drop _ 2 x bs) (omega (arith, long, length-drop {0} 2 x)) in
    let size =
      get_u16_in (drop 10 x) (All-drop _ 10 x bs) (omega (arith, long, length-drop {0} 10 x)) in
    (
      id.0,
      number.0,
      size.0,
      record {
        enough = ground (arith, long);
        read_id = id.1;
        read_sequence = number.1;
        read_size = size.1;
      },
      record {
        enough = ground (arith, length-append {0} x y, long);
        read_id = u16_more x y bs (omega (arith, long)) ∙ id.1;
        read_sequence =
            ap get_u64 (drop_in 2 x y (omega (arith, long)))
            ∙ (u64_more (drop 2 x) y (All-drop _ 2 x bs) (omega (arith, long, length-drop {0} 2 x))
                ∙ number.1);
        read_size =
            ap get_u16 (drop_in 10 x y (omega (arith, long)))
            ∙ (u16_more (drop 10 x) y (All-drop _ 10 x bs)
                  (omega (arith, long, length-drop {0} 10 x))
                ∙ size.1);
      },
    )

-- `frame_head` from its header, by what the size is.
module _ (x : List ℕ) (id sequence size : ℕ) (r : Header x id sequence size) where
  head_half : ltb (length x) (12 + size) ≡ true → frame_head x ≡ some partial
  unfolding frame_head
  head_half half = rw (r.enough, r.read_id, r.read_sequence, r.read_size, half) refl

  head_gone :
      ltb (length x) (12 + size) ≡ false
      → (size == 0) ≡ true
      → frame_head x ≡ some (whole id sequence none 12)
  unfolding frame_head
  head_gone fits empty = rw (r.enough, r.read_id, r.read_sequence, r.read_size, fits, empty) refl

  head_broken :
      ltb (length x) (12 + size) ≡ false
      → (size == 0) ≡ false
      → (size == order_message_size) ≡ false
      → frame_head x ≡ some broken
  unfolding frame_head
  head_broken fits full odd =
      rw (r.enough, r.read_id, r.read_sequence, r.read_size, fits, full, odd) refl

  head_message :
      (m : OrderMessage)
      → ltb (length x) (12 + size) ≡ false
      → (size == 0) ≡ false
      → (size == order_message_size) ≡ true
      → message_decode (drop 12 x) ≡ some m
      → frame_head x ≡ some (whole id sequence (some m) 41)
  unfolding frame_head
  head_message m fits full right payload =
      rw (r.enough, r.read_id, r.read_sequence, r.read_size, fits, full, right, payload) refl

-- A head that has come in whole stays what it is when more comes.
frame_head_in :
    (x y : List ℕ) → IsBytes x → (head : Head) × (frame_head x ≡ some head) × Known x y head
frame_head_in x y bs = elim (Bool-cases (ltb (length x) 12)) [
  | inl short ↦ (partial, unfold frame_head in rw short refl, waits)
  | inr enough ↦
      let (id, n, size, r, r') = Header-in x y bs (ground arith) in
      elim (Bool-cases (ltb (length x) (12 + size))) [
        | inl half ↦ (partial, head_half x id n size r half, waits)
        | inr fits ↦
            let fits' : ltb (length (x ++ y)) (12 + size) ≡ false =
              ground (arith, length-append {0} x y) in
            elim (Bool-cases (size == 0)) [
              | inl empty ↦ (
                whole id n none 12,
                head_gone x id n size r fits empty,
                good id n 12 none (omega arith) (ground arith)
                    (head_gone (x ++ y) id n size r' fits' empty),
              )
              | inr full ↦ elim (Bool-cases (size == order_message_size)) [
                | inr odd ↦ (
                  broken,
                  head_broken x id n size r fits full odd,
                  bad (head_broken (x ++ y) id n size r' fits' full odd),
                )
                | inl right ↦
                    let long : 41 ≤ length x = ground arith in
                    let room = length-drop {0} 12 x in
                    let m =
                      message_decode_in (drop 12 x) (All-drop _ 12 x bs)
                        (omega (arith, room, long)) in
                    (
                      whole id n (some m.0) 41,
                      head_message x id n size r m.0 fits full right m.1,
                      good id n 41 (some m.0) (omega arith) long (
                          head_message (x ++ y) id n size r' m.0 fits' full right (
                            ap message_decode (drop_in 12 x y (omega (arith, long)))
                            ∙ (message_more (drop 12 x) y (All-drop _ 12 x bs)
                                  (omega (arith, room, long))
                                ∙ m.1))),
                    )
              ]
            ]
      ]
]

-- The same as a choice of three.
abbrev pub IsWhole : List ℕ → List ℕ → Type 0
IsWhole x y =
    (id : ℕ) × (n : ℕ) × (found : Option OrderMessage) × (size : ℕ) × (12 ≤ size)
    × (size ≤ length x)
    × (frame_head x ≡ some (whole id n found size))
    × (frame_head (x ++ y) ≡ some (whole id n found size))

pub head_cases :
    (x y : List ℕ)
    → IsBytes x
    → (frame_head x ≡ some partial)
      ⊎ ((frame_head x ≡ some broken) × (frame_head (x ++ y) ≡ some broken))
      ⊎ IsWhole x y
head_cases x y b = let (head, e, k) = frame_head_in x y b in go head e k
  where
    go :
        (head : Head)
        → frame_head x ≡ some head
        → Known x y head
        → (frame_head x ≡ some partial)
          ⊎ ((frame_head x ≡ some broken) × (frame_head (x ++ y) ≡ some broken))
          ⊎ IsWhole x y
    go partial e k = inl e
    go broken e (bad e') = inr (inl (e, e'))
    go (whole _ _ _ _) e (good id n size found l m e') = inr (inr (id, n, found, size, l, m, e, e'))
