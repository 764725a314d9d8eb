-- ===== src/Subscriber/Exchange.antt =====
-- src/subscriber.h and src/feedpublisher.h: a request that `nak` writes, answered by the repair
-- server and taken in by `drain_tcp`.
use mathlib.Core.Option
use mega_feed_handler.Base.{
  ℕ, zero, suc, ◌^◌, ◌<◌, ◌≤◌, ◌≡◌, ◌∙◌, refl, ap, sym, List, [], ◌∷◌, ◌++◌, true, Option, some,
  ◌>>=◌, length, arith, drop_add, All, All-map, inl, inr, Bool-cases,
}
use mathlib.Core.List.{append-nil}
use mega_feed_handler.Base.Bits.{u16}
use mega_feed_handler.Base.OrdMap.{OrdMap, ascending, find}
use mega_feed_handler.Base.Sorted.{Sorted, find-Above}
use mega_feed_handler.Wire.Bytes.{
  put_u16, put_u64, length-put_u64, get_u16-put_u16, get_u64-put_u64,
}
use mega_feed_handler.Wire.Message.{OrderMessage, message_encode}
use mega_feed_handler.Publisher.Defs.{Slot}
use mega_feed_handler.Publisher.Serve.{read_ring, respond, request_header, max_repair_batch}
use mega_feed_handler.Subscriber.Bucket.{Bucket, Hole}
use mega_feed_handler.Subscriber.Nak.{Timing, select_due, is_due, put_sequences, request_bytes}
use mega_feed_handler.Subscriber.Repair.{partial, frame_head, parse}
use mega_feed_handler.Subscriber.Reassemble.{
  Answer, IsAnswer, answer_frame, answer_bytes, apply_answers, parse_lem,
}

-- No batch is larger than its room.
select_due_le :
    (t : Timing) (now room : ℕ) (holes : OrdMap ℕ Hole)
    → length (select_due t now room holes) ≤ room
unfolding select_due
select_due_le t now zero holes = omega arith
select_due_le t now (suc room) [] = omega arith
select_due_le t now (suc room) ((k, hole) ∷ holes) =
    ground (arith, select_due_le t now room holes, select_due_le t now (suc room) holes)

-- The repair server reads the header of a request for at most 512 numbers, and not for none, as
-- the bucket and the number of them.
pub request_header-request_bytes :
    (bucket_count id : ℕ) (ks : List ℕ)
    → id < bucket_count
    → id < 2 ^ 16
    → 0 < length ks
    → length ks ≤ max_repair_batch
    → request_header bucket_count (request_bytes id ks) ≡ some (some (id, length ks))
unfolding request_header request_bytes put_u16
request_header-request_bytes bucket_count id ks known small some_k few =
    let head =
      get_u16-put_u16 (u16 id) (put_u16 (u16 (length ks)) ++ put_sequences ks) (omega arith) in
    let count = get_u16-put_u16 (u16 (length ks)) (put_sequences ks) (omega arith) in
    let id_kept : u16 id ≡ id = omega arith in
    let count_kept : u16 (length ks) ≡ length ks = omega arith in
    rw (head, count, id_kept, count_kept) (ground arith)

-- What the server answers for numbers that the ring gives `found` for.
unfoldable pub answers_for : ℕ → (ℕ → Option OrderMessage) → List ℕ → List Answer
answers_for id found [] = []
answers_for id found (k ∷ ks) = (id, k, found k) ∷ answers_for id found ks

-- The ring's answer for a number, and that a frame can carry it.
abbrev pub IsServed : ℕ → List Slot → ℕ → (ℕ → Option OrderMessage) → ℕ → Type 0
IsServed id ring size found k =
    IsAnswer (id, k, found k)
    × (k < 2 ^ 64)
    × (read_ring ring size k ≡ some (Option.map message_encode (found k)))

respond-put_sequences :
    (id : ℕ) (ring : List Slot) (size : ℕ) (found : ℕ → Option OrderMessage) (ks : List ℕ)
    → All (IsServed id ring size found) ks
    → respond id ring size (length ks) (put_sequences ks)
      ≡ some (answer_bytes (answers_for id found ks))
unfolding respond put_sequences answers_for answer_bytes answer_frame
respond-put_sequences id ring size found [] h = refl
respond-put_sequences id ring size found (k ∷ ks) h =
    rw
      (
        get_u64-put_u64 k (put_sequences ks) h.0.1,
        h.0.2,
        drop_add 8 0 (put_u64 k) (put_sequences ks) (length-put_u64 k),
        respond-put_sequences id ring size found ks h.1,
      )
      refl

answers_for-IsAnswer :
    (id : ℕ) (ring : List Slot) (size : ℕ) (found : ℕ → Option OrderMessage) (ks : List ℕ)
    → All (IsServed id ring size found) ks
    → All IsAnswer (answers_for id found ks)
unfolding answers_for
answers_for-IsAnswer id ring size found [] h = tt
answers_for-IsAnswer id ring size found (k ∷ ks) h =
    (h.0.0, answers_for-IsAnswer id ring size found ks h.1)

nothing_waits : frame_head [] ≡ some partial
unfolding frame_head
nothing_waits = refl

-- What the repair server answers to the numbers of a request, the subscriber takes in whole: for
-- every number, in the order of the request, the bucket gets the message that the ring holds, or
-- the word that it is gone.
pub repair-exchange :
    (id : ℕ) (ring : List Slot) (size : ℕ) (found : ℕ → Option OrderMessage) (ks : List ℕ)
    (bs : List Bucket)
    → All (IsServed id ring size found) ks
    → (respond id ring size (length ks) (put_sequences ks) >>= λ bytes. parse bytes bs)
      ≡ some (record { buckets = apply_answers (answers_for id found ks) bs; waiting = some [] })
repair-exchange id ring size found ks bs h =
    let answers = answers_for id found ks in
    rw (respond-put_sequences id ring size found ks h) (
      ap (λ bytes. parse bytes bs) (sym (append-nil (answer_bytes answers)))
      ∙ parse_lem answers [] bs (answers_for-IsAnswer id ring size found ks h) nothing_waits)

-- A number that is a hole, and due to be asked for.
abbrev pub IsDue : Timing → ℕ → OrdMap ℕ Hole → ℕ → Type 0
IsDue t now holes k = (v : Hole) × (find k holes ≡ some v) × (is_due t now v ≡ true)

find-cons :
    (j : ℕ) (hole : Hole) (m : OrdMap ℕ Hole)
    → Sorted ((j, hole) ∷ m)
    → (k : ℕ) (v : Hole) → find k m ≡ some v
    → find k ((j, hole) ∷ m) ≡ some v
unfolding find
find-cons j hole m s k v e = ground (arith, find-Above j k v m s.0 e, e)

find_self : (k : ℕ) (hole : Hole) (m : OrdMap ℕ Hole) → find k ((k, hole) ∷ m) ≡ some hole
unfolding find
find_self k hole m = ground arith

IsDue-cons :
    (t : Timing) (now j : ℕ) (hole : Hole) (m : OrdMap ℕ Hole)
    → Sorted ((j, hole) ∷ m)
    → (ks : List ℕ) → All (IsDue t now m) ks
    → All (IsDue t now ((j, hole) ∷ m)) ks
IsDue-cons t now j hole m s ks h = All-map (λ k (v, e, d). (v, find-cons j hole m s k v e, d)) ks h

due :
    (t : Timing) (now room : ℕ) (holes : OrdMap ℕ Hole)
    → Sorted holes
    → All (IsDue t now holes) (select_due t now room holes)
unfolding select_due
due t now zero holes s = tt
due t now (suc room) [] s = tt
due t now (suc room) ((k, hole) ∷ holes) s = elim (Bool-cases (is_due t now hole)) [
  | inr early ↦ simp early (IsDue-cons t now k hole holes s _ (due t now (suc room) holes s.1))
  | inl ready ↦ simp ready (
    (hole, find_self k hole holes, ready),
    IsDue-cons t now k hole holes s _ (due t now room holes s.1),
  )
]

-- What `nak` asks for is holes that are due, and one batch at most.
pub select_due-IsDue :
    (t : Timing) (now room : ℕ) (holes : OrdMap ℕ Hole)
    → Sorted holes
    → All (IsDue t now holes) (select_due t now room holes)
      × (length (select_due t now room holes) ≤ room)
select_due-IsDue t now room holes s = (due t now room holes s, select_due_le t now room holes)
