-- ===== src/Subscriber/Total.antt =====
-- src/subscriber.h: the reads of `drain_udp`, `drain_tcp` and `pump`.
use mega_feed_handler.Base.{
  ℕ, zero, suc, ◌+◌, List, [], ◌∷◌, ◌++◌, Bool, true, ◌&&◌, not, Option, none, some, ◌==◌, ltb,
  if◌then◌else◌, ◌>>=◌, arith, length, drop, length-drop, All, All-drop, All-append, if_cases,
  Succeeds, succeeds, Succeeds->>=,
}
use mega_feed_handler.Wire.Bytes.{IsBytes}
use mega_feed_handler.Wire.Reads.{Anything, get_u16_at, get_u64_at}
use mega_feed_handler.Wire.Message.{order_message_size}
use mega_feed_handler.Wire.Accept.{message_decode_in, dgram_decode_in}
use mega_feed_handler.Subscriber.Bucket.{Bucket, accept, on_frame}
use mega_feed_handler.Subscriber.Nak.{
  Link, Timing, Outside, Asked, reset_repair, nak, ask, connect_and_send, send_request, write_off,
  select_due,
}
use mega_feed_handler.Publisher.Serve.{max_repair_batch}
use mega_feed_handler.Subscriber.Repair.{
  partial, broken, whole, Parsed, frame_head, parse_frames, parse, drain_tcp, update_bucket,
}
use mega_feed_handler.Subscriber.Pump.{
  Received, Inputs, Subscriber, Delivery, drain_udp, drain_all, drain_link, serve_buckets, pump,
}

frame_head_in : (bytes : List ℕ) → IsBytes bytes → Succeeds Anything (frame_head bytes)
unfolding frame_head
frame_head_in bytes bs =
    if_cases (Succeeds Anything) (ltb (length bytes) 12) (λ _. succeeds tt)
      (λ long. Succeeds->>= (get_u16_at bytes bs 0 (ground arith)) (λ id _.
        Succeeds->>= (get_u64_at bytes bs 2 (ground arith)) (λ sequence _.
          Succeeds->>= (get_u16_at bytes bs 10 (ground arith)) (λ size _.
            if_cases (Succeeds Anything) (ltb (length bytes) (12 + size)) (λ _. succeeds tt)
              (λ enough.
                if_cases (Succeeds Anything) (size == 0) (λ _. succeeds tt)
                  (λ _.
                    if_cases (Succeeds Anything) (size == order_message_size)
                      (λ sized.
                        let (m, read, _, _) =
                          message_decode_in (drop 12 bytes) (All-drop _ 12 bytes bs)
                            (ground (arith, length-drop {0} 12 bytes)) in
                        Succeeds->>= {P = Anything} (m, read, tt) (λ m' _. succeeds tt))
                      (λ _. succeeds tt)))))))

-- What is left in the buffer consists of bytes.
abbrev IsWaiting : Parsed → Type 0
IsWaiting p = elim p.waiting [ none ↦ Unit {0} | some rest ↦ IsBytes rest ]

parse_frames_in :
    (fuel : ℕ) (bytes : List ℕ) (bs : List Bucket)
    → IsBytes bytes
    → Succeeds IsWaiting (parse_frames fuel bytes bs)
unfolding parse_frames
parse_frames_in zero bytes bs good = succeeds good
parse_frames_in (suc fuel) bytes bs good = Succeeds->>= (frame_head_in bytes good) (λ head _.
    elim head
      as (λ h. Succeeds IsWaiting (elim h [
        | partial ↦ some (record { buckets = bs; waiting = some bytes })
        | broken ↦ some (record { buckets = bs; waiting = none })
        | whole id sequence found size ↦
            parse_frames fuel (drop size bytes) (update_bucket id (on_frame sequence found) bs)
      ])) [
        | partial ↦ succeeds good
        | broken ↦ succeeds tt
        | whole id sequence found size ↦
            parse_frames_in fuel (drop size bytes) (update_bucket id (on_frame sequence found) bs)
              (All-drop _ size bytes good)
      ])

-- What the subscriber holds of the repair connection consists of bytes.
abbrev pub IsLink : Link → Type 0
IsLink link = IsBytes link.buffer

abbrev IsLinkWith : List Bucket × Link → Type 0
IsLinkWith (bs, link) = IsLink link

waiting-IsLink :
    (bs : List Bucket) (waiting : Option (List ℕ)) (link : Link)
    → IsWaiting (record { buckets = bs; waiting = waiting })
    → Succeeds IsLinkWith (
        some (
          bs,
          elim waiting [ none ↦ reset_repair link | some rest ↦ record link { buffer = rest } ],
        ))
unfolding reset_repair
waiting-IsLink bs none link h = succeeds tt
waiting-IsLink bs (some rest) link h = succeeds h

drain_tcp_in :
    (received : List ℕ) (closed : Bool) (bs : List Bucket) (link : Link)
    → IsBytes received
    → IsLink link
    → Succeeds IsLinkWith (drain_tcp received closed bs link)
unfolding drain_tcp reset_repair parse
drain_tcp_in received closed bs link got held =
    if_cases (Succeeds IsLinkWith) closed (λ _. succeeds tt)
      (λ _.
        Succeeds->>=
          (parse_frames_in (suc (length (link.buffer ++ received))) (link.buffer ++ received) bs
            (All-append _ link.buffer received held got))
          (λ p waiting. waiting-IsLink p.buckets p.waiting link waiting))

drain_udp_in :
    (backfill : ℕ) (rs : List Received) (b : Bucket)
    → All (λ r. IsBytes r.bytes) rs
    → Succeeds Anything (drain_udp backfill rs b)
unfolding drain_udp
drain_udp_in backfill [] b good = succeeds tt
drain_udp_in backfill (r ∷ rs) b good =
    let (d, read, _) = dgram_decode_in r.bytes (length r.bytes) good.0 (omega arith) in
    Succeeds->>= {P = Anything} (d, read, tt)
      (λ decoded _.
        elim decoded
          as (λ k. Succeeds {A = Bucket × ℕ} Anything (elim k [
            | none ↦ drain_udp backfill rs b
            | some d ↦
                if not (d.bucket == b.id)
                then drain_udp backfill rs b
                else (drain_udp backfill rs (accept backfill r.now d.sequence d.message b) >>= λ s.
                    some (s.0, s.1 + 1))
          ])) [
            | none ↦ drain_udp_in backfill rs b good.1
            | some d ↦
                if_cases (Succeeds {A = Bucket × ℕ} Anything) (not (d.bucket == b.id))
                  (λ _. drain_udp_in backfill rs b good.1)
                  (λ _.
                    Succeeds->>=
                      (drain_udp_in backfill rs (accept backfill r.now d.sequence d.message b)
                        good.1)
                      (λ s _. succeeds tt))
          ])

-- Everything that comes in is bytes.
pub record IsHeard (i : Inputs) : Type 0 where
  pub datagrams_are : (index : ℕ) → All (λ r. IsBytes r.bytes) (i.datagrams index)
  pub repairs_are : IsBytes i.repairs

drain_all_in :
    (backfill : ℕ) (i : Inputs) (index : ℕ) (bs : List Bucket)
    → IsHeard i
    → Succeeds Anything (drain_all backfill i index bs)
unfolding drain_all
drain_all_in backfill i index [] heard = succeeds tt
drain_all_in backfill i index (b ∷ bs) heard =
    Succeeds->>= (drain_udp_in backfill (i.datagrams index) b (heard.datagrams_are index))
      (λ r _. Succeeds->>= (drain_all_in backfill i (index + 1) bs heard) (λ s _. succeeds tt))

abbrev IsAsked : Asked → Type 0
IsAsked a = IsLink a.link

send_request-IsLink :
    (t : Timing) (o : Outside) (ks : List ℕ) (b : Bucket) (link : Link)
    → IsLink link
    → IsAsked (send_request t o ks b link)
unfolding send_request reset_repair
send_request-IsLink t o ks b link held = if_cases IsAsked o.writes (λ _. held) (λ _. tt)

nak-IsLink :
    (t : Timing) (o : Outside) (b : Bucket) (link : Link) → IsLink link → IsAsked (nak t o b link)
unfolding nak ask connect_and_send
nak-IsLink t o b link held =
    let b' = write_off o.now t.giveup b in
    let ks = select_due t o.now max_repair_batch b'.holes in
    if_cases IsAsked (length b.holes == 0) (λ _. held)
      (λ _.
        if_cases IsAsked (length b'.holes == 0) (λ _. held)
          (λ _.
            if_cases IsAsked (not link.connected && ltb o.now link.blocked_until) (λ _. held)
              (λ _.
                if_cases IsAsked (length ks == 0) (λ _. held)
                  (λ _.
                    if_cases IsAsked link.connected (λ _. send_request-IsLink t o ks b' link held)
                      (λ _.
                        if_cases IsAsked o.connects
                          (λ _.
                            send_request-IsLink t o ks b' (record link { connected = true }) held)
                          (λ _. held))))))

serve_buckets-IsLink :
    (t : Timing) (i : Inputs) (index : ℕ) (bs : List Bucket) (link : Link)
    → IsLink link
    → IsLink (serve_buckets t i index bs link).1
unfolding serve_buckets
serve_buckets-IsLink t i index [] link held = held
serve_buckets-IsLink t i index (b ∷ bs) link held =
    serve_buckets-IsLink t i (index + 1) bs (nak t (i.outside index) b link).link
      (nak-IsLink t (i.outside index) b link held)

abbrev pub IsLinked : Subscriber × List Delivery → Type 0
IsLinked (s, out) = IsLink s.link

-- Whatever bytes come in, `pump` reads in range, and the buffer holds bytes.
pub pump_in :
    (t : Timing) (i : Inputs) (s : Subscriber)
    → IsHeard i
    → IsLink s.link
    → Succeeds IsLinked (pump t i s)
unfolding pump drain_link
pump_in t i s heard held = Succeeds->>= (drain_all_in s.backfill i 0 s.buckets heard) (λ r _.
    Succeeds->>= {P = IsLinkWith}
      (if_cases (Succeeds IsLinkWith) s.link.connected
        (λ _. drain_tcp_in i.repairs i.closed r.0 s.link heard.repairs_are held)
        (λ _. succeeds held))
      (λ q linked. succeeds (serve_buckets-IsLink t i 0 q.0 q.1 linked)))
