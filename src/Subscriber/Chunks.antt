-- ===== src/Subscriber/Chunks.antt =====
-- src/subscriber.h: `drain_tcp` on bytes that the connection splits.
use mega_feed_handler.Base.{
  ℕ, zero, suc, ◌<◌, ◌≡◌, ◌∙◌, refl, ap, List, [], ◌++◌, Option, none, some, length, drop, arith,
  length-append, length-drop, All-drop, All-append, inl, inr,
}
use mega_feed_handler.Wire.Bytes.{IsBytes}
use mega_feed_handler.Subscriber.Bucket.{Bucket, on_frame}
use mega_feed_handler.Subscriber.Repair.{Parsed, parse_frames, parse, update_bucket}
use mega_feed_handler.Subscriber.Heads.{head_cases, drop_in}

-- More fuel than bytes changes nothing.
enough_fuel :
    (f g : ℕ) (x : List ℕ) (bs : List Bucket)
    → IsBytes x
    → length x < f
    → length x < g
    → parse_frames f x bs ≡ parse_frames g x bs
unfolding parse_frames
enough_fuel zero g x bs b p q = absurd (omega (arith, p))
enough_fuel (suc f) zero x bs b p q = absurd (omega (arith, q))
enough_fuel (suc f) (suc g) x bs b p q = elim (head_cases x [] b) [
  | inl e ↦ rw e refl
  | inr (inl (e, _)) ↦ rw e refl
  | inr (inr (id, n, found, size, l, m, e, _)) ↦
      let rest = length-drop {0} size x in
      rw e (
        enough_fuel f g (drop size x) (update_bucket id (on_frame n found) bs) (All-drop _ size x b)
          (omega (arith, p, l, m, rest)) (omega (arith, q, l, m, rest)))
]

-- Reading on from what was left waiting, unless the framing was wrong.
unfoldable pub read_on : List ℕ → Option Parsed → Option Parsed
read_on y none = none
read_on y (some p) = elim p.waiting [ none ↦ some p | some rest ↦ parse (rest ++ y) p.buckets ]

read_on_frames :
    (f g : ℕ) (x y : List ℕ) (bs : List Bucket)
    → IsBytes x
    → IsBytes y
    → length x < f
    → length (x ++ y) < g
    → parse_frames g (x ++ y) bs ≡ read_on y (parse_frames f x bs)
unfolding parse_frames read_on
read_on_frames zero g x y bs b b' p q = absurd (omega (arith, p))
read_on_frames (suc f) zero x y bs b b' p q = absurd (omega (arith, q))
read_on_frames (suc f) (suc g) x y bs b b' p q = elim (head_cases x y b) [
  | inl e ↦ rw e (
      unfold parse in
      enough_fuel (suc g) (suc (length (x ++ y))) (x ++ y) bs (All-append _ x y b b') q
        (omega arith))
  | inr (inl (e, e')) ↦ rw (e, e') refl
  | inr (inr (id, n, found, size, l, m, e, e')) ↦
      let next = update_bucket id (on_frame n found) bs in
      let behind : drop size (x ++ y) ≡ drop size x ++ y = drop_in size x y m in
      rw (e, e')
        (ap (λ rest. parse_frames g rest next) behind
          ∙ read_on_frames f g (drop size x) y next (All-drop _ size x b) b'
              (omega (arith, p, l, m, length-drop {0} size x))
              (omega (
                arith,
                q,
                l,
                m,
                length-append {0} x y,
                length-append {0} (drop size x) y,
                length-drop {0} size x,
              )))
]

-- Wherever the connection splits the bytes, the frames are the same: taking them out of the first
-- part, and then out of what was left waiting with the second part behind it, gives the buckets and
-- the bytes left that taking them out of the whole gives. A broken length ends both alike.
pub parse-append :
    (x y : List ℕ) (bs : List Bucket)
    → IsBytes x
    → IsBytes y
    → parse (x ++ y) bs ≡ read_on y (parse x bs)
unfolding parse
parse-append x y bs b b' =
    read_on_frames (suc (length x)) (suc (length (x ++ y))) x y bs b b' (omega arith) (omega arith)
