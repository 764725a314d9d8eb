-- ===== src/Feed/Course.antt =====
-- src/feedhandler.cpp, `main`: when the loop has a reason to end.
use mega_feed_handler.Base.{
  ℕ, suc, ◌<◌, ◌≡◌, ◌≢◌, ◌==◌, ltb, true, false, Option, none, some, List, [], ◌∷◌, arith,
  if◌then◌else◌, Bool-cases, inl, inr,
}
use mega_feed_handler.Base.Bits.{sub64}
use mega_feed_handler.Feed.Main.{
  Arrival, interrupted, arrived, Wake, Session, Reason, by_signal, by_silence, never_heard,
  still_running, verdict, idle_stop_ns, start_timeout_ns,
}

-- The clock behind the last packet, which is zero before the first.
abbrev pub heard_by : ℕ → List Arrival → ℕ
heard_by last [] = last
heard_by last (interrupted ∷ arrivals) = heard_by last arrivals
heard_by last (arrived buf now ∷ arrivals) = heard_by now arrivals

abbrev pub last_heard : ℕ → Wake → ℕ
last_heard last w = heard_by last (if w.ready then w.arrivals else [])

-- There has been a packet, and nothing for more than two seconds since.
abbrev pub IsSilent : ℕ → ℕ → Type 0
IsSilent last now = (last ≢ 0) × (2_000_000_000 < sub64 now last)

-- There has been no packet at all for more than ten seconds.
abbrev pub IsUnheard : ℕ → ℕ → ℕ → Type 0
IsUnheard started last now = (last ≡ 0) × (10_000_000_000 < sub64 now started)

-- Rounds behind which the loop has no reason to end, and what comes next, from a time of the last
-- packet on: a round that finds `g_stop` set, a round behind which it has been silent for too long
-- since the last packet or the start, or no round at all.
pub data Course (started : ℕ) : ℕ → List Wake → ℕ → Reason → Type 0 where
  all_run : {last : ℕ} → Course started last [] 0 still_running
  stopped_before :
      {last : ℕ} {wakes : List Wake} (w : Wake)
      → w.stopped ≡ true
      → Course started last (w ∷ wakes) 0 by_signal
  silent_behind :
      {last : ℕ} {wakes : List Wake} (w : Wake)
      → w.stopped ≡ false
      → IsSilent (last_heard last w) w.now
      → Course started last (w ∷ wakes) 1 by_silence
  unheard_behind :
      {last : ℕ} {wakes : List Wake} (w : Wake)
      → w.stopped ≡ false
      → IsUnheard started (last_heard last w) w.now
      → Course started last (w ∷ wakes) 1 never_heard
  goes_on :
      {last run : ℕ} {wakes : List Wake} {reason : Reason} (w : Wake)
      → w.stopped ≡ false
      → ¬ IsSilent (last_heard last w) w.now
      → ¬ IsUnheard started (last_heard last w) w.now
      → Course started (last_heard last w) wakes run reason
      → Course started last (w ∷ wakes) (suc run) reason

-- What `verdict` says, in nanoseconds.
abbrev pub IsVerdict : ℕ → ℕ → ℕ → Option Reason → Type 0
IsVerdict started now last none = (¬ IsSilent last now) × (¬ IsUnheard started last now)
IsVerdict started now last (some by_silence) = IsSilent last now
IsVerdict started now last (some never_heard) = IsUnheard started last now
IsVerdict started now last (some by_signal) = ⊥
IsVerdict started now last (some still_running) = ⊥

pub verdict-IsVerdict :
    (started now : ℕ) (s : Session) → IsVerdict started now s.last_receive (verdict started now s)
unfolding verdict
verdict-IsVerdict started now s = elim (Bool-cases (s.last_receive == 0)) [
  | inl unheard ↦ elim (Bool-cases (ltb start_timeout_ns (sub64 now started))) [
    | inl late ↦ rw (unheard, late) (ground arith)
    | inr early ↦ rw (unheard, early) (ground arith)
  ]
  | inr heard ↦ elim (Bool-cases (ltb idle_stop_ns (sub64 now s.last_receive))) [
    | inl late ↦ rw (heard, late) (ground arith)
    | inr early ↦ rw (heard, early) (ground arith)
  ]
]
