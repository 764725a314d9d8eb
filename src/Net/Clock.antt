-- ===== src/Net/Clock.antt =====
-- src/net.h: times as `timespec`, and the two loops that sleep until a time.
use mega_feed_handler.Base.{
  ℕ, ◌+◌, ◌-◌, ◌*◌, ◌/◌, ◌%◌, ◌<◌, ◌≡◌, Bool, List, [], ◌∷◌, arith, ltb, leb, All, if◌then◌else◌,
  if_cases,
}
use mega_feed_handler.Base.Bits.{u64}

pub record Timespec : Type 0 where
  pub tv_sec : ℕ
  pub tv_nsec : ℕ

-- `now_ns` and `wall_ns`, of what the clock gives.
unfoldable pub now_ns : Timespec → ℕ
now_ns ts = u64 (ts.tv_sec * 1_000_000_000 + ts.tv_nsec)

unfoldable pub timespec_of : ℕ → Timespec
timespec_of ns = record { tv_sec = ns / 1_000_000_000; tv_nsec = ns % 1_000_000_000 }

-- `ms_sleep`: what it hands to `nanosleep`.
unfoldable pub ms_sleep : ℕ → Timespec
ms_sleep ms = record { tv_sec = ms / 1000; tv_nsec = ms % 1000 * 1_000_000 }

-- What a round of a loop meets: `g_stop`, and the clock.
pub record Moment : Type 0 where
  pub stopped : Bool
  pub now : ℕ

-- A nap, with the time at which it starts.
pub record Nap : Type 0 where
  pub from : ℕ
  pub length : Timespec

-- The naps of `sleep_until_ns`, over the moments of its rounds.
unfoldable pub sleep_until_ns : ℕ → List Moment → List Nap
sleep_until_ns target_ns [] = []
sleep_until_ns target_ns (m ∷ moments) =
    let rest = sleep_until_ns target_ns moments in
    if m.stopped
    then []
    else (if leb target_ns m.now
        then []
        else record { from = m.now; length = timespec_of (target_ns - m.now) } ∷ rest)

-- The naps of `sleep_spin_until`: in the last of the time it spins.
unfoldable pub sleep_spin_until : ℕ → List Moment → List Nap
sleep_spin_until target_ns [] = []
sleep_spin_until target_ns (m ∷ moments) =
    let rest = sleep_spin_until target_ns moments in
    if m.stopped
    then []
    else (if leb target_ns m.now
        then []
        else (if ltb 200_000 (target_ns - m.now)
            then record { from = m.now; length = timespec_of (target_ns - m.now - 150_000) } ∷ rest
            else rest))

-- A nap that `nanosleep` accepts and that ends this long before the target.
abbrev pub IsNap : ℕ → ℕ → Nap → Type 0
IsNap early target_ns nap =
    (nap.from + nap.length.tv_sec * 1_000_000_000 + nap.length.tv_nsec + early ≡ target_ns)
    × (nap.length.tv_nsec < 1_000_000_000)

-- No nap goes past the target: the first loop naps up to it, and the second up to 150 µs before.
pub sleep_until_ns-IsNap :
    (target_ns : ℕ) (moments : List Moment)
    → All (IsNap 0 target_ns) (sleep_until_ns target_ns moments)
unfolding sleep_until_ns timespec_of
sleep_until_ns-IsNap target_ns [] = tt
sleep_until_ns-IsNap target_ns (m ∷ moments) =
    let rest = sleep_until_ns-IsNap target_ns moments in
    if_cases (All (IsNap 0 target_ns)) m.stopped (λ _. tt)
      (λ _.
        if_cases (All (IsNap 0 target_ns)) (leb target_ns m.now) (λ _. tt)
          (λ early. ((ground arith, omega arith), rest)))

pub sleep_spin_until-IsNap :
    (target_ns : ℕ) (moments : List Moment)
    → All (IsNap 150_000 target_ns) (sleep_spin_until target_ns moments)
unfolding sleep_spin_until timespec_of
sleep_spin_until-IsNap target_ns [] = tt
sleep_spin_until-IsNap target_ns (m ∷ moments) =
    let rest = sleep_spin_until-IsNap target_ns moments in
    let P = All (IsNap 150_000 target_ns) in
    if_cases P m.stopped (λ _. tt)
      (λ _.
        if_cases P (leb target_ns m.now) (λ _. tt)
          (λ early.
            if_cases P (ltb 200_000 (target_ns - m.now))
              (λ long. ((ground arith, omega arith), rest)) (λ _. rest)))
