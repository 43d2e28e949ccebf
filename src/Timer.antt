-- ===== src/Timer.antt =====
-- The countdown of the toolbar: bsg-frontend/apps/extension/hooks/useRoundTimer.ts.
use bsg.Prelude.{
  ℕ, ◌+◌, ◌*◌, ◌/◌, ◌%◌, ◌≤◌, ◌<◌, Option, none, some, [], ◌∷◌, ◌++◌, ◌≡◌, refl, arith,
  if◌then◌else◌, Text, codes, ltb, zero, suc,
}
use bsg.Prelude.Int.{ℤ, pos, negsuc, ◌-ℤ◌, Number, finite, nan}
use bsg.Prelude.Decimal.{natural_text}

pub record Clock : Type 0 where
  pub hours : ℕ
  pub minutes : ℕ
  pub seconds : ℕ

unfoldable pub clock : ℕ → Clock
clock diff = record {
  hours = diff / 3_600_000;
  minutes = diff % 3_600_000 / 60_000;
  seconds = diff % 60_000 / 1_000;
}

-- `${n < 10 ? '0' : ''}${n}`
abbrev pub two_digits : ℕ → Text
two_digits n = if ltb n 10 then b'0' ∷ natural_text n else natural_text n

unfoldable pub clock_text : Clock → Text
clock_text c =
    (if ltb 0 c.hours then natural_text c.hours ++ codes ":" else [])
    ++ (two_digits c.minutes ++ (codes ":" ++ two_digits c.seconds))

abbrev pub no_time : Text
no_time = codes "00:00"

-- What `updateTimer` shows when `diff` milliseconds are left; `diff <= 0` shows no time.
abbrev pub shown : ℤ → Text
shown (pos zero) = no_time
shown (pos (suc n)) = clock_text (clock (suc n))
shown (negsuc n) = no_time

abbrev time_left : Number → ℤ → Text
time_left (finite (pos zero)) now = no_time
time_left (finite end) now = shown (end -ℤ now)
time_left nan now = no_time

unfoldable pub time_remaining : Option Number → ℤ → Text
unfolding clock_text clock
time_remaining none now = no_time
time_remaining (some end) now = time_left end now

-- The parts of the clock are in range and lose less than a second of the time left.
clock_lem :
    (diff : ℕ)
    → let c = clock diff in
      (c.minutes < 60)
      × (c.seconds < 60)
      × ((c.hours * 3600 + c.minutes * 60 + c.seconds) * 1000 ≤ diff)
      × (diff < (c.hours * 3600 + c.minutes * 60 + c.seconds + 1) * 1000)
unfolding clock
clock_lem diff = omega arith

time_remaining_runs :
    (time_remaining (some (finite (pos 3_600_000))) (pos 0) ≡ codes "1:00:00")
    × (time_remaining (some (finite (pos 69_999))) (pos 5_000) ≡ codes "01:04")
    × (time_remaining (some (finite (pos 5_000))) (pos 69_999) ≡ codes "00:00")
unfolding time_remaining natural_text ◌-ℤ◌
time_remaining_runs = (refl, refl, refl)
