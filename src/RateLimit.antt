-- ===== src/RateLimit.antt =====
-- services/bot-fleet-manager/internal/bot/ratelimit/limiter.go: when the messages of a bot may leave.
-- Times are nanoseconds. A rate is exact, a number of messages per a number of nanoseconds, where the
-- source has a double; half a rate is that number in twice the time. The mutex makes each call one
-- step; a slot is the time at which `Wait` lets a message go.
pub mod Slots
use iicpc.Prelude.{
  ℕ, ◌+◌, ◌-◌, ◌*◌, ◌/◌, Option, none, some, List, [], ◌∷◌, ltb, ◌==◌, if◌then◌else◌,
}

-- A rate with no messages stands for those that are not positive.
pub record Rate : Type 0 where
  pub messages : ℕ
  pub nanoseconds : ℕ

-- Whole messages per second.
abbrev pub hertz : ℕ → Rate
hertz n = record { messages = n; nanoseconds = 1_000_000_000 }

abbrev pub half : Rate → Rate
half r = record r { nanoseconds = r.nanoseconds * 2 }

-- A `time.Duration`: 64 bits with a sign. A quotient of 2^63 or more does not fit, and its conversion
-- gives the least duration, as amd64 does.
pub data Duration : Type 0 where
  lasts : ℕ → Duration
  least : Duration

unfoldable pub to_duration : ℕ → Duration
to_duration n = if ltb n 9_223_372_036_854_775_808 then lasts n else least

unfoldable pub rate_to_interval : Rate → Duration
unfolding to_duration
rate_to_interval r =
    if r.messages == 0
    then lasts 4_611_686_018_427_387_904
    else to_duration (r.nanoseconds / r.messages)

pub data Call : Type 0 where
  waits : ℕ → Call
  reduces : Call

-- The time of the last slot is `none` before the first.
pub record RateLimiter : Type 0 where
  pub max_rate_hz : Rate
  pub interval : Duration
  pub last : Option ℕ

unfoldable pub new_rate_limiter : Rate → RateLimiter
unfolding rate_to_interval
new_rate_limiter rate = record { max_rate_hz = rate; interval = rate_to_interval rate; last = none }

-- How long `Wait` waits; the last slot may lie ahead, and the time elapsed is then negative. No time
-- elapsed is below the least duration.
unfoldable pub waiting_time : ℕ → Duration → ℕ → ℕ
waiting_time now (lasts i) last = if ltb now (last + i) then last + i - now else 0
waiting_time now least last = 0

-- `r.last.Add(interval)`; the least duration is not added, since no call waits for it.
unfoldable pub add_interval : ℕ → Duration → ℕ
add_interval last (lasts i) = last + i
add_interval last least = last

-- `Wait`, and how long it waits. A call that waits moves the last slot by the interval, which is the
-- time until which it waits.
unfoldable pub wait : ℕ → RateLimiter → RateLimiter × ℕ
unfolding waiting_time add_interval
wait now r = elim r.last [
  | none ↦ (record r { last = some now }, 0)
  | some last ↦
      let w = waiting_time now r.interval last in
      (record r { last = some (if ltb 0 w then add_interval last r.interval else now) }, w)
]

unfoldable pub reduce_rate : RateLimiter → RateLimiter
unfolding rate_to_interval
reduce_rate r = record r {
  max_rate_hz = half r.max_rate_hz;
  interval = rate_to_interval (half r.max_rate_hz);
}

-- The slots of a sequence of calls.
unfoldable pub slots : List Call → RateLimiter → List ℕ
unfolding wait reduce_rate
slots [] r = []
slots (waits now ∷ cs) r = let (next, w) = wait now r in (now + w) ∷ slots cs next
slots (reduces ∷ cs) r = slots cs (reduce_rate r)
