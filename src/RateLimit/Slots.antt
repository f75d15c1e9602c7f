-- ===== src/RateLimit/Slots.antt =====
-- How many messages the limiter lets go in a span of time (limiter.go).
use iicpc.Prelude.{
  ℕ, ◌+◌, ◌*◌, ◌/◌, ◌≤◌, ◌<◌, ◌≡◌, ◌⊎◌, inl, inr, refl, Bool, ◌&&◌, Option, none, some, List, [],
  ◌∷◌, arith, ltb, leb, if◌then◌else◌, Bool-cases, count,
}
use native.Mathlib.Nat.{le-div_iff_mul-le, div-mul-le_self}
use iicpc.RateLimit.{
  Rate, half, lasts, to_duration, rate_to_interval, new_rate_limiter, wait, waiting_time,
  add_interval, reduce_rate, Call, waits, reduces, slots,
}

-- Each time is at least an interval after the one before, the first not before a bound.
abbrev pub AreSpaced : ℕ → ℕ → List ℕ → Type 0
AreSpaced i bound [] = Unit
AreSpaced i bound (t ∷ ts) = (bound ≤ t) × AreSpaced i (t + i) ts

abbrev pub is_within : ℕ → ℕ → ℕ → Bool
is_within a b t = leb a t && leb t b

count-AreSpaced :
    (i bound a b : ℕ) (ts : List ℕ)
    → AreSpaced i bound ts
    → (count (is_within a b) ts ≡ 0)
      ⊎ ((count (is_within a b) ts * i + bound ≤ b + i)
          × (count (is_within a b) ts * i + a ≤ b + i))
count-AreSpaced i bound a b [] s = inl refl
count-AreSpaced i bound a b (t ∷ ts) s = elim (count-AreSpaced i (t + i) a b ts s.1) [
  | inl no_more ↦ elim (Bool-cases (is_within a b t)) [
    | inl inside ↦ rw (inside, no_more) (inr (ground (arith, inside, s.0), ground (arith, inside)))
    | inr outside ↦ rw (outside, no_more) (inl refl)
  ]
  | inr (h, k) ↦ elim (Bool-cases (is_within a b t)) [
    | inl inside ↦ rw inside (inr (ground (arith, inside, s.0, h), ground (arith, inside, h)))
    | inr outside ↦ rw outside (inr (omega (arith, h, s.0), omega (arith, k)))
  ]
]

plus_zero : (n : ℕ) → n + 0 ≡ n
plus_zero n = omega arith

-- The first time at which a slot may be given.
abbrev bound_of : ℕ → Option ℕ → ℕ
bound_of i none = 0
bound_of i (some last) = last + i

-- The rate after the halvings among the calls.
abbrev pub final_rate : List Call → Rate → Rate
final_rate [] r = r
final_rate (waits now ∷ cs) r = final_rate cs r
final_rate (reduces ∷ cs) r = final_rate cs (half r)

-- The interval of a rate in nanoseconds, rounded down.
abbrev pub interval_of : Rate → ℕ
interval_of r = r.nanoseconds / r.messages

-- A rate of at least one message whose interval fits in 63 bits.
abbrev pub HasInterval : Rate → Type 0
HasInterval r = (0 < r.messages) × (interval_of r < 9_223_372_036_854_775_808)

div_mono : (a b n : ℕ) → 0 < n → a ≤ b → a / n ≤ b / n
div_mono a b n p h = (le-div_iff_mul-le p).1 (omega (arith, div-mul-le_self a n, h))

final_rate-le :
    (cs : List Call) (r : Rate)
    → 0 < r.messages
    → (interval_of r ≤ interval_of (final_rate cs r)) × ((final_rate cs r).messages ≡ r.messages)
final_rate-le [] r p = (omega arith, refl)
final_rate-le (waits now ∷ cs) r p = final_rate-le cs r p
final_rate-le (reduces ∷ cs) r p =
    let (h, e) = final_rate-le cs (half r) p in
    (omega (arith, h, div_mono r.nanoseconds (r.nanoseconds * 2) r.messages p (omega arith)), e)

rate_to_interval-lasts : (r : Rate) → HasInterval r → rate_to_interval r ≡ lasts (interval_of r)
unfolding rate_to_interval to_duration
rate_to_interval-lasts r (p, h) = ground (arith, p, h)

-- While the slots are at least an interval apart.
slot_bound :
    (i n now last : ℕ)
    → i ≤ n
    → (last + i ≤ now + waiting_time now (lasts n) last)
      × ((if ltb 0 (waiting_time now (lasts n) last) then last + n else now)
          ≡ now + waiting_time now (lasts n) last)
unfolding waiting_time
slot_bound i n now last h = (ground (arith, h), ground arith)

slots-AreSpaced :
    (i : ℕ) (cs : List Call) (rate : Rate) (last : Option ℕ)
    → 0 < rate.messages
    → i ≤ interval_of rate
    → interval_of (final_rate cs rate) < 9_223_372_036_854_775_808
    → AreSpaced i
        (bound_of i last)
        (slots cs (record { max_rate_hz = rate; interval = lasts (interval_of rate); last = last }))
unfolding slots wait reduce_rate add_interval
slots-AreSpaced i [] rate last p h f = tt
slots-AreSpaced i (reduces ∷ cs) rate last p h f =
    let (le, e) = final_rate-le cs (half rate) p in
    let more = div_mono rate.nanoseconds (rate.nanoseconds * 2) rate.messages p (omega arith) in
    rw (rate_to_interval-lasts (half rate) (p, omega (arith, le, f)))
      (slots-AreSpaced i cs (half rate) last p (omega (arith, more, h)) f)
slots-AreSpaced i (waits now ∷ cs) rate none p h f =
    (omega arith, rw (plus_zero now) (slots-AreSpaced i cs rate (some now) p h f))
slots-AreSpaced i (waits now ∷ cs) rate (some last) p h f =
    let n = interval_of rate in
    let (late, same) = slot_bound i n now last h in
    (late, rw same (slots-AreSpaced i cs rate (some (now + waiting_time now (lasts n) last)) p h f))

-- However many calls of Wait come and however fast, with the rate halved at any points between them,
-- the messages that the limiter lets go in a span of time from a to b, both included, number at most
-- one more than the span holds intervals: one interval less than they number fits in it. The
-- interval is that of the rate at the start. The rate is positive, and the interval after the last of
-- the halvings still fits in a duration, so is below 2^63 nanoseconds.
pub slots-le :
    (rate : Rate) (cs : List Call) (a b : ℕ)
    → 0 < rate.messages
    → interval_of (final_rate cs rate) < 9_223_372_036_854_775_808
    → let n = count (is_within a b) (slots cs (new_rate_limiter rate)) in
      (n ≡ 0) ⊎ (n * interval_of rate + a ≤ b + interval_of rate)
unfolding new_rate_limiter
slots-le rate cs a b p f =
    let (le, e) = final_rate-le cs rate p in
    rw (rate_to_interval-lasts rate (p, omega (arith, le, f)))
      (elim (count-AreSpaced (interval_of rate) 0 a b _
        (slots-AreSpaced (interval_of rate) cs rate none p (omega arith) f)) [
          | inl empty ↦ inl empty
          | inr (h, k) ↦ inr k
        ])
