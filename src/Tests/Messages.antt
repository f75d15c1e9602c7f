-- ===== src/Tests/Messages.antt =====
-- A session of three FIX messages, and a limiter that is halved (generator.go, limiter.go).
use iicpc.Prelude.{
  ℕ, zero, suc, ◌+◌, ◌*◌, ◌≤◌, ◌%◌, ◌≡◌, ◌⊎◌, refl, true, false, some, List, [], ◌∷◌, length, drop,
  count, sum, arith,
}
use iicpc.Prelude.Decimal.{decimal}
use iicpc.Artifact.{Text}
use iicpc.Fix.{
  Order, limit_order, market_order, cancel_replace, Generator, generate, verify_checksum,
  build_message, three_digits,
}
use iicpc.Fix.Orders.{payload_of, verify_checksum-generate}
use iicpc.Fix.Detection.{verify_checksum-changed}
use iicpc.RateLimit.{Rate, hertz, Call, waits, reduces, new_rate_limiter, slots}
use iicpc.RateLimit.Slots.{is_within, interval_of, slots-le}

-- "B", "1" and "2".
abbrev generator : Generator
generator = record { benchmark_run_id = 66 ∷ []; bot_id = 49 ∷ []; seq_num = 0 }

abbrev order : Order ℕ
order = limit_order (49 ∷ []) 10 150

-- 8=FIX.4.2, 9=60, 35=D, 34=1, 52=7, 11=B-1-1, 55=AAPL, 54=1, 38=10, 44=150, 40=2, 59=0, 10=202.
abbrev message : Text
message = (generate decimal 7 order generator).1.raw

starts_with_8 : message ≡ 56 ∷ drop 1 message
unfolding generate build_message decimal
starts_with_8 = refl

is_long : 8 ≤ length (drop 1 message)
unfolding generate build_message decimal three_digits
is_long = omega arith

verify_checksum-generate_example :
    verify_checksum message ≡ (some (sum (payload_of decimal 7 order generator) % 256), true)
verify_checksum-generate_example = verify_checksum-generate decimal 7 order generator

verify_checksum-changed_example : (verify_checksum (57 ∷ drop 1 message)).1 ≡ false
verify_checksum-changed_example =
    verify_checksum-changed decimal 7 order generator [] (drop 1 message) 56 57 starts_with_8
      is_long (omega arith) (omega arith) (λ e. absurd (omega (arith, e)))

abbrev session : List (ℕ × Order ℕ)
session =
    (7, order)
    ∷ (8, market_order (50 ∷ []) 3)
    ∷ (9, cancel_replace (66 ∷ 45 ∷ 49 ∷ 45 ∷ 49 ∷ []) (49 ∷ []) 5 149)
    ∷ []

abbrev calls : List Call
calls = waits 100 ∷ waits 101 ∷ waits 102 ∷ reduces ∷ waits 103 ∷ waits 500 ∷ []

-- Ten nanoseconds to a message.
abbrev start_rate : Rate
start_rate = hertz 100_000_000

some_slots : slots calls (new_rate_limiter start_rate) ≡ 100 ∷ 110 ∷ 120 ∷ 140 ∷ 500 ∷ []
unfolding slots new_rate_limiter
some_slots = refl

slots-le_example :
    let n = count (is_within 100 140) (slots calls (new_rate_limiter start_rate)) in
    (n ≡ 0) ⊎ (n * interval_of start_rate + 100 ≤ 140 + interval_of start_rate)
slots-le_example = slots-le start_rate calls 100 140 (omega arith) (omega arith)

-- The calls that halve a rate a number of times.
halvings : ℕ → List Call → List Call
halvings zero cs = cs
halvings (suc n) cs = reduces ∷ halvings n cs

-- After 47 halvings of the rate of an aggressive taker the messages do not wait at all.
overflow_slots :
    slots (halvings 47 (waits 5 ∷ waits 6 ∷ waits 7 ∷ [])) (new_rate_limiter (hertz 10_000))
    ≡ 5 ∷ 6 ∷ 7 ∷ []
unfolding slots new_rate_limiter halvings
overflow_slots = refl
