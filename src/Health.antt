-- ===== src/Health.antt =====
-- services/sandbox-controller/internal/controller/healthcheck.go: the poll of a sandbox. The answers of
-- the probes are a list, one for each tick; the list ends where the context is cancelled.
pub mod Streaks
use iicpc.Prelude.{ℕ, ◌+◌, Bool, ◌||◌, true, false, List, [], ◌∷◌, ltb, leb, ◌==◌, if◌then◌else◌}

-- What comes of the request of a probe: an error, or the status of the response.
pub data Answer : Type 0 where
  no_response : Answer
  status : ℕ → Answer

-- `probe` returns an error.
unfoldable pub probe_fails : Answer → Bool
probe_fails no_response = true
probe_fails (status code) = ltb code 200 || leb 300 code

pub record HealthChecker : Type 0 where
  pub consecutive_fail : ℕ
  pub max_fails : ℕ

pub data Ending : Type 0 where
  unhealthy cancelled : Ending

-- A threshold of 0 stands for every one that is not positive.
unfoldable pub threshold : HealthChecker → ℕ
threshold h = if h.max_fails == 0 then 3 else h.max_fails

-- One tick: the checker after it, and whether `onUnhealthy` is called.
unfoldable pub tick : HealthChecker → Answer → HealthChecker × Bool
unfolding probe_fails threshold
tick h a =
    if probe_fails a
    then (
      record h { consecutive_fail = h.consecutive_fail + 1 },
      leb (threshold h) (h.consecutive_fail + 1),
    )
    else (record h { consecutive_fail = 0 }, false)

-- `Run`: how it ends, and after how many probes.
unfoldable pub run : HealthChecker → List Answer → Ending × ℕ
unfolding tick
run h [] = (cancelled, 0)
run h (a ∷ rest) =
    let (h', calls) = tick h a in
    let (ending, n) = run h' rest in if calls then (unhealthy, 1) else (ending, n + 1)
