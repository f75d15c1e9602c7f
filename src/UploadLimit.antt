-- ===== src/UploadLimit.antt =====
-- services/submission-engine/internal/ratelimit/limiter.go: the upload limit of a contestant, a Lua
-- script over a sorted set of Redis. The sorted set is a parameter, with what the commands document;
-- times are nanoseconds, which the scores of Redis, doubles, keep up to their rounding. A call may fail
-- (`Outage`), and Redis is taken to share the clock of the caller. A score that cannot be read as an
-- integer, as one that Redis prints with an exponent, is an outage.
pub mod Window
pub mod Retry
use iicpc.Prelude.{
  ℕ, ◌+◌, ◌-◌, ◌*◌, ◌/◌, ◌≡◌, Bool, true, false, not, Option, none, some, List, [], ◌∷◌, String,
  All, ◌≤◌, ◌<◌, str_eq, leb, ltb, if◌then◌else◌, length, filter, any,
}
use mathlib.Core.List.{Perm}
use iicpc.Prelude.Sorting.{IsSorted, lower}

abbrev pub score : ℕ × String → ℕ
score e = e.0

-- The times of UnixNano are below 2^63.
abbrev pub end_of_time : ℕ
end_of_time = 9_223_372_036_854_775_808

-- One key of Redis that holds a sorted set: its entries in the order of their scores, and the
-- commands that the script calls. Scores and bounds are doubles: a whole number is rounded, below 2^63
-- to one at most 512 from it, in which order is kept.
pub record SortedSet : Type 1 where
  pub round : ℕ → ℕ
  pub round-mono : (x y : ℕ) → x ≤ y → round x ≤ round y
  pub round-near : (x : ℕ) → x < end_of_time → (x ≤ round x + 512) × (round x ≤ x + 512)
  pub Set : Type 0
  pub entries : Set → List (ℕ × String)
  pub ascending : (s : Set) → IsSorted (lower score) (entries s)
  pub empty : Set
  pub entries-empty : entries empty ≡ []
  -- ZREMRANGEBYSCORE key 0 max
  pub remove_range : ℕ → Set → Set
  pub entries-remove_range :
      (max : ℕ) (s : Set)
      → entries (remove_range max s) ≡ filter (λ e. not (leb (score e) (round max))) (entries s)
  -- ZCARD key
  pub card : Set → ℕ
  pub card-length : (s : Set) → card s ≡ length (entries s)
  -- The score of ZRANGE key 0 0 WITHSCORES, in digits that read as that score
  pub oldest : Set → Option ℕ
  pub oldest-head :
      (s : Set) (e : ℕ × String) (es : List (ℕ × String))
      → entries s ≡ e ∷ es
      → (x : ℕ) × (oldest s ≡ some x) × (round x ≡ score e)
  -- ZADD key score member, for a member that is not there
  pub add : ℕ → String → Set → Set
  pub entries-add :
      (now : ℕ) (m : String) (s : Set)
      → any (λ e. str_eq e.1 m) (entries s) ≡ false
      → Perm (entries (add now m s)) ((round now, m) ∷ entries s)

abbrev pub max_uploads : ℕ
max_uploads = 5

-- The window of 3600 seconds, in nanoseconds.
abbrev pub window : ℕ
window = 3_600_000_000_000

abbrev pub second : ℕ
second = 1_000_000_000

pub data Reply : Type 0 where
  allowed : Reply
  limited : ℕ → Reply
  redis_error unreadable_score : Reply

pub record Outage : Type 0 where
  pub script_fails : Bool
  pub score_unreadable : Bool

module _ (redis : SortedSet) where
  open redis use {Set, empty, remove_range, card, oldest, add}

  -- A key with the time at which it expires.
  pub record Key : Type 0 where
    pub members : Set
    pub expires_at : ℕ

  -- An expired key reads as the empty set.
  unfoldable pub live : ℕ → Key → Set
  live now k = if leb k.expires_at now then empty else k.members

  -- The first command: scores up to `now - window - 1` go. A bound below 0 removes nothing.
  unfoldable pub pruned : ℕ → Key → Set
  unfolding live
  pruned now k = if ltb window now then remove_range (now - window - 1) (live now k) else live now k

  -- `Retry-After`: the seconds, rounded up, until the oldest entry leaves the window; at least 1.
  unfoldable pub retry_after : ℕ → ℕ → ℕ
  retry_after now old =
      let seconds = (old + window - now + (second - 1)) / second in
      if ltb seconds 1 then 1 else seconds

  -- `Allow`, with the script's commands in their order.
  unfoldable pub allow : Outage → ℕ → String → Key → Key × Reply
  unfolding pruned retry_after
  allow o now member k =
      let s = pruned now k in
      if o.script_fails
      then (k, redis_error)
      else if leb max_uploads (card s)
      then (
        record k { members = s },
        elim (oldest s) [
          | none ↦ unreadable_score
          | some old ↦
              if o.score_unreadable then unreadable_score else limited (retry_after now old)
        ],
      )
      else (record { members = add now member s; expires_at = now + window }, allowed)
