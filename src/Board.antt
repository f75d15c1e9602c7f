-- ===== src/Board.antt =====
-- services/leaderboard-service/internal/leaderboard/store.go, handler/leaderboard.go and
-- grpc/server.go: the standings and their pages. The sorted set of Redis is a parameter, with what its
-- commands document; scores are whole numbers of a common unit, and what is parsed of the texts of
-- the other columns is a parameter.
pub mod Pages
pub mod Standing
pub mod Publication
use iicpc.Prelude.{
  ℕ, zero, suc, ◌+◌, ◌-◌, ◌*◌, ◌%◌, ◌≤◌, ◌<◌, ◌≡◌, Bool, true, false, not, ◌&&◌, ◌||◌, Option, none,
  some, List, [], ◌∷◌, ◌++◌, String, str_eq, leb, ltb, if◌then◌else◌, length, take, drop,
}

abbrev pub Member : Type 0
Member = String × ℕ

-- The greater of two scores: what ZADD GT leaves.
unfoldable pub raised : Option ℕ → ℕ → ℕ
raised none v = v
raised (some old) v = if ltb old v then v else old

-- `leaderboard:current`: its members from the best on, and the commands of the sources. The places of
-- a range are integers of 64 bits; those from 2 ^ 63 on are negative, and count from the end.
pub record Standings : Type 1 where
  pub Board : Type 0
  pub ranking : Board → List Member
  -- ZCARD
  pub card : Board → ℕ
  pub card-length : (b : Board) → card b ≡ length (ranking b)
  -- ZREVRANGE start stop WITHSCORES
  pub rev_range : ℕ → ℕ → Board → List Member
  pub rev_range-slice :
      (start stop : ℕ) (b : Board)
      → start ≤ stop
      → stop < 9_223_372_036_854_775_808
      → rev_range start stop b ≡ take (stop + 1 - start) (drop start (ranking b))
  -- ZSCORE
  pub score : String → Board → Option ℕ
  -- ZADD GT
  pub add_gt : String → ℕ → Board → Board
  pub score-add_gt :
      (c : String) (v : ℕ) (b : Board) → score c (add_gt c v b) ≡ some (raised (score c b) v)
  pub score-add_gt_other :
      (c d : String) (v : ℕ) (b : Board) → str_eq d c ≡ false → score d (add_gt c v b) ≡ score d b

abbrev pub uint64 : ℕ → ℕ
uint64 n = n % 18_446_744_073_709_551_616

-- A parameter of the query: `none` unless `Atoi` reads a number from it that is not negative.
unfoldable pub page_of : Option ℕ → ℕ
page_of none = 1
page_of (some n) = if leb 1 n then n else 1

unfoldable pub page_size_of : Option ℕ → ℕ
page_size_of none = 100
page_size_of (some n) = if ltb n 1 || ltb 100 n then 100 else n

-- `parsePagination`
unfoldable pub parse_pagination : Option ℕ → Option ℕ → ℕ × ℕ
unfolding page_of page_size_of
parse_pagination page page_size = (page_of page, page_size_of page_size)

-- The guards of `GetLeaderboard` of the gRPC server.
unfoldable pub request_page : ℕ → ℕ → ℕ × ℕ
request_page page page_size = (
  if ltb page 1 then 1 else page,
  if ltb page_size 1 || ltb 100 page_size then 100 else page_size,
)

-- The columns of an entry that come from elsewhere, by their names; a missing one reads as "".
pub record Numbers : Type 1 where
  pub Float : Type 0
  pub unset : Float
  pub parse_float : String → Float
  pub parse_int : String → ℕ

module _ (redis : Standings) (numbers : Numbers) where
  open redis use {Board, rev_range, score, add_gt}
  open numbers use {Float, unset, parse_float, parse_int}

  pub record LeaderboardEntry : Type 0 where
    pub rank : ℕ
    pub contestant_id : String
    pub composite_score : ℕ
    pub speed_score : Float
    pub stability_score : Float
    pub accuracy_score : Float
    pub p99_latency_ms : Float
    pub max_tps : ℕ
    pub fill_accuracy_pct : Float
    pub run_status : String
    pub benchmark_run_id : String

  -- The rank, where it fits an unsigned integer of 32 bits, and 0 otherwise.
  unfoldable pub rank_at : ℕ → ℕ → ℕ
  rank_at offset i =
      let r = uint64 (offset + i + 1) in if ltb 0 r && leb r 4_294_967_295 then r else 0

  unfoldable pub bare_entry : ℕ → ℕ → Member → LeaderboardEntry
  unfolding rank_at
  bare_entry offset i (c, v) = record {
    rank = rank_at offset i;
    contestant_id = c;
    composite_score = v;
    speed_score = unset;
    stability_score = unset;
    accuracy_score = unset;
    p99_latency_ms = unset;
    max_tps = 0;
    fill_accuracy_pct = unset;
    run_status = "COMPLETE";
    benchmark_run_id = "";
  }

  abbrev float_or : String → Float → Float
  float_or text old = if str_eq text "" then old else parse_float text

  abbrev text_or : String → String → String
  text_or text old = if str_eq text "" then old else text

  unfoldable pub enrich : (String → String) → LeaderboardEntry → LeaderboardEntry
  enrich meta e = record e {
    speed_score = float_or (meta "speed_score") e.speed_score;
    stability_score = float_or (meta "stability_score") e.stability_score;
    accuracy_score = float_or (meta "accuracy_score") e.accuracy_score;
    p99_latency_ms = float_or (meta "p99_latency_ms") e.p99_latency_ms;
    max_tps = if str_eq (meta "max_tps") "" then e.max_tps else parse_int (meta "max_tps");
    fill_accuracy_pct = float_or (meta "fill_accuracy_pct") e.fill_accuracy_pct;
    run_status = text_or (meta "run_status") e.run_status;
    benchmark_run_id = text_or (meta "benchmark_run_id") e.benchmark_run_id;
  }

  -- The loop over the members; a hash that cannot be read is `none`.
  unfoldable pub entries_from :
      (String → Option (String → String)) → ℕ → ℕ → List Member → List LeaderboardEntry
  unfolding bare_entry enrich
  entries_from metas offset i [] = []
  entries_from metas offset i (m ∷ ms) =
      let e = bare_entry offset i m in
      (elim (metas m.0) [ none ↦ e | some meta ↦ enrich meta e ])
      ∷ entries_from metas offset (i + 1) ms

  -- `fetchFromRedis`, where both commands succeed; the offset is an integer of 64 bits.
  unfoldable pub fetch_from_redis :
      (String → Option (String → String)) → ℕ → ℕ → Board → List LeaderboardEntry × ℕ
  unfolding entries_from
  fetch_from_redis metas page page_size b =
      let offset = uint64 ((page - 1) * page_size) in
      (
        entries_from metas offset 0 (rev_range offset (uint64 (offset + page_size - 1)) b),
        redis.card b,
      )

  -- `UpdateStanding`, where the command succeeds.
  unfoldable pub update_standing : String → ℕ → Board → Board
  update_standing c v b = add_gt c v b

  -- `GetStanding`: a contestant who is not there has 0.
  unfoldable pub get_standing : String → Board → ℕ
  get_standing c b = elim (score c b) [ none ↦ 0 | some v ↦ v ]

  unfoldable pub update_all : List Member → Board → Board
  unfolding update_standing
  update_all [] b = b
  update_all ((c, v) ∷ us) b = update_all us (update_standing c v b)

-- `PublishScoreWithBackoff`: the answers of the attempts, and those of the waits between them, where
-- `true` is a context that is cancelled.
pub data Published : Type 0 where
  published exhausted cancelled : Published

unfoldable pub attempts : ℕ → ℕ → (ℕ → Bool) → (ℕ → Bool) → ℕ → List ℕ × Published
attempts zero attempt fails cancels delay = ([], exhausted)
attempts (suc left) attempt fails cancels delay =
    let waits = ltb 0 attempt in
    let (waited, end) =
      attempts left (attempt + 1) fails cancels (if waits then delay * 2 else delay) in
    if waits && cancels attempt
    then ([], cancelled)
    else if fails attempt
    then ((if waits then delay ∷ waited else waited), end)
    else ((if waits then delay ∷ [] else []), published)

-- The times of the waits, in milliseconds, and the end.
unfoldable pub publish_score_with_backoff : (ℕ → Bool) → (ℕ → Bool) → List ℕ × Published
unfolding attempts
publish_score_with_backoff fails cancels = attempts 3 0 fails cancels 100
