-- ===== src/Stream.antt =====
-- services/leaderboard-service/internal/grpc/server.go: the pages, the scores and the stream of updates
-- of the gRPC server, over the sorted set of Redis. The JSON of the updates, Redis's outages, and the
-- sends that fail are parameters; the ETag and the times are left out.
pub mod Agreement
pub mod Sends
use mathlib.Core.Option.{map as map_option}
use iicpc.Prelude.{
  ℕ, zero, suc, ◌+◌, ◌-◌, ◌*◌, ◌%◌, Bool, true, false, ◌||◌, Option, none, some, List, [], ◌∷◌,
  ◌++◌, map, filter, String, str_eq, ◌==◌, if◌then◌else◌,
}
use iicpc.Board.{Member, Standings, uint64, request_page}

pub record Entry : Type 0 where
  pub rank : ℕ
  pub contestant_id : String
  pub composite_score : ℕ

-- An update on the channel; a status change has no entry.
pub record Update : Type 0 where
  pub kind : String
  pub entry : Option Entry

-- What a stream meets after its snapshot: a message, the end of its context, or of the channel.
pub data Event {ℓ} (Raw : Type ℓ) : Type ℓ where
  message : Raw → Event Raw
  context_done closed : Event Raw

pub data Ended : Type 0 where
  waiting ended send_failed no_snapshot : Ended

abbrev pub uint32 : ℕ → ℕ
uint32 n = n % 4_294_967_296

module _ (redis : Standings) where
  open redis use {Board, rev_range, card, score}

  unfoldable pub entries_of : ℕ → ℕ → List Member → List Entry
  entries_of offset i [] = []
  entries_of offset i ((c, v) ∷ ms) =
      record {
        rank = uint32 (uint32 (uint32 offset + uint32 i) + 1);
        contestant_id = c;
        composite_score = v;
      }
      ∷ entries_of offset (i + 1) ms

  -- `RedisStore.GetLeaderboard`, where both commands succeed.
  unfoldable pub store_page : ℕ → ℕ → Board → List Entry × ℕ
  store_page page page_size b =
      let offset = uint64 ((page - 1) * page_size) in
      (entries_of offset 0 (rev_range offset (uint64 (offset + page_size - 1)) b), card b)

  -- `Server.GetLeaderboard`; `none` is an error.
  unfoldable pub get_leaderboard : Bool → ℕ → ℕ → Board → Option (List Entry × ℕ)
  get_leaderboard fails page page_size b =
      let (p, size) = request_page page page_size in
      if fails then none else some (store_page p size b)

  -- `GetContestantScore`: an empty identifier is refused, and an unknown contestant has 0.
  unfoldable pub get_contestant_score : Bool → String → Board → Option ℕ
  get_contestant_score fails c b =
      if str_eq c "" || fails then none else some (elim (score c b) [ none ↦ 0 | some v ↦ v ])

-- The filter of the request: "" wants all.
abbrev pub wants_entry : String → Entry → Bool
wants_entry contestant e = str_eq contestant "" || str_eq e.contestant_id contestant

abbrev pub wants : String → Update → Bool
wants contestant u = elim u.entry [ none ↦ true | some e ↦ wants_entry contestant e ]

abbrev pub snapshot_update : Entry → Update
snapshot_update e = record { kind = "SCORE_UPDATE"; entry = some e }

-- `send`, which takes a number of updates, or all of them, before it fails.
abbrev pub takes : Option ℕ → Bool
takes none = true
takes (some zero) = false
takes (some (suc n)) = true

abbrev pub less_one : Option ℕ → Option ℕ
less_one none = none
less_one (some zero) = some zero
less_one (some (suc n)) = some n

abbrev pub sent_then : Update → List Update × Ended → List Update × Ended
sent_then u o = (u ∷ o.0, o.1)

-- One update: what follows if it is skipped, and if it is sent.
abbrev pub offer :
    Bool → Option ℕ → Update → List Update × Ended → List Update × Ended → List Update × Ended
offer wanted limit u skipped sent =
    if wanted then (if takes limit then sent_then u sent else ([], send_failed)) else skipped

abbrev pub offer_decoded :
    String
    → Option ℕ
    → Option Update
    → List Update × Ended
    → List Update × Ended
    → List Update × Ended
offer_decoded c limit none skipped sent = skipped
offer_decoded c limit (some u) skipped sent = offer (wants c u) limit u skipped sent

module _ {ℓ} {Raw : Type ℓ} (unmarshal : Raw → Option Update) where
  -- The loop over the updates. A message that is malformed or not wanted is skipped.
  unfoldable pub stream_updates : String → Option ℕ → List (Event Raw) → List Update × Ended
  stream_updates c limit [] = ([], waiting)
  stream_updates c limit (context_done ∷ es) = ([], ended)
  stream_updates c limit (closed ∷ es) = ([], ended)
  stream_updates c limit (message raw ∷ es) =
      let skipped = stream_updates c limit es in
      let sent = stream_updates c (less_one limit) es in
      offer_decoded c limit (unmarshal raw) skipped sent

  -- The loop over the entries of the snapshot, and the rest of the stream.
  unfoldable pub stream_snapshot :
      String → Option ℕ → List Entry → List (Event Raw) → List Update × Ended
  stream_snapshot c limit [] es = stream_updates c limit es
  stream_snapshot c limit (e ∷ entries) es =
      let skipped = stream_snapshot c limit entries es in
      let sent = stream_snapshot c (less_one limit) entries es in
      offer (wants_entry c e) limit (snapshot_update e) skipped sent

  abbrev pub stream_page :
      String → Option ℕ → Option (List Entry × ℕ) → List (Event Raw) → List Update × Ended
  stream_page c limit none es = ([], no_snapshot)
  stream_page c limit (some page) es = stream_snapshot c limit page.0 es

  -- `StreamLeaderboard`: what it sends, and how it ends.
  unfoldable pub stream_leaderboard :
      (redis : Standings)
      → Bool
      → String
      → Option ℕ
      → redis.Board
      → List (Event Raw)
      → List Update × Ended
  stream_leaderboard redis fails c limit b es =
      stream_page c limit (get_leaderboard redis fails 1 100 b) es
