-- ===== src/Tests/Streams.antt =====
-- A stream of one contestant's updates, and a page over both interfaces (grpc/server.go).
use iicpc.Prelude.{
  ℕ, zero, suc, ◌≡◌, ◌⊎◌, true, false, none, some, Option, List, [], ◌∷◌, map, filter, String,
  arith, if◌then◌else◌,
}
use iicpc.Board.{Member, parse_pagination, fetch_from_redis}
use iicpc.Stream.{
  Entry, Update, Event, message, closed, waiting, ended, send_failed, no_snapshot, wants,
  get_leaderboard, stream_leaderboard,
}
use iicpc.Stream.Agreement.{view, http_view, get_leaderboard-agrees}
use iicpc.Stream.Sends.{accepted, is_short, due, stops, stream_leaderboard-sends}
use iicpc.Tests.Boards.{list_board, numbers}

abbrev standings : List Member
standings = ("ann", 9) ∷ ("bob", 5) ∷ []

abbrev raise : String → Update
raise c = record {
  kind = "SCORE_UPDATE";
  entry = some (record { rank = 1; contestant_id = c; composite_score = 10 });
}

-- Messages as numbers: 0 is malformed, 1 is about ann and any other about bob.
abbrev unmarshal : ℕ → Option Update
unmarshal zero = none
unmarshal (suc zero) = some (raise "ann")
unmarshal (suc (suc n)) = some (raise "bob")

abbrev events : List (Event ℕ)
events = message 0 ∷ message 2 ∷ message 1 ∷ message 1 ∷ closed ∷ message 1 ∷ []

-- The second send about ann is the last that is taken.
stream_leaderboard-sends_example :
    let o = stream_leaderboard unmarshal list_board false "ann" (some 2) standings events in
    ((false ≡ true) × (o ≡ ([], no_snapshot)))
    ⊎ ((page : List Entry × ℕ) × (get_leaderboard list_board false 1 100 standings ≡ some page)
        × (o.0 ≡ accepted (some 2) (filter (wants "ann") (due unmarshal page.0 events)))
        × (o.1 ≡ (
            if is_short (some 2) (filter (wants "ann") (due unmarshal page.0 events))
            then send_failed
            else if stops unmarshal events
            then ended
            else waiting)))
stream_leaderboard-sends_example =
    stream_leaderboard-sends unmarshal list_board false "ann" (some 2) standings events

get_leaderboard-agrees_example :
    let (p, n) = parse_pagination (some 0) (some 500) in
    let http = fetch_from_redis list_board numbers (λ c. none) p n standings in
    (grpc : List Entry × ℕ) × (get_leaderboard list_board false 0 500 standings ≡ some grpc)
    × (map view grpc.0 ≡ map (http_view list_board numbers) http.0)
    × (grpc.1 ≡ http.1)
get_leaderboard-agrees_example =
    get_leaderboard-agrees list_board numbers (λ c. none) 0 500 standings (omega arith)
