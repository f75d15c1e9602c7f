-- ===== src/Stream/Agreement.antt =====
-- The pages of the gRPC server and of the HTTP handler (server.go, handler/leaderboard.go).
use iicpc.Prelude.{
  ℕ, ◌+◌, ◌-◌, ◌*◌, ◌≤◌, ◌≡◌, refl, ap, false, Option, some, List, [], ◌∷◌, map, drop, length,
  String, arith, Option-cases, inl, inr, length-take-le,
}
use iicpc.Board.{
  Member, Standings, Numbers, uint64, request_page, page_of, page_size_of, parse_pagination,
  LeaderboardEntry, rank_at, bare_entry, enrich, entries_from, fetch_from_redis,
}
use iicpc.Stream.{Entry, uint32, entries_of, store_page, get_leaderboard}

-- What both services give of an entry.
abbrev pub View : Type 0
View = ℕ × String × ℕ

abbrev pub view : Entry → View
view e = (e.rank, e.contestant_id, e.composite_score)

same_guards : (page size : ℕ) → parse_pagination (some page) (some size) ≡ request_page page size
unfolding parse_pagination page_of page_size_of request_page
same_guards page size = ground arith

within : (a n : ℕ) → a ≤ 42_949_671 → n ≤ 100 → a * n + n ≤ 4_294_967_295
within a n h k = grind arith

guards :
    (page size : ℕ)
    → page ≤ 42_949_672
    → ((request_page page size).0 - 1 ≤ 42_949_671)
      × (1 ≤ (request_page page size).1)
      × ((request_page page size).1 ≤ 100)
unfolding request_page
guards page size h = ground (arith, h)

module _ (redis : Standings) (numbers : Numbers) where
  open redis use {Board, rev_range, rev_range-slice}

  abbrev pub http_view : LeaderboardEntry redis numbers → View
  http_view e = (e.rank, e.contestant_id, e.composite_score)

  same_rank :
      (offset i : ℕ)
      → offset + i + 1 ≤ 4_294_967_295
      → uint32 (uint32 (uint32 offset + uint32 i) + 1) ≡ rank_at redis numbers offset i
  unfolding rank_at
  same_rank offset i h = ground (arith, h)

  entries_agree :
      (metas : String → Option (String → String)) (offset i : ℕ) (ms : List Member)
      → offset + i + length ms ≤ 4_294_967_295
      → map view (entries_of redis offset i ms)
        ≡ map http_view (entries_from redis numbers metas offset i ms)
  unfolding entries_of entries_from bare_entry enrich
  entries_agree metas offset i [] h = refl
  entries_agree metas offset i (m ∷ ms) h =
      let later = entries_agree metas offset (i + 1) ms (omega (arith, h)) in
      let ranked = same_rank offset i (omega (arith, h)) in
      elim (Option-cases (metas m.0)) [
        | inl e ↦
            rw (e, ranked)
              (ap (λ (vs : List View). (rank_at redis numbers offset i, m.0, m.1) ∷ vs) later)
        | inr (meta, e) ↦
            rw (e, ranked)
              (ap (λ (vs : List View). (rank_at redis numbers offset i, m.0, m.1) ∷ vs) later)
      ]

  -- A range of the set is no longer than it is asked to be.
  length-rev_range :
      (offset size : ℕ) (b : Board)
      → 1 ≤ size
      → offset + size ≤ 4_294_967_295
      → length (rev_range offset (uint64 (offset + size - 1)) b) ≤ size
  length-rev_range offset size b low high =
      let stop : uint64 (offset + size - 1) ≡ offset + size - 1 = omega (arith, high) in
      let count : offset + size - 1 + 1 - offset ≡ size = omega (arith, low) in
      rw
        (
          stop,
          rev_range-slice offset (offset + size - 1) b (omega (arith, low)) (omega (arith, high)),
          count,
        )
        (length-take-le size (drop offset (redis.ranking b)))

  same_total :
      (metas : String → Option (String → String)) (page size : ℕ) (b : Board)
      → (store_page redis page size b).1 ≡ (fetch_from_redis redis numbers metas page size b).1
  unfolding store_page fetch_from_redis
  same_total metas page size b = refl

  pages_agree :
      (metas : String → Option (String → String)) (page size : ℕ) (b : Board)
      → 1 ≤ size
      → (page - 1) * size + size ≤ 4_294_967_295
      → map view (store_page redis page size b).0
        ≡ map http_view (fetch_from_redis redis numbers metas page size b).0
  unfolding store_page fetch_from_redis
  pages_agree metas page size b low high =
      let offset : uint64 ((page - 1) * size) ≡ (page - 1) * size = omega (arith, high) in
      rw offset (
        entries_agree metas ((page - 1) * size) 0 _
          (omega (arith, high, length-rev_range ((page - 1) * size) size b low high)))

  -- For every page and page size that a request can ask for, up to page 42,949,672, the gRPC server and
  -- the HTTP handler give the same contestants with the same ranks and scores, in the same order, and
  -- the same total.
  pub get_leaderboard-agrees :
      (metas : String → Option (String → String)) (page size : ℕ) (b : Board)
      → page ≤ 42_949_672
      → let (p, n) = parse_pagination (some page) (some size) in
        let http = fetch_from_redis redis numbers metas p n b in
        (grpc : List Entry × ℕ) × (get_leaderboard redis false page size b ≡ some grpc)
        × (map view grpc.0 ≡ map http_view http.0)
        × (grpc.1 ≡ http.1)
  unfolding get_leaderboard
  get_leaderboard-agrees metas page size b h =
      let (p, n) = request_page page size in
      let (last, low, high) = guards page size h in
      rw (same_guards page size) (
        store_page redis p n b,
        refl,
        pages_agree metas p n b low (within (p - 1) n last high),
        same_total metas p n b,
      )
