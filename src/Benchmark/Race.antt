-- ===== src/Benchmark/Race.antt =====
-- `CreateRun` of service.go with several handlers at work: the check of the limit and the transaction
-- are separate steps.
use mathlib.Core.List.{append-nil, append_assoc}
use iicpc.Prelude.{
  ℕ, ◌+◌, ◌<◌, ◌≡◌, refl, false, none, some, List, [], ◌∷◌, ◌++◌, String, str_eq, eq_iff, map,
  arith, All, length,
}
use iicpc.Benchmark.{
  BenchmarkRun, Database, Outage, CreateRunRequest, find_run, count_non_terminal_runs,
  max_concurrent_runs, refuse_create, insert_run, created, new_run,
}
use iicpc.Benchmark.Rows.{find_run-append}
use iicpc.Benchmark.History.{created-count}
use iicpc.Benchmark.Outcomes.{IsUp}

-- A request with the id and the time of its new row.
abbrev pub Call : Type 0
Call = CreateRunRequest × String × ℕ

-- Several handlers at work: `pending` holds the calls that passed the check and have not yet begun
-- their transaction.
pub record Server : Type 0 where
  pub db : Database
  pub pending : List Call

pub data Move : Type 0 where
  checks : Outage → Call → Move
  inserts : Outage → Move

begin_next : Outage → Database → List Call → Server
begin_next o db [] = record { db = db; pending = [] }
begin_next o db ((req, i, now) ∷ qs) = record { db = (insert_run o db req i now).0; pending = qs }

pub move : Server → Move → Server
unfolding begin_next
move s (checks o q) = elim (refuse_create o s.db q.0) [
  | some e ↦ s
  | none ↦ record s { pending = s.pending ++ q ∷ [] }
]
move s (inserts o) = begin_next o s.db s.pending

pub move_all : Server → List Move → Server
unfolding move
move_all s [] = s
move_all s (m ∷ ms) = move_all (move s m) ms

-- The ids are free, and no two are the same.
abbrev pub AreFresh : List BenchmarkRun → List Call → Type 0
AreFresh rs [] = Unit
AreFresh rs ((req, i, now) ∷ qs) =
    (find_run i rs ≡ none) × All (λ (q : Call). str_eq i q.1 ≡ false) qs × AreFresh rs qs

append-AreFresh :
    (rs : List BenchmarkRun) (r : BenchmarkRun) (qs : List Call)
    → All (λ (q : Call). str_eq r.id q.1 ≡ false) qs
    → AreFresh rs qs
    → AreFresh (rs ++ r ∷ []) qs
append-AreFresh rs r [] other fresh = tt
append-AreFresh rs r ((req, i, now) ∷ qs) other fresh =
    (ground (arith, find_run-append i rs r), fresh.1, append-AreFresh rs r qs other.1 fresh.2)

insert_run-created :
    (o : Outage) (db : Database) (req : CreateRunRequest) (i : String) (now : ℕ)
    → IsUp o
    → o.inserts_run ≡ false
    → find_run i db.runs ≡ none
    → (insert_run o db req i now).0 ≡ created db req i now
unfolding insert_run
insert_run-created o db req i now up works free = ground arith

move_all-append :
    (s : Server) (ms ns : List Move) → move_all s (ms ++ ns) ≡ move_all (move_all s ms) ns
unfolding move_all
move_all-append s [] ns = refl
move_all-append s (m ∷ ms) ns = move_all-append (move s m) ms ns

-- While no transaction begins, every check sees the same tables.
every_pass :
    (o : Outage) (db : Database) (c : String) (done qs : List Call)
    → o.counts ≡ false
    → count_non_terminal_runs c db.runs < max_concurrent_runs
    → All (λ (q : Call). q.0.contestant_id ≡ c) qs
    → move_all (record { db = db; pending = done }) (map (checks o) qs)
      ≡ record { db = db; pending = done ++ qs }
unfolding move_all refuse_create move
every_pass o db c done [] up room same = ground (arith, append-nil done)
every_pass o db c done (q ∷ qs) up room same =
    ground
      (arith, every_pass o db c (done ++ q ∷ []) qs up room same.1, append_assoc done (q ∷ []) qs)

every_inserted :
    (o : Outage) (db : Database) (c : String) (qs : List Call)
    → IsUp o
    → o.inserts_run ≡ false
    → All (λ (q : Call). q.0.contestant_id ≡ c) qs
    → AreFresh db.runs qs
    → count_non_terminal_runs c
        (move_all (record { db = db; pending = qs }) (map (λ q. inserts o) qs)).db.runs
      ≡ count_non_terminal_runs c db.runs + length qs
unfolding move_all move created new_run
every_inserted o db c [] up works same fresh = omega arith
every_inserted o db c ((req, i, now) ∷ qs) up works same fresh =
    rw (insert_run-created o db req i now up works fresh.0, move_all, move)
      (ground (
        arith,
        every_inserted o (created db req i now) c qs up works same.1
            (append-AreFresh db.runs (new_run req i now) qs fresh.1 fresh.2),
        created-count c db req i now,
        eq_iff req.contestant_id c,
      ))

-- Let a contestant have fewer non-terminal runs than the limit. If any number of requests of that
-- contestant, with free ids, are all checked before the first of their transactions begins, and the
-- database is up, then all of them are inserted: the contestant's count grows by their number.
pub race-exceeds :
    (o : Outage) (db : Database) (c : String) (qs : List Call)
    → IsUp o
    → o.inserts_run ≡ false
    → o.counts ≡ false
    → count_non_terminal_runs c db.runs < max_concurrent_runs
    → All (λ (q : Call). q.0.contestant_id ≡ c) qs
    → AreFresh db.runs qs
    → count_non_terminal_runs c
        (move_all
          (record { db = db; pending = [] })
          (map (checks o) qs ++ map (λ q. inserts o) qs)).db.runs
      ≡ count_non_terminal_runs c db.runs + length qs
race-exceeds o db c qs up works counts room same fresh =
    rw
      (
        move_all-append (record { db = db; pending = [] }) (map (checks o) qs)
            (map (λ q. inserts o) qs),
        every_pass o db c [] qs counts room same,
      )
      (every_inserted o db c qs up works same fresh)
