-- ===== src/Tests/Accounts.antt =====
-- A contestant whose token is issued, used and revoked (service.go, auth.go).
use iicpc.Prelude.{
  ℕ, ◌≡◌, refl, true, false, none, some, List, [], ◌∷◌, ◌++◌, replicate, any, if◌then◌else◌,
}
use iicpc.Artifact.{Text, same_text}
use iicpc.Upload.{bearer, authenticate}
use iicpc.Contestants.{
  Tables, Call, register, issue, revoke, accounts, issue_token_with_id, insert_token,
  encode_to_string, serve_all,
}
use iicpc.Contestants.Rows.{revokes}
use iicpc.Contestants.Tokens.{issue-authenticate}

abbrev tables : Tables
tables = record {
  contestants = record { id = "ann"; handle = "ann"; email = "a@x" } ∷ [];
  tokens = [];
}

abbrev ones : List ℕ
ones = replicate 32 1

-- "01", 32 times.
abbrev raw : Text
raw =
    48 ∷ 49 ∷ 48 ∷ 49 ∷ 48 ∷ 49 ∷ 48 ∷ 49 ∷ 48 ∷ 49 ∷ 48 ∷ 49 ∷ 48 ∷ 49 ∷ 48 ∷ 49 ∷ 48 ∷ 49 ∷ 48
    ∷ 49 ∷ 48 ∷ 49 ∷ 48 ∷ 49 ∷ 48 ∷ 49 ∷ 48 ∷ 49 ∷ 48 ∷ 49 ∷ 48 ∷ 49 ∷ 48 ∷ 49 ∷ 48 ∷ 49 ∷ 48 ∷ 49
    ∷ 48 ∷ 49 ∷ 48 ∷ 49 ∷ 48 ∷ 49 ∷ 48 ∷ 49 ∷ 48 ∷ 49 ∷ 48 ∷ 49 ∷ 48 ∷ 49 ∷ 48 ∷ 49 ∷ 48 ∷ 49 ∷ 48
    ∷ 49 ∷ 48 ∷ 49 ∷ 48 ∷ 49 ∷ 48 ∷ 49 ∷ []

abbrev calls : List Call
calls =
    revoke true "t"
    ∷ issue false "u" (some (replicate 32 2)) "ann"
    ∷ revoke false "u"
    ∷ register false "bob" "bob" "b@x"
    ∷ []

issued : (issue_token_with_id (λ bs. bs) false "t" (some ones) "ann" tables).1 ≡ some (raw, "t")
unfolding issue_token_with_id insert_token encode_to_string same_text
issued = refl

issue-authenticate_example :
    authenticate
      (accounts
        (λ bs. bs)
        5
        (serve_all
          (λ bs. bs)
          calls
          (issue_token_with_id (λ bs. bs) false "t" (some ones) "ann" tables).0))
      (bearer ++ raw)
    ≡ (if any (revokes "t") calls then none else some "ann")
issue-authenticate_example =
    issue-authenticate (λ bs. bs) false "t" "ann" ones tables raw "t" refl issued calls 5
