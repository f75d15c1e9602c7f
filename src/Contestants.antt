-- ===== src/Contestants.antt =====
-- services/control-plane-api/internal/contestant/service.go: contestants and their tokens, with
-- LookupContestantByTokenHash of services/submission-engine/internal/db/db.go, which reads the tokens.
-- The tables keep their keys and unique columns. The random bytes, the identifiers that the database
-- draws, its outages and SHA-256 are parameters.
pub mod Rows
pub mod Tokens
use iicpc.Prelude.{
  ℕ, ◌+◌, ◌/◌, ◌%◌, Bool, true, false, not, ◌&&◌, ◌||◌, Option, none, some, List, [], ◌∷◌, map, any,
  ltb, String, str_eq, if◌then◌else◌,
}
use iicpc.Artifact.{Text, same_text}
use iicpc.Upload.{Accounts}

pub record Contestant : Type 0 where
  pub id : String
  pub handle : String
  pub email : String

-- A row of contestant_tokens; `none` is a token that does not expire.
pub record Token : Type 0 where
  pub id : String
  pub contestant_id : String
  pub token_hash : List ℕ
  pub expires_at : Option ℕ
  pub revoked : Bool

pub record Tables : Type 0 where
  pub contestants : List Contestant
  pub tokens : List Token

-- `RegisterContestant`: the identifier of the new row, or `none` for an error.
unfoldable pub register_contestant :
    Bool → String → String → String → Tables → Tables × Option String
register_contestant fails id handle email t =
    if fails
      || any (λ c. str_eq c.id id || str_eq c.handle handle || str_eq c.email email) t.contestants
    then (t, none)
    else (
      record t { contestants = record { id = id; handle = handle; email = email } ∷ t.contestants },
      some id,
    )

abbrev pub hex_digit : ℕ → ℕ
hex_digit d = if ltb d 10 then d + 48 else d + 87

-- `hex.EncodeToString`.
unfoldable pub encode_to_string : List ℕ → Text
encode_to_string [] = []
encode_to_string (b ∷ bs) = hex_digit (b / 16) ∷ hex_digit (b % 16) ∷ encode_to_string bs

-- The row that `IssueToken` inserts; a token that is issued has no end.
abbrev pub new_token : String → String → List ℕ → Token
new_token id contestant hash = record {
  id = id;
  contestant_id = contestant;
  token_hash = hash;
  expires_at = none;
  revoked = false;
}

-- The insertion, which the key, the unique column and the reference to a contestant can refuse.
unfoldable pub insert_token : Bool → Token → Tables → Tables × Bool
insert_token fails k t =
    if fails
      || any (λ r. str_eq r.id k.id || same_text r.token_hash k.token_hash) t.tokens
      || not (any (λ c. str_eq c.id k.contestant_id) t.contestants)
    then (t, false)
    else (record t { tokens = k ∷ t.tokens }, true)

abbrev pub issued_as : Text → String → Tables × Bool → Tables × Option (Text × String)
issued_as raw id (t, done) = (t, if done then some (raw, id) else none)

-- `IssueTokenWithID`, the raw token and the identifier of its row; `IssueToken` is the same without the
-- identifier. `none` for the bytes is an error of the generator.
unfoldable pub issue_token_with_id :
    (List ℕ → List ℕ)
    → Bool
    → String
    → Option (List ℕ)
    → String
    → Tables
    → Tables × Option (Text × String)
issue_token_with_id sha256 fails id none contestant t = (t, none)
issue_token_with_id sha256 fails id (some bytes) contestant t =
    let raw = encode_to_string bytes in
    issued_as raw id (insert_token fails (new_token id contestant (sha256 raw)) t)

abbrev pub revoke_row : String → Token → Token
revoke_row id r = if str_eq r.id id then record r { revoked = true } else r

pub data Revocation : Type 0 where
  done not_found database_error : Revocation

-- `RevokeToken`.
unfoldable pub revoke_token : Bool → String → Tables → Tables × Revocation
revoke_token fails id t = if fails then (t, database_error) else (
  record t { tokens = map (revoke_row id) t.tokens },
  if any (λ r. str_eq r.id id) t.tokens then done else not_found,
)

abbrev pub is_current : ℕ → Option ℕ → Bool
is_current now none = true
is_current now (some end) = ltb now end

-- `LookupContestantByTokenHash`, at a time.
unfoldable pub lookup_token : ℕ → List ℕ → List Token → Option String
lookup_token now hash [] = none
lookup_token now hash (r ∷ rs) =
    let rest = lookup_token now hash rs in
    if same_text r.token_hash hash && not r.revoked && is_current now r.expires_at
    then some r.contestant_id
    else rest

-- The tables as the submission engine sees them.
abbrev pub accounts : (List ℕ → List ℕ) → ℕ → Tables → Accounts
accounts sha256 now t = record {
  sha256 = sha256;
  contestant_of = λ hash. lookup_token now hash t.tokens;
}

pub data Call : Type 0 where
  register : Bool → String → String → String → Call
  issue : Bool → String → Option (List ℕ) → String → Call
  revoke : Bool → String → Call

unfoldable pub serve : (List ℕ → List ℕ) → Call → Tables → Tables
serve sha256 (register fails id handle email) t = (register_contestant fails id handle email t).0
serve sha256 (issue fails id bytes contestant) t =
    (issue_token_with_id sha256 fails id bytes contestant t).0
serve sha256 (revoke fails id) t = (revoke_token fails id t).0

unfoldable pub serve_all : (List ℕ → List ℕ) → List Call → Tables → Tables
serve_all sha256 [] t = t
serve_all sha256 (c ∷ cs) t = serve_all sha256 cs (serve sha256 c t)
