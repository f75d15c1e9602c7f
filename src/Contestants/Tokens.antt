-- ===== src/Contestants/Tokens.antt =====
-- For how long a token is accepted (service.go, db.go, auth.go).
use iicpc.Prelude.{
  ℕ, ◌≡◌, refl, ap, ◌∙◌, Bool, true, false, Option, none, some, List, [], ◌∷◌, ◌++◌, any, length,
  ◌/◌, ◌%◌, String, if◌then◌else◌, arith,
}
use iicpc.Artifact.{Text, same_text}
use iicpc.Strings.{is_space, strip_prefix, trim_left, trim_right}
use iicpc.Upload.{Accounts, bearer, extract_bearer_token, authenticate}
use iicpc.Contestants.Rows.{revokes, lookup-Stands, serve_all-Stands, insert_token-done}
use iicpc.Contestants.{
  Tables, hex_digit, encode_to_string, new_token, insert_token, issued_as, issue_token_with_id,
  accounts, Call, serve_all,
}

all_solid-trim_right : (xs : Text) → any is_space xs ≡ false → trim_right xs ≡ xs
unfolding trim_right same_text
all_solid-trim_right [] h = refl
all_solid-trim_right (x ∷ xs) h = ground (arith, all_solid-trim_right xs)

hex_digit-solid : (d : ℕ) → is_space (hex_digit d) ≡ false
hex_digit-solid d = ground arith

encode_to_string-solid : (bs : List ℕ) → any is_space (encode_to_string bs) ≡ false
unfolding encode_to_string
encode_to_string-solid [] = refl
encode_to_string-solid (b ∷ bs) =
    rw (hex_digit-solid (b / 16), hex_digit-solid (b % 16), encode_to_string-solid bs) refl

extract_bearer_token-encode :
    (b : ℕ) (bs : List ℕ)
    → extract_bearer_token (bearer ++ encode_to_string (b ∷ bs)) ≡ some (encode_to_string (b ∷ bs))
unfolding extract_bearer_token strip_prefix encode_to_string trim_left same_text
extract_bearer_token-encode b bs =
    rw
      (
        hex_digit-solid (b / 16),
        all_solid-trim_right (encode_to_string (b ∷ bs)) (encode_to_string-solid (b ∷ bs)),
      )
      refl

authenticate-some :
    (acc : Accounts) (header token : Text)
    → extract_bearer_token header ≡ some token
    → authenticate acc header ≡ acc.contestant_of (acc.sha256 token)
unfolding authenticate
authenticate-some acc header token h =
    ap
      (λ (o : Option Text). elim o [
        | none ↦ none
        | some found ↦ acc.contestant_of (acc.sha256 found)
      ])
      h

issued_as-some :
    (raw : Text) (id : String) (r : Tables × Bool) (raw' : Text) (id' : String)
    → (issued_as raw id r).1 ≡ some (raw', id')
    → (r.1 ≡ true) × (raw ≡ raw') × (id ≡ id')
issued_as-some raw id (t, true) raw' id' h = (refl, ground (arith, h), ground (arith, h))
issued_as-some raw id (t, false) raw' id' h = cc

-- A token that the control plane issues is accepted by the submission engine, at every time, as its
-- contestant's, whatever calls the control plane serves meanwhile, until one revokes it under the
-- identifier that it was issued with; from then on it is refused for good.
pub issue-authenticate :
    (sha256 : List ℕ → List ℕ) (fails : Bool) (id c : String) (bytes : List ℕ) (t : Tables)
    (raw : Text) (i : String)
    → length bytes ≡ 32
    → (issue_token_with_id sha256 fails id (some bytes) c t).1 ≡ some (raw, i)
    → (cs : List Call) (now : ℕ)
    → authenticate
        (accounts sha256 now
          (serve_all sha256 cs (issue_token_with_id sha256 fails id (some bytes) c t).0))
        (bearer ++ raw)
      ≡ (if any (revokes i) cs then none else some c)
unfolding issue_token_with_id
issue-authenticate sha256 fails id c [] t raw i n h cs now = absurd (omega (arith, n))
issue-authenticate sha256 fails id c (b ∷ bs) t raw i n h cs now =
    let digest = sha256 (encode_to_string (b ∷ bs)) in
    let (done, same, named) =
      issued_as-some (encode_to_string (b ∷ bs)) id (insert_token fails (new_token id c digest) t)
        raw i h in
    rw⁻¹ (same, named)
      (authenticate-some _ _ _ (extract_bearer_token-encode b bs)
        ∙ lookup-Stands now digest id c (any (revokes id) cs) _ (
            serve_all-Stands sha256 digest id c false cs _
              (insert_token-done fails id c digest t done)))
