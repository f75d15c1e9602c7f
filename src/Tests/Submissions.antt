-- ===== src/Tests/Submissions.antt =====
-- Two uploads of one contestant to a registry on the file system (upload.go, client.go).
use iicpc.Prelude.Sorting.{by_key}
use iicpc.Prelude.{
  arith, str_eq, ℕ, ◌≤◌, ◌≡◌, ◌⊎◌, refl, true, false, ◌++◌, none, some, List, [], ◌∷◌, String,
  length, replicate, All,
}
use iicpc.Artifact.{
  same_text, verify_checksum, is_elf, validate_artifact, ArtifactType, elf, Libraries, Stream,
  max_artifact_bytes,
}
use iicpc.UploadLimit.{allow, allowed}
use iicpc.UploadLimit.{pruned}
use iicpc.UploadLimit.Window.{fresh, AreOrdered, AreNew, IsLimited}
use iicpc.Upload.Rolling.{calls_of, recorded, recorded-IsLimited}
use iicpc.Registry.{FsAnswer, FsUri, blob, image_ref, stored, fs_push_artifact, fs_push_image}
use iicpc.Registry.Files.{file_registry}
use iicpc.Upload.{
  bearer, Accounts, Request, created, status_code, authenticate, Engine, World, upload, upload_all,
}
use iicpc.Upload.Cases.{IsValid, is_created, pushed, row_of}
use iicpc.Upload.Verdict.{IsDue, upload-promise}
use iicpc.Upload.Traces.{upload-leaves}
use iicpc.Upload.Ledger.{IsBacked, DrawsNew, upload_all-AllBacked}
use iicpc.Tests.Uploads.{sorted_list, fine}

abbrev libraries : Libraries
libraries = record {
  sha256_hex = λ bs. replicate 64 48;
  tar_entries = λ bs. none;
  zip_entries = λ bs. none;
}

abbrev accounts : Accounts
accounts = record { sha256 = λ bs. bs; contestant_of = λ bs. some "ann" }

abbrev Site : Type 0
Site = Engine sorted_list libraries file_registry accounts

abbrev Answers : Type 0
Answers = World sorted_list libraries file_registry accounts

abbrev empty_site : Site
empty_site = record { keys = λ c. fresh sorted_list; store = λ i n. none; rows = [] }

abbrev good_disk : FsAnswer
good_disk = record {
  mkdir_fails = false;
  create_fails = false;
  copy_fails = none;
  write_fails = false;
}

abbrev answers : ℕ → String → String → Answers
answers now request submission = record {
  now = now;
  member = request;
  outage = fine;
  request_id = request;
  submission_id = submission;
  answer = good_disk;
  insert_fails = false;
}

abbrev program : Stream
program = record { bytes = 127 ∷ 69 ∷ 76 ∷ 70 ∷ 1 ∷ []; fails = false }

abbrev request : Request
request = record {
  authorization = bearer ++ (116 ∷ 107 ∷ 32 ∷ []);
  form = some (some program ∷ []);
  checksum = replicate 64 48;
}

abbrev stranger : Request
stranger = record request { authorization = bearer ++ (32 ∷ []) }

token_read : authenticate accounts request.authorization ≡ some "ann"
unfolding authenticate same_text
token_read = refl

empty_token : authenticate accounts stranger.authorization ≡ none
unfolding authenticate same_text
empty_token = refl

program_digest : verify_checksum libraries program.bytes request.checksum ≡ true
unfolding verify_checksum
program_digest = refl

program_elf : is_elf program.bytes ≡ true
unfolding is_elf
program_elf = refl

program-IsValid : IsValid sorted_list libraries file_registry accounts request elf program
program-IsValid = record {
  parts = [];
  part = refl;
  whole = refl;
  format = program_elf;
  digest = program_digest;
}

first_allowed : (allow sorted_list fine 5 "r1" (empty_site.keys "ann")).1 ≡ allowed
unfolding allow by_key
first_allowed = refl

first_stored :
    (pushed sorted_list libraries file_registry accounts
      (answers 5 "r1" "s1")
      elf
      program.bytes
      empty_site).1
    ≡ stored ("r1", blob)
unfolding fs_push_artifact
first_stored = refl

upload-promise_example :
    let w = answers 5 "r1" "s1" in
    let o = upload sorted_list libraries file_registry accounts w request empty_site in
    ((is_created o.1 ≡ false)
      × (o.0.rows ≡ [])
      × ¬ (
          (c : String) × (t : ArtifactType) × (stream : Stream) × (uri : FsUri) × IsDue sorted_list
            libraries file_registry accounts w request empty_site c t stream uri))
    ⊎ ((c : String) × (t : ArtifactType) × (stream : Stream) × (uri : FsUri) × IsDue sorted_list
          libraries file_registry accounts w request empty_site c t stream uri
        × (length stream.bytes ≤ max_artifact_bytes)
        × (o.1 ≡ created "s1")
        × (o.0.rows
            ≡ row_of sorted_list libraries file_registry accounts w c t stream.bytes uri ∷ []))
upload-promise_example =
    upload-promise sorted_list libraries file_registry accounts (answers 5 "r1" "s1") request
      empty_site

-- The first of them is due.
request-IsDue :
    IsDue sorted_list libraries file_registry accounts
      (answers 5 "r1" "s1")
      request
      empty_site
      "ann"
      elf
      program
      ("r1", blob)
request-IsDue = (token_read, first_allowed, program-IsValid, first_stored, refl)

upload-leaves_example :
    let o =
      upload sorted_list libraries file_registry accounts
        (answers 5 "r1" "s1")
        stranger
        empty_site in
    ((is_created o.1 ≡ true)
      ⊎ (500 ≤ status_code o.1)
      ⊎ ((o.0.store ≡ empty_site.store) × (o.0.rows ≡ [])))
    × ((o.0 ≡ empty_site)
        ⊎ ((c : String) × (authenticate accounts stranger.authorization ≡ some c)))
    × ((authenticate accounts stranger.authorization ≡ some "bob")
        ⊎ (o.0.keys "bob" ≡ fresh sorted_list))
upload-leaves_example =
    upload-leaves sorted_list libraries file_registry accounts (answers 5 "r1" "s1") stranger
      empty_site "bob"

-- One upload, one without a token, one whose row is not written, and another.
abbrev uploads : List (Answers × Request)
uploads =
    (answers 5 "r1" "s1", request)
    ∷ (answers 6 "r2" "s2", stranger)
    ∷ (record (answers 7 "r3" "s3") { insert_fails = true }, request)
    ∷ (answers 8 "r4" "s4", request)
    ∷ []

two_rows :
    length (upload_all sorted_list libraries file_registry accounts uploads empty_site).rows ≡ 2
unfolding upload_all fs_push_artifact validate_artifact allow by_key authenticate same_text
two_rows = refl

uploads-DrawsNew : DrawsNew sorted_list libraries file_registry accounts uploads empty_site
unfolding upload fs_push_artifact validate_artifact allow by_key authenticate same_text
uploads-DrawsNew = ((λ n. refl), ((λ n. refl), ((λ n. refl), ((λ n. refl), tt))))

upload_all-AllBacked_example :
    let after = upload_all sorted_list libraries file_registry accounts uploads empty_site in
    All (IsBacked sorted_list libraries file_registry accounts after.store) after.rows
upload_all-AllBacked_example =
    upload_all-AllBacked sorted_list libraries file_registry accounts uploads empty_site
      uploads-DrawsNew tt

artifact_kept :
    (fs_push_artifact good_disk "r1" elf program.bytes (λ i n. none)).1 ≡ stored ("r1", blob)
unfolding fs_push_artifact
artifact_kept = refl

image_kept :
    (fs_push_image good_disk "r1" "r1:latest"
      (fs_push_artifact good_disk "r1" elf program.bytes (λ i n. none)).0).1
    ≡ stored ("r1", image_ref)
unfolding fs_push_image
image_kept = refl

other_id : str_eq "r2" "r1" ≡ false
other_id = refl

three_calls :
    calls_of sorted_list libraries file_registry accounts "ann" uploads
    ≡ record { outage = fine; now = 5; member = "r1" }
      ∷ record { outage = fine; now = 7; member = "r3" }
      ∷ record { outage = fine; now = 8; member = "r4" }
      ∷ []
unfolding authenticate same_text
three_calls = refl

uploads-AreOrdered :
    AreOrdered 0 (calls_of sorted_list libraries file_registry accounts "ann" uploads)
uploads-AreOrdered =
    rw three_calls
      (omega arith, omega arith, (omega arith, omega arith, (omega arith, omega arith, tt)))

uploads-AreNew :
    AreNew sorted_list
      (fresh sorted_list)
      (calls_of sorted_list libraries file_registry accounts "ann" uploads)
unfolding pruned allow by_key
uploads-AreNew = rw three_calls (refl, (refl, (refl, tt)))

recorded-IsLimited_example :
    IsLimited (recorded sorted_list libraries file_registry accounts "ann" uploads empty_site [])
recorded-IsLimited_example =
    recorded-IsLimited sorted_list libraries file_registry accounts "ann" uploads empty_site refl
      uploads-AreOrdered uploads-AreNew
