-- ===== src/Lifetime/Ends.antt =====
-- What the end of a sandbox releases and reports (lifetime.go, crashhandler.go).
use iicpc.Prelude.{
  ℕ, Bool, true, false, Option, none, some, List, [], ◌∷◌, ◌++◌, String, ltb, if◌then◌else◌,
}
use iicpc.Status.{collection_timeout}
use iicpc.Lifetime.{
  Call, graceful_stop, collect, release, update_run_status, Error, collection_exceeded,
  release_failed, calls_if,
}

abbrev pub is_release : Call → Bool
is_release release = true
is_release _ = false

abbrev pub is_stop : Call → Bool
is_stop graceful_stop = true
is_stop _ = false

abbrev pub is_report : Call → Bool
is_report (update_run_status run s) = true
is_report _ = false

-- The context is not cancelled within two hours.
abbrev pub lasts : Option ℕ → Bool
lasts none = true
lasts (some t) = ltb 7200 t

abbrev pub is_error : Option Error → Bool
is_error none = false
is_error (some e) = true

-- The calls of a time limit that is reached.
abbrev expiry : Bool → Bool → String → List Call
expiry collects late run =
    graceful_stop
    ∷ (calls_if collects collect
        ++ (calls_if late (update_run_status run collection_timeout) ++ release ∷ []))

-- The error of a time limit that is reached.
abbrev error_of : Bool → Bool → Option Error
error_of fails late =
    if fails then some release_failed else if late then some collection_exceeded else none
