-- ===== src/Stream/Sends.antt =====
-- What a stream sends (server.go).
use iicpc.Prelude.{
  ℕ, zero, suc, ◌≡◌, refl, ap, Bool, true, false, Option, none, some, List, [], ◌∷◌, ◌++◌, map,
  filter, take, length, ltb, String, if◌then◌else◌, arith, Bool-cases, inl, inr, ◌⊎◌,
}
use iicpc.Board.{Standings, request_page}
use iicpc.Stream.{
  Entry, Update, Event, message, context_done, closed, Ended, waiting, ended, send_failed,
  no_snapshot, get_leaderboard, wants, snapshot_update, takes, less_one, sent_then, offer,
  offer_decoded, store_page, stream_updates, stream_snapshot, stream_leaderboard,
}

-- The first updates, as many as `send` takes.
abbrev pub accepted : Option ℕ → List Update → List Update
accepted none us = us
accepted (some n) us = take n us

abbrev pub is_short : Option ℕ → List Update → Bool
is_short none us = false
is_short (some n) us = ltb n (length us)

module _ {ℓ} {Raw : Type ℓ} (unmarshal : Raw → Option Update) where
  abbrev decoded : Option Update → List Update
  decoded none = []
  decoded (some u) = u ∷ []

  -- The updates that are read before the context or the channel ends.
  abbrev pub arriving : List (Event Raw) → List Update
  arriving [] = []
  arriving (message raw ∷ es) = decoded (unmarshal raw) ++ arriving es
  arriving (context_done ∷ es) = []
  arriving (closed ∷ es) = []

  abbrev pub stops : List (Event Raw) → Bool
  stops [] = false
  stops (message raw ∷ es) = stops es
  stops (context_done ∷ es) = true
  stops (closed ∷ es) = true

  abbrev end_of : Bool → Bool → Ended
  end_of short stop = if short then send_failed else if stop then ended else waiting

  -- What a stream does, given the updates that it has to send.
  abbrev Sends : Option ℕ → List Update → Bool → List Update × Ended → Type 0
  Sends limit us stop o = (o.0 ≡ accepted limit us) × (o.1 ≡ end_of (is_short limit us) stop)

  Sends-cons :
      (limit : Option ℕ) (u : Update) (us : List Update) (stop : Bool) (o : List Update × Ended)
      → Sends (less_one limit) us stop o
      → Sends limit (u ∷ us) stop (if takes limit then sent_then u o else ([], send_failed))
  Sends-cons none u us stop o (h, k) = (ap (λ vs. u ∷ vs) h, k)
  Sends-cons (some zero) u us stop o (h, k) = (refl, ground arith)
  Sends-cons (some (suc n)) u us stop o (h, k) = (ap (λ vs. u ∷ vs) h, ground (arith, k))

  Sends-offer :
      (p : Update → Bool) (limit : Option ℕ) (u : Update) (us : List Update) (stop : Bool)
      (skipped sent : List Update × Ended)
      → Sends limit (filter p us) stop skipped
      → Sends (less_one limit) (filter p us) stop sent
      → Sends limit (filter p (u ∷ us)) stop (offer (p u) limit u skipped sent)
  Sends-offer p limit u us stop skipped sent s t = elim (Bool-cases (p u)) [
    | inl w ↦ rw w (Sends-cons limit u (filter p us) stop sent t)
    | inr w ↦ rw w s
  ]

  Sends-decoded :
      (c : String) (limit : Option ℕ) (o : Option Update) (us : List Update) (stop : Bool)
      (skipped sent : List Update × Ended)
      → Sends limit (filter (wants c) us) stop skipped
      → Sends (less_one limit) (filter (wants c) us) stop sent
      → Sends limit (filter (wants c) (decoded o ++ us)) stop (offer_decoded c limit o skipped sent)
  Sends-decoded c limit none us stop skipped sent s t = s
  Sends-decoded c limit (some u) us stop skipped sent s t =
      Sends-offer (wants c) limit u us stop skipped sent s t

  Sends-nil :
      (limit : Option ℕ) (stop : Bool) → Sends limit [] stop ([], if stop then ended else waiting)
  Sends-nil none stop = (refl, refl)
  Sends-nil (some zero) stop = (refl, refl)
  Sends-nil (some (suc n)) stop = (refl, ground arith)

  updates-Sends :
      (c : String) (limit : Option ℕ) (es : List (Event Raw))
      → Sends limit
          (filter (wants c) (arriving es))
          (stops es)
          (stream_updates unmarshal c limit es)
  unfolding stream_updates
  updates-Sends c limit [] = Sends-nil limit false
  updates-Sends c limit (context_done ∷ es) = Sends-nil limit true
  updates-Sends c limit (closed ∷ es) = Sends-nil limit true
  updates-Sends c limit (message raw ∷ es) =
      Sends-decoded c limit (unmarshal raw) (arriving es) (stops es) _ _ (updates-Sends c limit es)
        (updates-Sends c (less_one limit) es)

  -- Everything that a request has to be sent: the entries of the snapshot, then the updates.
  abbrev pub due : List Entry → List (Event Raw) → List Update
  due entries es = map snapshot_update entries ++ arriving es

  snapshot-Sends :
      (c : String) (limit : Option ℕ) (entries : List Entry) (es : List (Event Raw))
      → Sends limit
          (filter (wants c) (due entries es))
          (stops es)
          (stream_snapshot unmarshal c limit entries es)
  unfolding stream_snapshot
  snapshot-Sends c limit [] es = updates-Sends c limit es
  snapshot-Sends c limit (e ∷ entries) es =
      Sends-offer (wants c) limit (snapshot_update e) (due entries es) (stops es) _ _
        (snapshot-Sends c limit entries es) (snapshot-Sends c (less_one limit) entries es)

  -- A stream sends exactly the first page of the standings as updates and then the messages that can
  -- be read, before its context or its channel ends, each only if the request wants it, in their order,
  -- up to the first that cannot be sent. It fails if there is one; otherwise it ends without an error
  -- if its context or channel does, and goes on waiting if not. It sends nothing, and fails, if the page
  -- cannot be read.
  pub stream_leaderboard-sends :
      (redis : Standings) (fails : Bool) (c : String) (limit : Option ℕ) (b : redis.Board)
      (es : List (Event Raw))
      → let o = stream_leaderboard unmarshal redis fails c limit b es in
        ((fails ≡ true) × (o ≡ ([], no_snapshot)))
        ⊎ ((page : List Entry × ℕ) × (get_leaderboard redis fails 1 100 b ≡ some page)
            × (o.0 ≡ accepted limit (filter (wants c) (due page.0 es)))
            × (o.1 ≡ (
                if is_short limit (filter (wants c) (due page.0 es))
                then send_failed
                else if stops es
                then ended
                else waiting)))
  unfolding stream_leaderboard get_leaderboard request_page
  stream_leaderboard-sends redis true c limit b es = inl (refl, refl)
  stream_leaderboard-sends redis false c limit b es =
      let (sent, end) = snapshot-Sends c limit (store_page redis 1 100 b).0 es in
      inr (store_page redis 1 100 b, refl, sent, end)
