-- ===== src/Upload/Rolling.antt =====
-- How many uploads of a contestant are recorded in a rolling window (upload.go, limiter.go).
use iicpc.Prelude.{
  ℕ, ◌≤◌, ◌≡◌, inl, inr, refl, sym, ap, ◌∙◌, subst, Bool, true, false, ◌&&◌, none, some, List, [],
  ◌∷◌, String, str_eq, eq_iff, eq_refl, if◌then◌else◌, count, arith, Bool-cases, Option-cases,
}
use iicpc.Artifact.{Libraries}
use iicpc.UploadLimit.{SortedSet, Reply, allowed, limited, redis_error, unreadable_score, allow}
use iicpc.UploadLimit.Window.{
  is_recent, Call, IsLimited, AreOrdered, AreNew, times, after_call, after_calls, fresh,
  uploads-IsLimited,
}
use iicpc.Registry.{Registry}
use iicpc.Upload.{Request, Accounts, authenticate, Engine, World, set_key, upload}
use iicpc.Upload.Cases.{is_created, upload_cases}
use iicpc.Upload.Traces.{upload-keys, upload-leaves}

-- Some of the elements of a list, in their order.
data IsPart : List ℕ → List ℕ → Type 0 where
  none_of : IsPart [] []
  without : {t : ℕ} {xs ys : List ℕ} → IsPart xs ys → IsPart xs (t ∷ ys)
  with_both : {t : ℕ} {xs ys : List ℕ} → IsPart xs ys → IsPart (t ∷ xs) (t ∷ ys)

count-part : (p : ℕ → Bool) {xs ys : List ℕ} → IsPart xs ys → count p xs ≤ count p ys
count-part p none_of = omega arith
count-part p (without h) = omega (arith, count-part p h)
count-part p (with_both h) = omega (arith, count-part p h)

part-IsLimited : {xs ys : List ℕ} → IsPart xs ys → IsLimited ys → IsLimited xs
part-IsLimited none_of l = tt
part-IsLimited (without h) l = part-IsLimited h l.1
part-IsLimited (with_both {t} h) l =
    (omega (arith, l.0, count-part (is_recent t) h), part-IsLimited h l.1)

some_eq : {c d : String} → some c ≡ some d → c ≡ d
some_eq e = ground (arith, e)

module _ (redis : SortedSet) (lib : Libraries) (reg : Registry) (acc : Accounts) where
  abbrev State : Type 0
  State = Engine redis lib reg acc

  abbrev Answers : Type 0
  Answers = World redis lib reg acc

  -- The request carries a token of the contestant.
  abbrev pub is_from : String → Request → Bool
  is_from c r = elim (authenticate acc r.authorization) [ none ↦ false | some d ↦ str_eq c d ]

  -- What the limiter is asked for a contestant.
  abbrev pub calls_of : String → List (Answers × Request) → List Call
  calls_of c [] = []
  calls_of c ((w, r) ∷ rs) =
      if is_from c r
      then record { outage = w.outage; now = w.now; member = w.member } ∷ calls_of c rs
      else calls_of c rs

  -- The times of the uploads of a contestant that are answered with 201, newest first, after those
  -- that were there.
  abbrev pub recorded : String → List (Answers × Request) → State → List ℕ → List ℕ
  recorded c [] e done = done
  recorded c ((w, r) ∷ rs) e done =
      let o = upload redis lib reg acc w r e in
      recorded c rs o.0 (if is_from c r && is_created o.1 then w.now ∷ done else done)

  from_known :
      (c : String) (r : Request) → is_from c r ≡ true → authenticate acc r.authorization ≡ some c
  from_known c r h = elim (Option-cases (authenticate acc r.authorization)) [
    | inl stranger ↦ absurd (ground (arith, h, stranger))
    | inr (d, known) ↦
        let same : str_eq c d ≡ true = ground (arith, h, known) in
        known ∙ ap some (sym ((eq_iff c d).0 same))
  ]

  created_allowed :
      (w : Answers) (r : Request) (e : State) (c : String)
      → authenticate acc r.authorization ≡ some c
      → is_created (upload redis lib reg acc w r e).1 ≡ true
      → (allow redis w.outage w.now w.member (e.keys c)).1 ≡ allowed
  created_allowed w r e c known made = elim (upload_cases redis lib reg acc w r e) [
    | inl (stranger, same, no_row) ↦ absurd (ground (arith, made, no_row))
    | inr (d, as_known, inl (same, no_row, turned)) ↦ absurd (ground (arith, made, no_row))
    | inr (d, as_known, inr (may, rest)) ↦
        let same : d ≡ c = some_eq (sym as_known ∙ known) in
        subst (λ x. (allow redis w.outage w.now w.member (e.keys x)).1 ≡ allowed) same may
  ]

  own_key :
      (w : Answers) (r : Request) (e : State) (c : String)
      → authenticate acc r.authorization ≡ some c
      → (upload redis lib reg acc w r e).0.keys c
        ≡ (allow redis w.outage w.now w.member (e.keys c)).0
  unfolding set_key
  own_key w r e c known =
      ap (λ keys. keys c) (upload-keys redis lib reg acc w r e c known) ∙ rw (eq_refl c) refl

  other_key :
      (w : Answers) (r : Request) (e : State) (c : String)
      → is_from c r ≡ false
      → (upload redis lib reg acc w r e).0.keys c ≡ e.keys c
  other_key w r e c other = elim (upload-leaves redis lib reg acc w r e c).2 [
    | inl known ↦ absurd (ground (arith, other, known, eq_refl c))
    | inr same ↦ same
  ]

  step-IsPart :
      (w : Answers) (made : Bool) (reply : Reply) {xs ys : List ℕ}
      → IsPart xs ys
      → (made ≡ true → reply ≡ allowed)
      → IsPart (if made then w.now ∷ xs else xs) (times redis ys reply w.now)
  step-IsPart w true reply {xs} {ys} h only =
      subst (λ r. IsPart (w.now ∷ xs) (times redis ys r w.now)) (sym (only refl)) (with_both h)
  step-IsPart w false allowed h only = without h
  step-IsPart w false (limited n) h only = h
  step-IsPart w false redis_error h only = h
  step-IsPart w false unreadable_score h only = h

  recorded-IsPart :
      (c : String) (rs : List (Answers × Request)) (e : State) (xs ys : List ℕ)
      → IsPart xs ys
      → IsPart (recorded c rs e xs) (after_calls redis (e.keys c, ys) (calls_of c rs)).1
  unfolding after_calls after_call
  recorded-IsPart c [] e xs ys h = h
  recorded-IsPart c ((w, r) ∷ rs) e xs ys h =
      let o = upload redis lib reg acc w r e in
      elim (Bool-cases (is_from c r)) [
        | inr other ↦ rw other (
            subst (λ k. IsPart (recorded c rs o.0 xs) (after_calls redis (k, ys) (calls_of c rs)).1)
              (other_key w r e c other) (recorded-IsPart c rs o.0 xs ys h))
        | inl own ↦
            let known = from_known c r own in
            let reply = (allow redis w.outage w.now w.member (e.keys c)).1 in
            let next = if is_created o.1 then w.now ∷ xs else xs in
            rw own (
              subst
                (λ k.
                  IsPart (recorded c rs o.0 next)
                    (after_calls redis (k, times redis ys reply w.now) (calls_of c rs)).1)
                (own_key w r e c known)
                (recorded-IsPart c rs o.0 next (times redis ys reply w.now)
                  (step-IsPart w (is_created o.1) reply h (created_allowed w r e c known))))
      ]

  -- The limit holds for what is recorded: whatever is uploaded, by whomever and with whatever
  -- failures, if a contestant starts without a key, and the contestant's own requests come in the order
  -- of their times, which fit in a signed 64-bit integer, and with a new member each, then with every
  -- upload of this contestant that is answered with 201 at most five such uploads are less than 3600
  -- seconds, less 1023 nanoseconds for the rounding of the scores, old at that time.
  pub recorded-IsLimited :
      (c : String) (rs : List (Answers × Request)) (e : State)
      → e.keys c ≡ fresh redis
      → AreOrdered 0 (calls_of c rs)
      → AreNew redis (fresh redis) (calls_of c rs)
      → IsLimited (recorded c rs e [])
  recorded-IsLimited c rs e none_yet ordered new =
      part-IsLimited
        (subst (λ k. IsPart (recorded c rs e []) (after_calls redis (k, []) (calls_of c rs)).1)
          none_yet (recorded-IsPart c rs e [] [] none_of))
        (uploads-IsLimited redis (calls_of c rs) ordered new)
