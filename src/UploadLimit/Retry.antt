-- ===== src/UploadLimit/Retry.antt =====
-- What a refusal of limiter.go promises about the next call.
use iicpc.Prelude.{
  ℕ, ◌+◌, ◌-◌, ◌*◌, ◌≤◌, ◌<◌, ◌≡◌, inl, inr, true, false, not, List, [], ◌∷◌, String, str_eq, leb,
  ltb, length, any, count-le, length-filter, arith, Bool-cases, ap, List-cases, subst,
}
use iicpc.Prelude.Sorting.{length-perm}
use iicpc.UploadLimit.{
  SortedSet, score, max_uploads, window, second, allowed, limited, Outage, Key, live, pruned,
  retry_after, allow,
}
use iicpc.UploadLimit.Window.{Call, after_call, after_calls, AreNew, allow_cases, fresh}

module _ (redis : SortedSet) where
  open redis use {Set, entries, empty}

  -- A set never holds more than five entries.
  abbrev HoldsFive : Key redis → Type 0
  HoldsFive k = length (entries k.members) ≤ max_uploads

  length-pruned :
      (now : ℕ) (k : Key redis) → HoldsFive k → length (entries (pruned redis now k)) ≤ max_uploads
  unfolding pruned live
  length-pruned now k h = elim (Bool-cases (leb k.expires_at now)) [
    | inl gone ↦ elim (Bool-cases (ltb window now)) [
      | inl e ↦ rw (gone, e, redis.entries-remove_range, redis.entries-empty) (omega arith)
      | inr e ↦ rw (gone, e, redis.entries-empty) (omega arith)
    ]
    | inr there ↦ elim (Bool-cases (ltb window now)) [
      | inl e ↦
          rw (there, e, redis.entries-remove_range)
            (omega (
              arith,
              h,
              length-filter (λ x. not (leb (score x) (redis.round (now - window - 1))))
                  (entries k.members),
              count-le (λ x. not (leb (score x) (redis.round (now - window - 1))))
                  (entries k.members),
            ))
      | inr e ↦ rw (there, e) h
    ]
  ]

  call-HoldsFive :
      (k : Key redis) (done : List ℕ) (c : Call)
      → HoldsFive k
      → any (λ e. str_eq e.1 c.member) (entries (pruned redis c.now k)) ≡ false
      → HoldsFive (after_call redis (k, done) c).0
  unfolding after_call
  call-HoldsFive k done c h new = elim (allow_cases redis c.outage c.now c.member k) [
    | inl (admitted, room, next) ↦ rw next (
        omega (
          arith,
          length-perm (redis.entries-add c.now c.member (pruned redis c.now k) new),
          redis.card-length (pruned redis c.now k),
        ))
    | inr (kept, inl same) ↦ rw same h
    | inr (kept, inr trimmed) ↦ rw trimmed (length-pruned c.now k h)
  ]

  calls-HoldsFive :
      (s : Key redis × List ℕ) (cs : List Call)
      → HoldsFive s.0
      → AreNew redis s.0 cs
      → HoldsFive (after_calls redis s cs).0
  unfolding after_calls after_call
  calls-HoldsFive s [] h n = h
  calls-HoldsFive s (c ∷ cs) h n =
      calls-HoldsFive (after_call redis s c) cs (call-HoldsFive s.0 s.1 c h n.0) n.1

  -- A refusal that names a time: the set was full, and the time is that of its oldest entry.
  limited_entry :
      (o : Outage) (now r : ℕ) (member : String) (k : Key redis)
      → (allow redis o now member k).1 ≡ limited r
      → ((allow redis o now member k).0 ≡ record k { members = pruned redis now k })
        × ((e : ℕ × String) × (es : List (ℕ × String)) × (old : ℕ) × (entries (pruned redis now k)
              ≡ e ∷ es)
            × (redis.round old ≡ score e)
            × (r ≡ retry_after redis now old))
  unfolding allow
  limited_entry o now r member k h = elim (List-cases (entries (pruned redis now k))) [
    | inl none_there ↦ absurd (ground (arith, redis.card-length (pruned redis now k)))
    | inr (e, es, some_there) ↦
        let (old, named, read) = redis.oldest-head (pruned redis now k) e es some_there in
        (ground arith, (e, es, old, some_there, read, ground (arith, named)))
  ]

  retry_after-le :
      (now old later : ℕ) → now + retry_after redis now old * second < later → old + window < later
  unfolding retry_after
  retry_after-le now old later h = ground arith

  -- The set has room once its oldest entry is out of the window.
  room_later :
      (k : Key redis) (e : ℕ × String) (es : List (ℕ × String)) (old later : ℕ)
      → entries k.members ≡ e ∷ es
      → HoldsFive k
      → redis.round old ≡ score e
      → old + window < later
      → redis.card (pruned redis later k) < max_uploads
  unfolding pruned live
  room_later k e es old later there five read out =
      let late : ltb window later ≡ true = ground arith in
      let below = redis.round-mono old (later - window - 1) (omega (arith, out)) in
      elim (Bool-cases (leb k.expires_at later)) [
        | inl gone ↦
            rw (late, gone, redis.card-length, redis.entries-remove_range, redis.entries-empty)
              (omega arith)
        | inr still ↦
            rw (late, still, redis.card-length, redis.entries-remove_range, there)
              (ground (
                arith,
                read,
                below,
                ap length there,
                length-filter (λ x. not (leb (score x) (redis.round (later - window - 1)))) es,
                count-le (λ x. not (leb (score x) (redis.round (later - window - 1)))) es,
              ))
      ]

  admitted :
      (p : Outage) (later : ℕ) (next : String) (k : Key redis)
      → p.script_fails ≡ false
      → redis.card (pruned redis later k) < max_uploads
      → (allow redis p later next k).1 ≡ allowed
  unfolding allow
  admitted p later next k works room = ground arith

  retry_after-pos : (now old : ℕ) → 1 ≤ retry_after redis now old
  unfolding retry_after
  retry_after-pos now old = ground arith

  retry_step :
      (k : Key redis) (o p : Outage) (now r later : ℕ) (member next : String)
      → HoldsFive k
      → (allow redis o now member k).1 ≡ limited r
      → now + r * second < later
      → p.script_fails ≡ false
      → (1 ≤ r) × ((allow redis p later next (allow redis o now member k).0).1 ≡ allowed)
  retry_step k o p now r later member next five refused after works =
      let (left, (e, es, old, there, read, named)) = limited_entry o now r member k refused in
      let trimmed : Key redis = record k { members = pruned redis now k } in
      (
        rw named (retry_after-pos now old),
        rw left (
            admitted p later next trimmed works (
              room_later trimmed e es old later there (length-pruned now k five) read (
                retry_after-le now old later (subst (λ n. now + n * second < later) named after)))),
      )

  -- After any history of calls with new members: if an upload is refused at `now` with a
  -- Retry-After of `r` seconds, then `r` is at least 1, and the next call, if it comes more than `r`
  -- seconds after `now` and the script does not fail, is allowed.
  pub retry-allowed :
      (cs : List Call) (o p : Outage) (now r later : ℕ) (member next : String)
      → AreNew redis (fresh redis) cs
      → let k = (after_calls redis (fresh redis, []) cs).0 in
        (allow redis o now member k).1 ≡ limited r
        → now + r * second < later
        → p.script_fails ≡ false
        → (1 ≤ r) × ((allow redis p later next (allow redis o now member k).0).1 ≡ allowed)
  retry-allowed cs o p now r later member next new refused after works =
      retry_step (after_calls redis (fresh redis, []) cs).0 o p now r later member next
        (calls-HoldsFive (fresh redis, []) cs (rw redis.entries-empty (omega arith)) new) refused
        after works
