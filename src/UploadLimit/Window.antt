-- ===== src/UploadLimit/Window.antt =====
-- The uploads that limiter.go allows over a history of calls, in rolling windows.
use iicpc.Prelude.{
  ℕ, ◌+◌, ◌-◌, ◌≤◌, ◌<◌, ◌≡◌, refl, ◌⊎◌, inl, inr, Bool, true, false, not, List, [], ◌∷◌, String,
  str_eq, leb, ltb, filter, any, count, count-le, All, arith, Bool-cases,
}
use iicpc.Prelude.Sorting.{count-perm}
use iicpc.UploadLimit.{
  end_of_time, SortedSet, score, max_uploads, window, Reply, allowed, Outage, Key, live, pruned,
  allow,
}

-- What the rounding of the scores takes off the window, in nanoseconds.
abbrev pub slack : ℕ
slack = 1_023

-- An upload at `t` is at the time `now` in the window that is shorter by this.
abbrev pub is_recent : ℕ → ℕ → Bool
is_recent now t = ltb (now + slack) (t + window)

-- An entry with this score is not pruned up to the time `now`.
abbrev stays : ℕ → ℕ → Bool
stays now s = ltb (now + 511) (s + window)

pub record Call : Type 0 where
  pub outage : Outage
  pub now : ℕ
  pub member : String

-- For every upload, newest first: with itself at most five uploads are in the window that ends
-- there.
abbrev pub IsLimited : List ℕ → Type 0
IsLimited [] = Unit {0}
IsLimited (t ∷ ts) = (count (is_recent t) (t ∷ ts) ≤ max_uploads) × IsLimited ts

-- The calls come in the order of their times, which fit in a signed 64-bit integer.
abbrev pub AreOrdered : ℕ → List Call → Type 0
AreOrdered t [] = Unit {0}
AreOrdered t (c ∷ cs) = (t ≤ c.now) × (c.now < end_of_time) × AreOrdered c.now cs

module _ {ℓ} {A : Type ℓ} where
  count-filter :
      (q p : A → Bool) (xs : List A)
      → ((x : A) → q x ≡ true → p x ≡ true)
      → count q (filter p xs) ≡ count q xs
  count-filter q p [] h = refl
  count-filter q p (x ∷ xs) h = ground (arith, h x, count-filter q p xs h)

module _ (redis : SortedSet) where
  open redis use {Set, entries, empty}

  abbrev pub times : List ℕ → Reply → ℕ → List ℕ
  times done allowed now = now ∷ done
  times done _ now = done

  -- The key and the times of the uploads that were allowed, newest first.
  unfoldable pub after_call : Key redis × List ℕ → Call → Key redis × List ℕ
  after_call (k, done) c =
      let (k', reply) = allow redis c.outage c.now c.member k in (k', times done reply c.now)

  unfoldable pub after_calls : Key redis × List ℕ → List Call → Key redis × List ℕ
  unfolding after_call
  after_calls s [] = s
  after_calls s (c ∷ cs) = after_calls (after_call s c) cs

  -- Each member is new to the set when it is added.
  abbrev pub AreNew : Key redis → List Call → Type 0
  AreNew k [] = Unit {0}
  AreNew k (c ∷ cs) =
      (any (λ e. str_eq e.1 c.member) (entries (pruned redis c.now k)) ≡ false)
      × AreNew (allow redis c.outage c.now c.member k).0 cs

  staying : ℕ → Set → ℕ
  staying now s = count (λ e. stays now (score e)) (entries s)

  -- From the time `t` on the set has an entry for every upload in the window, and no upload outlives
  -- the key.
  record Agrees (t : ℕ) (k : Key redis) (done : List ℕ) : Type 0 where
    in_windows : (now : ℕ) → t ≤ now → count (is_recent now) done ≤ staying now k.members
    expiring : All (λ s. s + window ≤ k.expires_at) done
    bounded : k.expires_at ≤ t + window

  none_left :
      (x now : ℕ) (done : List ℕ)
      → x ≤ now
      → All (λ s. s + window ≤ x) done
      → count (is_recent now) done ≡ 0
  none_left x now [] h a = refl
  none_left x now (t ∷ ts) h a = ground (arith, a.0, none_left x now ts h a.1)

  live_recent :
      (t now : ℕ) (k : Key redis) (done : List ℕ)
      → Agrees t k done
      → t ≤ now
      → (later : ℕ) → now ≤ later
      → count (is_recent later) done ≤ staying later (live redis now k)
  unfolding live staying
  live_recent t now k done a h later l = elim (Bool-cases (leb k.expires_at now)) [
    | inr e ↦ rw e (a.in_windows later (omega arith))
    | inl e ↦
        let gone = none_left k.expires_at later done (ground arith) a.expiring in
        rw e (omega (arith, gone))
  ]

  -- Pruning takes nothing that is still in a window.
  pruned_recent :
      (t now : ℕ) (k : Key redis) (done : List ℕ)
      → Agrees t k done
      → t ≤ now
      → now < end_of_time
      → (later : ℕ) → now ≤ later
      → count (is_recent later) done ≤ staying later (pruned redis now k)
  unfolding pruned staying
  pruned_recent t now k done a h fits later l = elim (Bool-cases (ltb window now)) [
    | inr e ↦ rw e (live_recent t now k done a h later l)
    | inl e ↦
        let near = redis.round-near (now - window - 1) (omega arith) in
        rw
          (
            e,
            redis.entries-remove_range (now - window - 1) (live redis now k),
            count-filter (λ e. stays later (score e))
                (λ e. not (leb (score e) (redis.round (now - window - 1))))
                (entries (live redis now k)) (λ x r. ground (arith, near, e)),
          )
          (live_recent t now k done a h later l)
  ]

  expiring_later :
      (x y : ℕ) (done : List ℕ)
      → x ≤ y
      → All (λ s. s + window ≤ x) done
      → All (λ s. s + window ≤ y) done
  expiring_later x y [] h a = tt
  expiring_later x y (t ∷ ts) h a = (omega (arith, a.0), expiring_later x y ts h a.1)

  pub allow_cases :
      (o : Outage) (now : ℕ) (member : String) (k : Key redis)
      → ((allow redis o now member k).1 ≡ allowed)
          × (redis.card (pruned redis now k) < max_uploads)
          × ((allow redis o now member k).0 ≡ record {
            members = redis.add now member (pruned redis now k);
            expires_at = now + window;
          })
        ⊎ ((done : List ℕ) → times done (allow redis o now member k).1 now ≡ done)
          × (((allow redis o now member k).0 ≡ k)
              ⊎ ((allow redis o now member k).0 ≡ record k { members = pruned redis now k }))
  unfolding allow
  allow_cases o now member k = elim (Bool-cases o.script_fails) [
    | inl e ↦ rw (e, allow) (inr ((λ done. refl), inl refl))
    | inr e ↦ elim (Bool-cases (leb max_uploads (redis.card (pruned redis now k)))) [
      | inr room ↦ rw (e, room, allow) (inl (refl, ground arith, refl))
      | inl full ↦ rw (e, full, allow) (inr ((λ done. ground arith), inr refl))
    ]
  ]

  record IsSound (t : ℕ) (s : Key redis × List ℕ) : Type 0 where
    agrees : Agrees t s.0 s.1
    is_limited : IsLimited s.1

  -- An upload that is allowed.
  grown-IsSound :
      (t now : ℕ) (member : String) (k : Key redis) (done : List ℕ)
      → IsSound t (k, done)
      → t ≤ now
      → now < end_of_time
      → any (λ e. str_eq e.1 member) (entries (pruned redis now k)) ≡ false
      → redis.card (pruned redis now k) < max_uploads
      → IsSound now (
        record { members = redis.add now member (pruned redis now k); expires_at = now + window },
        now ∷ done,
      )
  unfolding staying
  grown-IsSound t now member k done v h fits new room =
      let recent = pruned_recent t now k done v.agrees h fits in
      let near = redis.round-near now fits in
      record {
        agrees = record {
          in_windows = λ later l. ground (
            arith,
            near,
            recent later l,
            count-perm (λ e. stays later (score e))
                (redis.entries-add now member (pruned redis now k) new),
          );
          expiring = (
            omega arith,
            expiring_later k.expires_at (now + window) done (omega (arith, v.agrees.bounded))
                v.agrees.expiring,
          );
          bounded = omega arith;
        };
        is_limited = (
          ground (
            arith,
            recent now (omega arith),
            redis.card-length (pruned redis now k),
            count-le (λ e. stays now (score e)) (entries (pruned redis now k)),
          ),
          v.is_limited,
        );
      }

  call-IsSound :
      (t : ℕ) (s : Key redis × List ℕ) (c : Call)
      → IsSound t s
      → t ≤ c.now
      → c.now < end_of_time
      → any (λ e. str_eq e.1 c.member) (entries (pruned redis c.now s.0)) ≡ false
      → IsSound c.now (after_call s c)
  unfolding after_call
  call-IsSound t (k, done) c v h fits new = elim (allow_cases c.outage c.now c.member k) [
    | inl (admitted, room, next) ↦
        rw (admitted, next) (grown-IsSound t c.now c.member k done v h fits new room)
    | inr (kept, inl same) ↦
        rw (kept done, same)
          (record {
            agrees = record {
              in_windows = λ later l. v.agrees.in_windows later (omega arith);
              expiring = v.agrees.expiring;
              bounded = omega (arith, v.agrees.bounded);
            };
            is_limited = v.is_limited;
          })
    | inr (kept, inr trimmed) ↦
        rw (kept done, trimmed)
          (record {
            agrees = record {
              in_windows = pruned_recent t c.now k done v.agrees h fits;
              expiring = v.agrees.expiring;
              bounded = omega (arith, v.agrees.bounded);
            };
            is_limited = v.is_limited;
          })
  ]

  calls-IsSound :
      (t : ℕ) (s : Key redis × List ℕ) (cs : List Call)
      → IsSound t s
      → AreOrdered t cs
      → AreNew s.0 cs
      → IsLimited (after_calls s cs).1
  unfolding after_calls after_call
  calls-IsSound t s [] v o n = v.is_limited
  calls-IsSound t s (c ∷ cs) v o n =
      calls-IsSound c.now (after_call s c) cs (call-IsSound t s c v o.0 o.1 n.0) o.2 n.1

  -- A contestant with no key yet.
  abbrev pub fresh : Key redis
  fresh = record { members = empty; expires_at = 0 }

  -- However the calls for one contestant fall, in the order of their times and with a new member
  -- each, and whatever fails: with every upload that was allowed, at most five uploads are less than
  -- 3600 seconds, less 1023 nanoseconds, old at that time.
  pub uploads-IsLimited :
      (cs : List Call)
      → AreOrdered 0 cs
      → AreNew fresh cs
      → IsLimited (after_calls (fresh, []) cs).1
  unfolding staying
  uploads-IsLimited cs o n =
      calls-IsSound 0 (fresh, []) cs
        (record {
          agrees = record {
            in_windows = λ now l. omega arith;
            expiring = tt;
            bounded = omega arith;
          };
          is_limited = tt;
        })
        o n
