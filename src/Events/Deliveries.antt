-- ===== src/Events/Deliveries.antt =====
-- What is committed was delivered (consumer.go).
use mathlib.Core.List.{Mem, mem-cons_self, mem-append_left, mem-append_right}
use iicpc.Prelude.{
  ℕ, zero, suc, ◌≤◌, ◌<◌, ◌≡◌, refl, sym, ap, ◌∙◌, subst, Bool, true, false, Option, none, some,
  List, [], ◌∷◌, ◌++◌, if◌then◌else◌, drop, take, All, arith, Bool-cases, ltb, inl, inr,
}
use iicpc.Artifact.{Text}
use iicpc.Events.{
  Message, Decoders, Turn, handled, blocked, fetch_failed, restarted, Consumer, new_consumer,
  decoded_raw, decoded_fill, dispatch, commit, handle_next, turn, run,
}

-- An event, if there is one, is in a list.
abbrev pub IsIn : {A : Type 0} → Option A → List A → Type 0
IsIn none xs = Unit
IsIn (some a) xs = Mem a xs

module _ {A : Type 0} where
  -- The list after a decoded event went through the channel.
  abbrev sent : Option A → List A → List A
  sent o xs = elim o [ none ↦ xs | some a ↦ xs ++ a ∷ [] ]

  sent-IsIn : (o : Option A) (xs : List A) → IsIn o (sent o xs)
  sent-IsIn none xs = tt
  sent-IsIn (some a) xs = mem-append_right xs (mem-cons_self)

  IsIn-sent : (o p : Option A) (xs : List A) → IsIn p xs → IsIn p (sent o xs)
  IsIn-sent none p xs h = h
  IsIn-sent (some a) none xs h = tt
  IsIn-sent (some a) (some b) xs h = mem-append_left (a ∷ []) h

  All-take :
      (P : A → Type 0) (xs : List A) (n : ℕ)
      → ((i : ℕ) (x : A) (later : List A) → drop i xs ≡ x ∷ later → i < n → P x)
      → All P (take n xs)
  All-take P xs zero h = tt
  All-take P [] (suc n) h = tt
  All-take P (x ∷ xs) (suc n) h = (
    h 0 x xs refl (omega arith),
    All-take P xs n (λ i y later e l. h (suc i) y later e (omega (arith, l))),
  )

chosen : {A : Type 0} (P : A → Type 0) (b : Bool) (x y : A) → P x → P y → P (if b then x else y)
chosen P true x y h k = h
chosen P false x y h k = k

head_eq : {m n : Message} {ms ns : List Message} → m ∷ ms ≡ n ∷ ns → m ≡ n
head_eq e = ground (arith, e)

module _ (dec : Decoders) (env : Text) where
  abbrev State : Type 0
  State = Consumer dec env

  -- The event of a message, if its topic is one of the two and its payload can be decoded, went
  -- through the channel of its kind.
  abbrev pub IsDelivered : State → Message → Type 0
  IsDelivered s m = IsIn (decoded_raw dec env m) s.raw × IsIn (decoded_fill dec env m) s.fills

  record IsSound (log : List Message) (s : State) : Type 0 where
    behind : s.committed ≤ s.position
    delivered :
        (i : ℕ) (m : Message) (later : List Message)
        → drop i log ≡ m ∷ later
        → i < s.position
        → IsDelivered s m

  new-IsSound : (log : List Message) → IsSound log (new_consumer dec env)
  new-IsSound log = record {
    behind = omega arith;
    delivered = λ i m later e h. absurd (omega (arith, h));
  }

  handled-IsSound :
      (log : List Message) (works : Bool) (s : State) (m : Message) (later : List Message)
      → drop s.position log ≡ m ∷ later
      → IsSound log s
      → IsSound log (commit dec env works (dispatch dec env m s))
  unfolding commit dispatch
  handled-IsSound log works s m later there h = record {
    behind = ground (arith, h.behind);
    delivered = λ i n rest e l. elim (Bool-cases (ltb i s.position)) [
      | inl before ↦
          let (raw, fill) = h.delivered i n rest e (ground (arith, before)) in
          (
            IsIn-sent (decoded_raw dec env m) (decoded_raw dec env n) s.raw raw,
            IsIn-sent (decoded_fill dec env m) (decoded_fill dec env n) s.fills fill,
          )
      | inr now ↦
          let here : i ≡ s.position = ground (arith, now, l) in
          let same : m ≡ n = head_eq (sym there ∙ ap (λ j. drop j log) (sym here) ∙ e) in
          subst (IsDelivered (commit dec env works (dispatch dec env m s))) same
            (sent-IsIn (decoded_raw dec env m) s.raw, sent-IsIn (decoded_fill dec env m) s.fills)
    ];
  }

  next-IsSound :
      (log : List Message) (works : Bool) (s : State) (ms : List Message)
      → drop s.position log ≡ ms
      → IsSound log s
      → IsSound log (handle_next dec env works ms s)
  unfolding handle_next
  next-IsSound log works s [] e h = h
  next-IsSound log works s (m ∷ later) e h = handled-IsSound log works s m later e h

  turn-IsSound :
      (log : List Message) (t : Turn) (s : State)
      → IsSound log s
      → IsSound log (turn dec env log t s)
  unfolding turn
  turn-IsSound log (handled works) s h =
      chosen (IsSound log) s.running (handle_next dec env works (drop s.position log) s) s
        (next-IsSound log works s (drop s.position log) refl h) h
  turn-IsSound log blocked s h = record { behind = h.behind; delivered = h.delivered }
  turn-IsSound log fetch_failed s h = h
  turn-IsSound log restarted s h = record {
    behind = omega arith;
    delivered = λ i m later e l. h.delivered i m later e (omega (arith, l, h.behind));
  }

  run-IsSound :
      (log : List Message) (ts : List Turn) (s : State)
      → IsSound log s
      → IsSound log (run dec env log ts s)
  unfolding run
  run-IsSound log [] s h = h
  run-IsSound log (t ∷ ts) s h = run-IsSound log ts (turn dec env log t s) (turn-IsSound log t s h)

  -- At least once: whatever fetches and commits fail, whenever a send is cut off, and however often
  -- the consumer starts again, every message before the offset that is committed was delivered to the
  -- channel of its topic, unless its topic is neither or its payload cannot be decoded.
  pub run-IsDelivered :
      (log : List Message) (ts : List Turn)
      → let s = run dec env log ts (new_consumer dec env) in
        All (IsDelivered s) (take s.committed log)
  run-IsDelivered log ts =
      let s = run dec env log ts (new_consumer dec env) in
      let h = run-IsSound log ts (new_consumer dec env) (new-IsSound log) in
      All-take (IsDelivered s) log s.committed
        (λ i m later e l. h.delivered i m later e (omega (arith, l, h.behind)))
