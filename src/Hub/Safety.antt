-- ===== src/Hub/Safety.antt =====
-- Panics, full queues and broadcasts over the histories of hub.go.
use iicpc.Prelude.{
  ℕ, ◌≤◌, ◌≡◌, refl, true, false, List, [], ◌∷◌, String, arith, ◌==◌, length, Bool-cases,
  List-cases, inl, inr, ◌∙◌, length-append, subst, sym,
}
use iicpc.Hub.{
  Channel, Hub, State, running, stopped, panicked, new_hub, client_send_buffer, set, is_client,
  remove, register, unregister, close_client, send_all, close_all, receive, Event, registers,
  unregisters, receives, broadcasts, cancels, step, run,
}
use iicpc.Hub.Broadcasts.{AreOpen, AreOpen-set, IsSent, send_all-IsSent}

-- No client registers after it was asked to leave; `gone` are the clients that were.
abbrev pub AreWellUsed : List ℕ → List Event → Type 0
AreWellUsed gone [] = Unit {0}
AreWellUsed gone (registers c ∷ es) = (is_client c gone ≡ false) × AreWellUsed gone es
AreWellUsed gone (unregisters c ∷ es) = AreWellUsed (c ∷ gone) es
AreWellUsed gone (e ∷ es) = AreWellUsed gone es

abbrev pub IsBounded : Hub → Type 0
IsBounded h = (c : ℕ) → length (h.channels c).queue ≤ client_send_buffer

record IsGood (gone : List ℕ) (h : Hub) : Type 0 where
  is_open : AreOpen h.channels h.clients
  left : (c : ℕ) → (h.channels c).closed ≡ true → is_client c gone ≡ true
  bounded : IsBounded h

abbrev IsSafe : List ℕ → State → Type 0
IsSafe gone (running h) = IsGood gone h
IsSafe gone (stopped h) = IsBounded h
IsSafe gone panicked = ⊥

is_client-remove :
    (c d : ℕ) (cs : List ℕ) → is_client d cs ≡ false → is_client d (remove c cs) ≡ false
is_client-remove c d [] out = refl
is_client-remove c d (e ∷ cs) out = ground (arith, is_client-remove c d cs)

AreOpen-remove :
    (channels : ℕ → Channel) (c : ℕ) (x : Channel) (cs : List ℕ)
    → AreOpen channels cs
    → AreOpen (set channels c x) (remove c cs)
AreOpen-remove channels c x [] o = tt
AreOpen-remove channels c x (d ∷ cs) o = elim (Bool-cases (d == c)) [
  | inl same ↦ rw same (AreOpen-remove channels c x cs o.2)
  | inr other ↦
      rw other
        (is_client-remove c d cs o.0, ground (arith, o.1), AreOpen-remove channels c x cs o.2)
]

client-open :
    (channels : ℕ → Channel) (c : ℕ) (cs : List ℕ)
    → AreOpen channels cs
    → is_client c cs ≡ true
    → (channels c).closed ≡ false
client-open channels c [] o h = absurd (cc h)
client-open channels c (d ∷ cs) o h = ground (arith, o.1, client-open channels c cs o.2)

-- The end of `Run` closes every client and panics on none.
close_all-stops :
    (gone : List ℕ) (h : Hub) (cs : List ℕ)
    → AreOpen h.channels cs
    → IsBounded h
    → IsSafe gone (close_all h cs)
unfolding close_all close_client
close_all-stops gone h [] o b = b
close_all-stops gone h (c ∷ cs) o b =
    let x : Channel = record (h.channels c) { closed = true } in
    rw (o.1, close_all)
      (close_all-stops gone (record h { channels = set h.channels c x }) cs
        (AreOpen-set h.channels c x cs o.0 o.2) (λ d. ground (arith, b d)))

receive-IsBounded : (h : Hub) (c : ℕ) → IsBounded h → IsBounded (receive h c)
unfolding receive
receive-IsBounded h c b = elim (List-cases (h.channels c).queue) [
  | inl e ↦ rw (e, receive) b
  | inr (m, ms, e) ↦ rw (e, receive) (λ d. ground (arith, b d, b c))
]

set_open :
    (channels : ℕ → Channel) (c : ℕ) (x : Channel) (cs : List ℕ)
    → x.closed ≡ (channels c).closed
    → AreOpen channels cs
    → AreOpen (set channels c x) cs
set_open channels c x [] same o = tt
set_open channels c x (d ∷ cs) same o =
    (o.0, ground (arith, o.1), set_open channels c x cs same o.2)

AreOpen-same :
    (f g : ℕ → Channel) (cs : List ℕ)
    → ((c : ℕ) → (g c).closed ≡ (f c).closed)
    → AreOpen f cs
    → AreOpen g cs
AreOpen-same f g [] same o = tt
AreOpen-same f g (c ∷ cs) same o = (o.0, same c ∙ o.1, AreOpen-same f g cs same o.2)

receive-IsGood : (gone : List ℕ) (h : Hub) (c : ℕ) → IsGood gone h → IsGood gone (receive h c)
unfolding receive
receive-IsGood gone h c g = elim (List-cases (h.channels c).queue) [
  | inl e ↦ rw (e, receive) g
  | inr (m, ms, e) ↦
      rw (e, receive)
        (record {
          is_open =
              set_open h.channels c (record (h.channels c) { queue = ms }) h.clients refl g.is_open;
          left = λ d. ground (arith, g.left d, g.left c);
          bounded = λ d. ground (arith, g.bounded d, g.bounded c);
        })
]

register-IsGood :
    (gone : List ℕ) (h : Hub) (c : ℕ)
    → is_client c gone ≡ false
    → IsGood gone h
    → IsGood gone (register h c)
unfolding register
register-IsGood gone h c new g = elim (Bool-cases (is_client c h.clients)) [
  | inl there ↦ rw (there, register) g
  | inr absent ↦
      rw (absent, register)
        (record {
          is_open = (absent, ground (arith, g.left c), g.is_open);
          left = g.left;
          bounded = g.bounded;
        })
]

unregister-IsSafe :
    (gone : List ℕ) (h : Hub) (c : ℕ) → IsGood gone h → IsSafe (c ∷ gone) (unregister h c)
unfolding unregister close_client
unregister-IsSafe gone h c g = elim (Bool-cases (is_client c h.clients)) [
  | inr absent ↦
      rw (absent, unregister)
        (record { is_open = g.is_open; left = λ d. ground (arith, g.left d); bounded = g.bounded })
  | inl there ↦
      let is_open = client-open h.channels c h.clients g.is_open there in
      rw (there, is_open, unregister)
        (record {
          is_open =
              AreOpen-remove h.channels c (record (h.channels c) { closed = true }) h.clients
                g.is_open;
          left = λ d. ground (arith, g.left d);
          bounded = λ d. ground (arith, g.bounded d);
        })
]

sent-IsGood :
    (gone : List ℕ) (h : Hub) (msg : String) (s : State)
    → IsSent h h.clients msg s
    → IsGood gone h
    → IsSafe gone s
sent-IsGood gone h msg s sent g = rw sent.runs (record {
  is_open =
      subst (AreOpen sent.hub.channels) (sym sent.same_clients)
        (AreOpen-same h.channels sent.hub.channels h.clients sent.closings g.is_open);
  left = λ d. ground (arith, sent.closings d, g.left d);
  bounded = λ d.
      ground (arith, sent.queues d, g.bounded d, length-append (h.channels d).queue (msg ∷ []));
})

step-IsSafe :
    (gone : List ℕ) (s : State) (e : Event) (es : List Event)
    → AreWellUsed gone (e ∷ es)
    → IsSafe gone s
    → (gone' : List ℕ) × AreWellUsed gone' es × IsSafe gone' (step s e)
unfolding step
step-IsSafe gone (running h) (registers c) es w g = (gone, w.1, register-IsGood gone h c w.0 g)
step-IsSafe gone (running h) (unregisters c) es w g = (c ∷ gone, w, unregister-IsSafe gone h c g)
step-IsSafe gone (running h) (receives c) es w g = (gone, w, receive-IsGood gone h c g)
step-IsSafe gone (running h) (broadcasts msg) es w g = (
  gone,
  w,
  sent-IsGood gone h msg (send_all h h.clients msg) (send_all-IsSent h h.clients msg g.is_open) g,
)
step-IsSafe gone (running h) cancels es w g =
    (gone, w, close_all-stops gone h h.clients g.is_open g.bounded)
step-IsSafe gone (stopped h) (registers c) es w g = (gone, w.1, g)
step-IsSafe gone (stopped h) (unregisters c) es w g = (c ∷ gone, w, g)
step-IsSafe gone (stopped h) (receives c) es w g = (gone, w, receive-IsBounded h c g)
step-IsSafe gone (stopped h) (broadcasts msg) es w g = (gone, w, g)
step-IsSafe gone (stopped h) cancels es w g = (gone, w, g)
step-IsSafe gone panicked e es w g = absurd g

run-IsSafe :
    (gone : List ℕ) (s : State) (es : List Event)
    → AreWellUsed gone es
    → IsSafe gone s
    → (gone' : List ℕ) × IsSafe gone' (run s es)
unfolding run
run-IsSafe gone s [] w g = (gone, g)
run-IsSafe gone s (e ∷ es) w g =
    let (gone', w', g') = step-IsSafe gone s e es w g in run-IsSafe gone' (step s e) es w' g'

-- No panic, no queue of more than 256 messages, and a broadcast does what `IsSent` says.
abbrev pub IsHealthy : State → Type 0
IsHealthy (running h) =
    IsBounded h × ((msg : String) → IsSent h h.clients msg (step (running h) (broadcasts msg)))
IsHealthy (stopped h) = IsBounded h
IsHealthy panicked = ⊥

healthy : (gone : List ℕ) (s : State) → IsSafe gone s → IsHealthy s
unfolding step
healthy gone (running h) g = (g.bounded, λ msg. send_all-IsSent h h.clients msg g.is_open)
healthy gone (stopped h) g = g
healthy gone panicked g = g

-- From a new hub, let the clients register, leave, and take messages, and let messages be broadcast
-- and the context be cancelled, in any order in which no client registers after it was asked to
-- leave. Then the hub does not panic, no queue holds more than 256 messages, and the next broadcast,
-- while the hub runs, goes to the end of the queue of every registered client that has room, changes
-- no other queue and closes none, and counts one drop for each registered client whose queue is full.
pub run-IsHealthy : (es : List Event) → AreWellUsed [] es → IsHealthy (run (running new_hub) es)
run-IsHealthy es w =
    let (gone, g) =
      run-IsSafe [] (running new_hub) es w
        (record { is_open = tt; left = λ c h. absurd (cc h); bounded = λ c. omega arith }) in
    healthy gone (run (running new_hub) es) g
