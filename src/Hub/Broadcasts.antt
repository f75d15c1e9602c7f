-- ===== src/Hub/Broadcasts.antt =====
-- What one broadcast of hub.go does to every client.
use iicpc.Prelude.{
  ℕ, ◌+◌, ◌≡◌, refl, Bool, false, not, List, [], ◌∷◌, ◌++◌, String, arith, ltb, if◌then◌else◌,
  length, count, Bool-cases, inl, inr, ◌&&◌, ◌∙◌,
}
use iicpc.Hub.{Channel, Hub, State, running, client_send_buffer, set, is_client, send_to, send_all}

-- Every client once, and none with a closed channel.
abbrev pub AreOpen : (ℕ → Channel) → List ℕ → Type 0
AreOpen channels [] = Unit {0}
AreOpen channels (c ∷ cs) =
    (is_client c cs ≡ false) × ((channels c).closed ≡ false) × AreOpen channels cs

abbrev pub is_full : (ℕ → Channel) → ℕ → Bool
is_full channels c = not (ltb (length (channels c).queue) client_send_buffer)

-- The queue of a client after a broadcast to `cs`.
abbrev pub queued : (ℕ → Channel) → List ℕ → String → ℕ → List String
queued channels cs msg c =
    let q = (channels c).queue in
    if is_client c cs && not (is_full channels c) then q ++ msg ∷ [] else q

pub AreOpen-set :
    (channels : ℕ → Channel) (c : ℕ) (x : Channel) (cs : List ℕ)
    → is_client c cs ≡ false
    → AreOpen channels cs
    → AreOpen (set channels c x) cs
AreOpen-set channels c x [] out open_cs = tt
AreOpen-set channels c x (d ∷ cs) out open_cs =
    (open_cs.0, ground (arith, open_cs.1), AreOpen-set channels c x cs (ground arith) open_cs.2)

count-full-set :
    (channels : ℕ → Channel) (c : ℕ) (x : Channel) (cs : List ℕ)
    → is_client c cs ≡ false
    → count (is_full (set channels c x)) cs ≡ count (is_full channels) cs
count-full-set channels c x [] out = refl
count-full-set channels c x (d ∷ cs) out =
    ground (arith, count-full-set channels c x cs (ground arith))

-- The state after a send to each of the clients.
pub record IsSent (h : Hub) (cs : List ℕ) (msg : String) (s : State) : Type 0 where
  pub hub : Hub
  pub runs : s ≡ running hub
  pub same_clients : hub.clients ≡ h.clients
  pub queues : (c : ℕ) → (hub.channels c).queue ≡ queued h.channels cs msg c
  pub closings : (c : ℕ) → (hub.channels c).closed ≡ (h.channels c).closed
  pub drops : hub.dropped ≡ h.dropped + count (is_full h.channels) cs

pub send_all-IsSent :
    (h : Hub) (cs : List ℕ) (msg : String)
    → AreOpen h.channels cs
    → IsSent h cs msg (send_all h cs msg)
unfolding send_all send_to
send_all-IsSent h [] msg o = record {
  hub = h;
  runs = refl;
  same_clients = refl;
  queues = λ c. refl;
  closings = λ c. refl;
  drops = omega arith;
}
send_all-IsSent h (c ∷ cs) msg o =
    elim (Bool-cases (ltb (length (h.channels c).queue) client_send_buffer)) [
      | inl room ↦
          let x : Channel = record (h.channels c) { queue = (h.channels c).queue ++ msg ∷ [] } in
          let h' : Hub = record h { channels = set h.channels c x } in
          let sends : send_all h (c ∷ cs) msg ≡ send_all h' cs msg =
            rw (o.1, room, send_all) refl in
          let rest = send_all-IsSent h' cs msg (AreOpen-set h.channels c x cs o.0 o.2) in
          record {
            hub = rest.hub;
            runs = sends ∙ rest.runs;
            same_clients = rest.same_clients;
            queues = λ d. ground (arith, rest.queues d, o.0);
            closings = λ d. ground (arith, rest.closings d);
            drops = ground (arith, rest.drops, count-full-set h.channels c x cs o.0);
          }
      | inr full ↦
          let h' : Hub = record h { dropped = h.dropped + 1 } in
          let sends : send_all h (c ∷ cs) msg ≡ send_all h' cs msg =
            rw (o.1, full, send_all) refl in
          let rest = send_all-IsSent h' cs msg o.2 in
          record {
            hub = rest.hub;
            runs = sends ∙ rest.runs;
            same_clients = rest.same_clients;
            queues = λ d. ground (arith, rest.queues d, o.0);
            closings = rest.closings;
            drops = ground (arith, rest.drops);
          }
    ]
