-- ===== src/Hub.antt =====
-- services/leaderboard-service/internal/hub/hub.go: the fan-out of score updates to the subscribers.
-- A client is a number, `channels` is the memory of the send channels, and the set of the registered
-- clients is a list. One iteration of `Run` handles one event; a client may take a message from its
-- channel in between. What Go does on a closed channel is a state of its own, `panicked`.
pub mod Broadcasts
pub mod Safety
use iicpc.Prelude.{
  ℕ, ◌+◌, Bool, true, false, not, List, [], ◌∷◌, ◌++◌, String, ltb, ◌==◌, if◌then◌else◌, length,
  filter, any,
}

pub record Channel : Type 0 where
  pub queue : List String
  pub closed : Bool

pub record Hub : Type 0 where
  pub clients : List ℕ
  pub channels : ℕ → Channel
  pub dropped : ℕ

pub data State : Type 0 where
  running stopped : Hub → State
  panicked : State

abbrev pub client_send_buffer : ℕ
client_send_buffer = 256

-- `NewClient` makes an empty channel.
abbrev pub new_channel : Channel
new_channel = record { queue = []; closed = false }

abbrev pub new_hub : Hub
new_hub = record { clients = []; channels = λ c. new_channel; dropped = 0 }

abbrev pub set : (ℕ → Channel) → ℕ → Channel → ℕ → Channel
set channels c x d = if c == d then x else channels d

abbrev pub is_client : ℕ → List ℕ → Bool
is_client c cs = any (λ d. d == c) cs

-- `h.clients[c] = true` and `delete(h.clients, c)`.
unfoldable pub register : Hub → ℕ → Hub
register h c = if is_client c h.clients then h else record h { clients = c ∷ h.clients }

abbrev pub remove : ℕ → List ℕ → List ℕ
remove c cs = filter (λ d. not (d == c)) cs

-- `close(c.send)`, which panics on a channel that is closed.
unfoldable pub close_client : Hub → ℕ → State
close_client h c =
    if (h.channels c).closed
    then panicked
    else running
        (record h { channels = set h.channels c (record (h.channels c) { closed = true }) })

unfoldable pub unregister : Hub → ℕ → State
unfolding close_client
unregister h c =
    if is_client c h.clients
    then close_client (record h { clients = remove c h.clients }) c
    else running h

-- The send to one client, with its default case; a send on a closed channel panics.
unfoldable pub send_to : Hub → ℕ → String → State
send_to h c msg =
    let x = h.channels c in
    if x.closed
    then panicked
    else if ltb (length x.queue) client_send_buffer
    then running
        (record h { channels = set h.channels c (record x { queue = x.queue ++ msg ∷ [] }) })
    else running (record h { dropped = h.dropped + 1 })

-- The loop over the clients.
unfoldable pub send_all : Hub → List ℕ → String → State
unfolding send_to
send_all h [] msg = running h
send_all h (c ∷ cs) msg = elim (send_to h c msg) [
  | running h' ↦ send_all h' cs msg
  | stopped h' ↦ stopped h'
  | panicked ↦ panicked
]

-- The end of `Run`: every client is closed and deleted.
unfoldable pub close_all : Hub → List ℕ → State
unfolding close_client
close_all h [] = stopped (record h { clients = [] })
close_all h (c ∷ cs) = elim (close_client h c) [
  | running h' ↦ close_all h' cs
  | stopped h' ↦ stopped h'
  | panicked ↦ panicked
]

-- A client takes the first message of its channel.
unfoldable pub receive : Hub → ℕ → Hub
receive h c = elim ((h.channels c).queue) [
  | [] ↦ h
  | m ∷ ms ↦ record h { channels = set h.channels c (record (h.channels c) { queue = ms }) }
]

pub data Event : Type 0 where
  registers unregisters receives : ℕ → Event
  broadcasts : String → Event
  cancels : Event

unfoldable pub step : State → Event → State
unfolding register unregister send_all close_all receive
step (running h) (registers c) = running (register h c)
step (running h) (unregisters c) = unregister h c
step (running h) (broadcasts msg) = send_all h h.clients msg
step (running h) cancels = close_all h h.clients
step (running h) (receives c) = running (receive h c)
step (stopped h) (receives c) = stopped (receive h c)
step (stopped h) _ = stopped h
step panicked _ = panicked

unfoldable pub run : State → List Event → State
unfolding step
run s [] = s
run s (e ∷ es) = run (step s e) es
