-- ===== src/Events.antt =====
-- services/telemetry-ingester/internal/kafka/consumer.go: events are read, routed by their topic and
-- committed. The log of Kafka is the list of its messages; the reader hands them out in their order
-- from its position on, and after a restart from the offset that was committed last. What the JSON
-- decoder makes of a payload is a parameter. A send to a channel that is drained takes place; one that
-- blocks until the context is cancelled ends the loop.
pub mod Deliveries
use iicpc.Prelude.{
  ℕ, suc, ◌+◌, Bool, true, false, Option, none, some, List, [], ◌∷◌, ◌++◌, if◌then◌else◌, drop,
}
use iicpc.Artifact.{Text, same_text}

pub record Message : Type 0 where
  pub topic : Text
  pub value : Text

-- "telemetry.raw." and "telemetry.fills.", before the environment.
unfoldable pub raw_topic : Text → Text
raw_topic env = 116 ∷ 101 ∷ 108 ∷ 101 ∷ 109 ∷ 101 ∷ 116 ∷ 114 ∷ 121 ∷ 46 ∷ 114 ∷ 97 ∷ 119 ∷ 46 ∷ env

unfoldable pub fill_topic : Text → Text
fill_topic env =
    116 ∷ 101 ∷ 108 ∷ 101 ∷ 109 ∷ 101 ∷ 116 ∷ 114 ∷ 121 ∷ 46 ∷ 102 ∷ 105 ∷ 108 ∷ 108 ∷ 115 ∷ 46
    ∷ env

-- The decoders; `none` is an error.
pub record Decoders : Type 1 where
  pub TelemetryEvent : Type 0
  pub FillEvent : Type 0
  pub deserialize_telemetry_event : Text → Option TelemetryEvent
  pub deserialize_fill_event : Text → Option FillEvent

-- What happens next: a message is fetched, handled, and its offset is committed or not; one is
-- fetched and its send blocks until the context is cancelled; the fetch fails; or the consumer starts
-- again, at any time, after a crash or an end.
pub data Turn : Type 0 where
  handled : Bool → Turn
  blocked : Turn
  fetch_failed : Turn
  restarted : Turn

module _ (dec : Decoders) (env : Text) where
  open dec use {TelemetryEvent, FillEvent, deserialize_telemetry_event, deserialize_fill_event}

  -- The consumer, with what went through its channels, the first event in front.
  pub record Consumer : Type 0 where
    pub running : Bool
    pub position : ℕ
    pub committed : ℕ
    pub raw : List TelemetryEvent
    pub fills : List FillEvent

  abbrev pub new_consumer : Consumer
  new_consumer = record { running = true; position = 0; committed = 0; raw = []; fills = [] }

  unfoldable pub decoded_raw : Message → Option TelemetryEvent
  unfolding raw_topic
  decoded_raw m =
      if same_text m.topic (raw_topic env) then deserialize_telemetry_event m.value else none

  -- A message on the topic of the fills, which is looked at second.
  unfoldable pub decoded_fill : Message → Option FillEvent
  unfolding raw_topic fill_topic
  decoded_fill m =
      if same_text m.topic (raw_topic env)
      then none
      else if same_text m.topic (fill_topic env)
      then deserialize_fill_event m.value
      else none

  -- The switch over the topic.
  unfoldable pub dispatch : Message → Consumer → Consumer
  unfolding decoded_raw decoded_fill
  dispatch m s = record s {
    raw = elim (decoded_raw m) [ none ↦ s.raw | some e ↦ s.raw ++ e ∷ [] ];
    fills = elim (decoded_fill m) [ none ↦ s.fills | some f ↦ s.fills ++ f ∷ [] ];
  }

  -- The rest of the turn of a message.
  unfoldable pub commit : Bool → Consumer → Consumer
  commit works s = record s {
    position = s.position + 1;
    committed = if works then s.position + 1 else s.committed;
  }

  unfoldable pub handle_next : Bool → List Message → Consumer → Consumer
  unfolding dispatch commit
  handle_next works [] s = s
  handle_next works (m ∷ later) s = commit works (dispatch m s)

  unfoldable pub turn : List Message → Turn → Consumer → Consumer
  unfolding handle_next
  turn log (handled works) s =
      let next = handle_next works (drop s.position log) s in if s.running then next else s
  turn log blocked s = record s { running = false }
  turn log fetch_failed s = s
  turn log restarted s = record s { running = true; position = s.committed }

  -- `Run`, and the runs after it.
  unfoldable pub run : List Message → List Turn → Consumer → Consumer
  unfolding turn
  run log [] s = s
  run log (t ∷ ts) s = run log ts (turn log t s)
