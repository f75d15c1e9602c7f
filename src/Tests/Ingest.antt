-- ===== src/Tests/Ingest.antt =====
-- A log that is consumed with a failing commit and a restart, a fill, and the network of a run
-- (consumer.go, fill_validator.go, overlay.go).
use iicpc.Prelude.{ℕ, ◌≡◌, ◌⊎◌, refl, true, false, Option, none, some, List, [], ◌∷◌, take, All}
use iicpc.Artifact.{Text, same_text}
use iicpc.Events.{
  Message, Decoders, Turn, handled, blocked, fetch_failed, restarted, new_consumer, run, raw_topic,
  fill_topic,
}
use iicpc.Events.Deliveries.{IsDelivered, run-IsDelivered}
use iicpc.Fills.{Fill}
use iicpc.Overlay.{nad_name, Cluster, World, create_overlay, delete_overlay}
use iicpc.Overlay.Network.{IsClear, IsComplete, Keeps, is_created, overlay-whole}

abbrev first_byte : Text → Option ℕ
first_byte [] = none
first_byte (b ∷ bs) = some b

abbrev decoders : Decoders
decoders = record {
  TelemetryEvent = ℕ;
  FillEvent = ℕ;
  deserialize_telemetry_event = first_byte;
  deserialize_fill_event = first_byte;
}

-- "dev".
abbrev env : Text
env = 100 ∷ 101 ∷ 118 ∷ []

-- Two raw events, one that cannot be decoded, a fill, and a message on another topic.
abbrev log : List Message
log =
    record { topic = raw_topic env; value = 7 ∷ [] }
    ∷ record { topic = raw_topic env; value = [] }
    ∷ record { topic = fill_topic env; value = 8 ∷ [] }
    ∷ record { topic = []; value = 9 ∷ [] }
    ∷ record { topic = raw_topic env; value = 10 ∷ [] }
    ∷ []

abbrev turns : List Turn
turns =
    handled true
    ∷ fetch_failed
    ∷ handled true
    ∷ handled false
    ∷ blocked
    ∷ restarted
    ∷ handled true
    ∷ handled true
    ∷ []

-- The fill went through twice: its commit had failed.
twice : (run decoders env log turns (new_consumer decoders env)).fills ≡ 8 ∷ 8 ∷ []
unfolding run raw_topic fill_topic same_text
twice = refl

four_committed : (run decoders env log turns (new_consumer decoders env)).committed ≡ 4
unfolding run raw_topic fill_topic same_text
four_committed = refl

run-IsDelivered_example :
    let s = run decoders env log turns (new_consumer decoders env) in
    All (IsDelivered decoders env s) (take s.committed log)
run-IsDelivered_example = run-IsDelivered decoders env log turns

abbrev expected : Fill
expected = record { order_id = "o1"; price = "10.5"; qty = 3; resting_order_id = "r1" }

abbrev late : Fill
late = record expected { resting_order_id = "r2" }

abbrev bare_cluster : Cluster
bare_cluster = record { nads = λ n. false; policies = λ n. none }

abbrev world : World
world = record {
  bot_fleet_cidr = "";
  telemetry_ingester_cidr = "10.9.0.0/24";
  nad_create_fails = false;
  policy_create_fails = false;
  nad_delete_fails = false;
  policy_delete_fails = false;
}

other_name : same_text [] (nad_name env) ≡ false
unfolding same_text nad_name
other_name = refl

overlay-whole_example :
    let o = create_overlay world env bare_cluster in
    let d = delete_overlay world env o.0 in
    (((is_created o.1 ≡ true) × IsComplete world env o.0)
      ⊎ ((is_created o.1 ≡ false) × IsClear env o.0))
    × (d.1 ≡ true)
    × IsClear env d.0
    × Keeps [] bare_cluster o.0
    × Keeps [] bare_cluster d.0
overlay-whole_example =
    overlay-whole world world env [] bare_cluster (refl, refl) refl refl refl other_name
