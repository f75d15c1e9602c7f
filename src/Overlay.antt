-- ===== src/Overlay.antt =====
-- services/sandbox-controller/internal/network/overlay.go: the network of a run, which is a network
-- attachment and a policy. The cluster holds both by their name; creating what is there and deleting
-- what is not are the answers that the source lets pass, and any other failure is an answer of the
-- call. The texts of the CNI configuration are left out.
pub mod Network
use iicpc.Prelude.{
  Bool, true, false, not, ◌||◌, ◌&&◌, Option, none, some, List, [], ◌∷◌, String, str_eq,
  if◌then◌else◌, any,
}
use iicpc.Artifact.{Text, same_text}

-- "sandbox-run-", and the run.
unfoldable pub nad_name : Text → Text
nad_name run = 115 ∷ 97 ∷ 110 ∷ 100 ∷ 98 ∷ 111 ∷ 120 ∷ 45 ∷ 114 ∷ 117 ∷ 110 ∷ 45 ∷ run

-- One rule admits the peers of an address range on all ports of TCP.
pub record NetworkPolicy : Type 0 where
  pub selects_run : Text
  pub ingress : List String

unfoldable pub build_network_policy : Text → String → String → NetworkPolicy
build_network_policy run bot_cidr telemetry_cidr = record {
  selects_run = run;
  ingress = bot_cidr ∷ telemetry_cidr ∷ [];
}

pub record Cluster : Type 0 where
  pub nads : Text → Bool
  pub policies : Text → Option NetworkPolicy

-- The environment variables, and the calls that fail.
pub record World : Type 0 where
  pub bot_fleet_cidr : String
  pub telemetry_ingester_cidr : String
  pub nad_create_fails : Bool
  pub policy_create_fails : Bool
  pub nad_delete_fails : Bool
  pub policy_delete_fails : Bool

pub record OverlayNetwork : Type 0 where
  pub name : Text
  pub bot_cidr : String
  pub telemetry_cidr : String

abbrev pub or_default : String → String → String
or_default value default = if str_eq value "" then default else value

unfoldable pub set_nad : Text → Bool → Cluster → Cluster
set_nad name there c = record c { nads = λ n. if same_text n name then there else c.nads n }

unfoldable pub set_policy : Text → Option NetworkPolicy → Cluster → Cluster
set_policy name p c = record c { policies = λ n. if same_text n name then p else c.policies n }

-- A policy that is there stays as it is.
unfoldable pub create_policy : Text → NetworkPolicy → Cluster → Cluster
unfolding set_policy
create_policy name p c = elim (c.policies name) [ some old ↦ c | none ↦ set_policy name (some p) c ]

unfoldable pub delete_nad : World → Text → Cluster → Cluster
unfolding set_nad
delete_nad w name c = if w.nad_delete_fails then c else set_nad name false c

-- `CreateOverlay`; `none` is ErrOverlayCreationFailed.
unfoldable pub create_overlay : World → Text → Cluster → Cluster × Option OverlayNetwork
unfolding nad_name build_network_policy set_nad create_policy delete_nad
create_overlay w run c =
    let bot_cidr = or_default w.bot_fleet_cidr "10.0.0.0/24" in
    let telemetry_cidr = or_default w.telemetry_ingester_cidr "10.0.1.0/24" in
    let name = nad_name run in
    let attached = set_nad name true c in
    if w.nad_create_fails
    then (c, none)
    else if w.policy_create_fails
    then (delete_nad w name attached, none)
    else (
      create_policy name (build_network_policy run bot_cidr telemetry_cidr) attached,
      some (record { name = name; bot_cidr = bot_cidr; telemetry_cidr = telemetry_cidr }),
    )

-- `DeleteOverlay`; both deletions are tried. `true` is nil.
unfoldable pub delete_overlay : World → Text → Cluster → Cluster × Bool
unfolding nad_name set_policy delete_nad
delete_overlay w run c =
    let name = nad_name run in
    let detached = delete_nad w name c in
    (
      if w.policy_delete_fails then detached else set_policy name none detached,
      not (w.nad_delete_fails || w.policy_delete_fails),
    )
