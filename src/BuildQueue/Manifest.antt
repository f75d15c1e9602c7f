-- ===== src/BuildQueue/Manifest.antt =====
-- services/build-pipeline/internal/spawner: what job_spawner.go asks of the cluster for a build, and the
-- policy of network_policy.go for its pods. The namespace and the URL of the registry, which come from
-- the configuration, are left out; memory is in GiB.
use iicpc.Prelude.{
  ℕ, Bool, true, false, Option, none, some, List, [], ◌∷◌, ◌++◌, String, any, take, ◌==◌,
  if◌then◌else◌,
}
use iicpc.Artifact.{Text, same_text}

-- "build-".
abbrev pub prefix : Text
prefix = 98 ∷ 117 ∷ 105 ∷ 108 ∷ 100 ∷ 45 ∷ []

abbrev pub max_job_name_len : ℕ
max_job_name_len = 63

-- `buildJobName`.
unfoldable pub build_job_name : Text → Text
build_job_name id = take max_job_name_len (prefix ++ id)

pub record Resources : Type 0 where
  pub cpu : ℕ
  pub memory : ℕ

-- The manifest of a job, with its pod and the container in it.
pub record Job : Type 0 where
  pub name : Text
  pub submission_id : Text
  pub artifact_uri : Text
  pub image : String
  pub backoff_limit : ℕ
  pub active_deadline_seconds : ℕ
  pub automount_token : Bool
  pub restart_policy : String
  pub run_as_non_root : Bool
  pub run_as_user : ℕ
  pub read_only_root : Bool
  pub privilege_escalation : Bool
  pub dropped : List String
  pub limits : Resources
  pub requests : Resources

abbrev pub build_image : String
build_image = "dbhp-build-runner:latest"

-- `buildJobSpec`.
unfoldable pub build_job_spec : Text → Text → Text → Job
build_job_spec name id uri = record {
  name = name;
  submission_id = id;
  artifact_uri = uri;
  image = build_image;
  backoff_limit = 0;
  active_deadline_seconds = 600;
  automount_token = false;
  restart_policy = "Never";
  run_as_non_root = true;
  run_as_user = 1000;
  read_only_root = true;
  privilege_escalation = false;
  dropped = "ALL" ∷ [];
  limits = record { cpu = 4; memory = 8 };
  requests = record { cpu = 4; memory = 8 };
}

-- A policy for the pods with the label of a submission; a rule lets some traffic out.
pub record NetworkPolicy : Type 0 where
  pub name : Text
  pub selects : Text
  pub limits_egress : Bool
  pub limits_ingress : Bool
  pub egress_rules : List Text

-- "build-no-egress-".
abbrev pub policy_prefix : Text
policy_prefix =
    98 ∷ 117 ∷ 105 ∷ 108 ∷ 100 ∷ 45 ∷ 110 ∷ 111 ∷ 45 ∷ 101 ∷ 103 ∷ 114 ∷ 101 ∷ 115 ∷ 115 ∷ 45 ∷ []

-- `BuildNetworkPolicy`.
unfoldable pub build_network_policy : Text → NetworkPolicy
build_network_policy id = record {
  name = policy_prefix ++ id;
  selects = id;
  limits_egress = true;
  limits_ingress = false;
  egress_rules = [];
}

-- The status code of a failed creation, if it has one, is a conflict.
unfoldable pub is_already_exists : Option ℕ → Bool
is_already_exists none = false
is_already_exists (some code) = code == 409

-- What the cluster answers to a creation: a name that is taken is a conflict.
pub data Answer : Type 0 where
  created : Answer
  refused : Option ℕ → Answer

abbrev pub add_policy : Answer → NetworkPolicy → List NetworkPolicy → List NetworkPolicy × Answer
add_policy (refused code) p ps = (ps, refused code)
add_policy created p ps =
    if any (λ q. same_text q.name p.name) ps then (ps, refused (some 409)) else (p ∷ ps, created)

abbrev pub is_applied : Answer → Bool
is_applied created = true
is_applied (refused code) = is_already_exists code

-- `ApplyNetworkPolicy`: the policies of the namespace, and whether there is no error.
unfoldable pub apply_network_policy : Answer → Text → List NetworkPolicy → List NetworkPolicy × Bool
unfolding build_network_policy is_already_exists
apply_network_policy a id ps =
    let o = add_policy a (build_network_policy id) ps in (o.0, is_applied o.1)
