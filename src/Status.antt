-- ===== src/Status.antt =====
-- libs/shared-go/types/status.go: the status values of a benchmark run, and the set of the terminal
-- ones.
use iicpc.Prelude.{Bool, true, false, String, String_discrete}

-- The statuses are string constants in the source; `unknown` is any other string.
pub data RunStatus : Type 0 where
  queued building deploying running collecting scoring complete : RunStatus
  build_failed build_timeout sandbox_crash network_setup_failed no_endpoints : RunStatus
  provisioning_timeout insufficient_capacity collection_timeout failed : RunStatus
  unknown : String → RunStatus

pub RunStatus-discrete : Discrete RunStatus
RunStatus-discrete = hlevel String_discrete

-- `TerminalBenchmarkRunStatuses` and the lookup of `IsTerminal`: a missing key reads as false.
unfoldable pub is_terminal : RunStatus → Bool
is_terminal complete = true
is_terminal build_failed = true
is_terminal build_timeout = true
is_terminal sandbox_crash = true
is_terminal network_setup_failed = true
is_terminal no_endpoints = true
is_terminal provisioning_timeout = true
is_terminal insufficient_capacity = true
is_terminal collection_timeout = true
is_terminal failed = true
is_terminal _ = false
