-- ===== src/SandboxServer.antt =====
-- services/sandbox-controller/internal/grpc/server.go, over endpoint/registry.go: which endpoints of a
-- run the bots are told. A hash of Redis is a list of its entries, which HGETALL gives in any order;
-- JSON loses nothing. The store of the sandboxes, Redis's outages and the termination are parameters.
pub mod Hashes
pub mod Writes
pub mod Served
use mathlib.Core.List.{Perm}
use iicpc.Prelude.{
  ℕ, Bool, true, false, Option, none, some, List, [], ◌∷◌, map, filter, String, str_eq,
  if◌then◌else◌, ◌%◌,
}
use iicpc.Prelude.Map.{put}
use iicpc.Sandbox.{
  Availability, available, unavailable, SandboxPhase, running, EndpointInfo, Effect,
  creates_overlay, deletes_overlay, creates_pod, stores, stores_one,
}

-- The hash of a run, by protocol.
abbrev pub Hash : Type 0
Hash = List (String × EndpointInfo)

abbrev pub Redis : Type 0
Redis = String → Hash

abbrev pub put_all : List EndpointInfo → Hash → Hash
put_all [] h = h
put_all (ep ∷ eps) h = put_all eps (put h ep.protocol ep)

abbrev pub update_key : String → Hash → Redis → Redis
update_key run h redis r = if str_eq run r then h else redis r

-- `RegisterEndpoints` and `UpdateEndpointStatus`.
unfoldable pub register_endpoints : String → List EndpointInfo → Redis → Redis
register_endpoints run eps redis = update_key run (put_all eps (redis run)) redis

unfoldable pub update_endpoint_status : String → EndpointInfo → Redis → Redis
update_endpoint_status run ep redis = update_key run (put (redis run) ep.protocol ep) redis

-- What the reconciler does to Redis.
unfoldable pub write : Effect → Redis → Redis
write (stores run eps) redis = register_endpoints run eps redis
write (stores_one run ep) redis = update_endpoint_status run ep redis
write (creates_overlay run) redis = redis
write (deletes_overlay run) redis = redis
write (creates_pod name) redis = redis

unfoldable pub write_all : List Effect → Redis → Redis
write_all [] redis = redis
write_all (e ∷ es) redis = write_all es (write e redis)

-- An order in which a map is read.
pub record Order : Type 0 where
  pub arrange : Hash → Hash
  pub arrange-Perm : (h : Hash) → Perm (arrange h) h

-- `GetEndpoints`; `none` is an error.
unfoldable pub get_endpoints : Order → Bool → String → Redis → Option (List EndpointInfo)
get_endpoints order fails run redis =
    if fails
    then none
    else some (map (λ (e : String × EndpointInfo). e.1) (order.arrange (redis run)))

pub data Protocol : Type 0 where
  unspecified fix rest websocket : Protocol

-- An endpoint on the wire; every one that is sent is AVAILABLE.
pub record Endpoint : Type 0 where
  pub internal_ip : String
  pub port : ℕ
  pub submission_id : String
  pub benchmark_run_id : String
  pub protocol : Protocol

abbrev pub protocol_of : String → Protocol
protocol_of p =
    if str_eq p "FIX"
    then fix
    else if str_eq p "REST"
    then rest
    else if str_eq p "WS"
    then websocket
    else unspecified

-- `endpointInfoToProto`.
unfoldable pub endpoint_info_to_proto : EndpointInfo → Endpoint
endpoint_info_to_proto ep = record {
  internal_ip = ep.internal_ip;
  port = ep.port % 4_294_967_296;
  submission_id = ep.submission_id;
  benchmark_run_id = ep.benchmark_run_id;
  protocol = protocol_of ep.protocol;
}

pub data Reply : Type 0 where
  invalid_argument not_ready internal : Reply
  endpoints : List Endpoint → Reply

abbrev pub is_available : EndpointInfo → Bool
is_available ep = elim ep.status [ available ↦ true | unavailable ↦ false ]

abbrev pub is_running : Option SandboxPhase → Bool
is_running (some running) = true
is_running _ = false

abbrev pub reply_with : Option (List EndpointInfo) → Reply
reply_with none = internal
reply_with (some eps) = endpoints (map endpoint_info_to_proto (filter is_available eps))

-- `GetSandboxEndpoints`, with the phase that the store knows.
unfoldable pub get_sandbox_endpoints : Order → Option SandboxPhase → Bool → String → Redis → Reply
get_sandbox_endpoints order phase fails run redis =
    if str_eq run ""
    then invalid_argument
    else if is_running phase
    then reply_with (get_endpoints order fails run redis)
    else not_ready

pub data StatusReply : Type 0 where
  no_run_id not_found : StatusReply
  sandbox_status : SandboxPhase → String → StatusReply

abbrev pub ip_or_empty : Option String → String
ip_or_empty none = ""
ip_or_empty (some ip) = ip

abbrev pub status_reply : Option SandboxPhase → Option String → StatusReply
status_reply none ip = not_found
status_reply (some phase) ip = sandbox_status phase (ip_or_empty ip)

-- `GetSandboxStatus`.
unfoldable pub get_sandbox_status : Option SandboxPhase → Option String → String → StatusReply
get_sandbox_status phase ip run = if str_eq run "" then no_run_id else status_reply phase ip

pub data TerminateReply : Type 0 where
  no_run terminate_failed terminated : TerminateReply

-- `TerminateSandbox`, with whether the store fails.
unfoldable pub terminate_sandbox : Bool → String → TerminateReply
terminate_sandbox fails run =
    if str_eq run "" then no_run else if fails then terminate_failed else terminated
