-- ===== src/Kubernetes.antt =====
-- provider/kubernetes/kubernetes.go: the messages that are built from the services of a cluster. The
-- client of the cluster is not part of the repository: it is a record of operations on a state. A
-- selector is listed in the order in which the code ranges over it.
pub mod Replies
pub mod Loop
use Prim.Native.String
use interlook.Prelude.{
  ℕ, ◌*◌, ◌^◌, String, Bool, true, false, Option, none, some, List, [], ◌∷◌, ◌++◌, map, ◌==◌, eqb,
  if◌then◌else◌, split,
}
use interlook.Strconv.{itoa, text, join_by, parse_bool}
use interlook.Dict.{lookup}
use interlook.Calls.{Act, Result, ok, failed}
use interlook.Comm.{
  Message, Target, no_message, no_service, add_action, refresh_action, build_delete_message,
}
use interlook.Comm.Weights.{uint32}

-- The settings of `Extension`. The interval is in nanoseconds.
pub record KubeConfig : Type 0 where
  pub endpoint : String
  pub tls_ca : String
  pub tls_cert : String
  pub tls_key : String
  pub label_selector : List String
  pub poll_interval : ℕ
  pub list_selector : String

pub record ServicePort : Type 0 where
  pub port : ℕ
  pub node_port : ℕ

pub record KubeService : Type 0 where
  pub name : String
  pub kind : String
  pub labels : List (String × String)
  pub selector : List (String × String)
  pub ports : List ServicePort

pub record Pod : Type 0 where
  pub host_ip : String

-- The lists of services and pods that fit a selector, and the service of a name.
pub record KubeCli (W : Type 0) : Type 0 where
  pub services : String → Act W (List KubeService)
  pub service : String → Act W KubeService
  pub pods : String → Act W (List Pod)
  pub server_version : Act W String

abbrev pub hosts_label : String
hosts_label = "interlook.hosts"

abbrev pub port_label : String
port_label = "interlook.port"

abbrev pub ssl_label : String
ssl_label = "interlook.ssl"

abbrev pub node_port_type : String
node_port_type = "NodePort"

abbrev pub value_or : String → Option String → String
value_or d none = d
value_or d (some v) = v

-- `labels[key]`, the empty text if there is no such label
abbrev pub label : String → List (String × String) → String
label key labels = value_or "" (lookup key labels)

unfoldable pub init_selector : List String → String
unfolding join_by
init_selector [] = text (hosts_label ∷ "," ∷ port_label ∷ [])
init_selector (l ∷ ls) = text (hosts_label ∷ "," ∷ port_label ∷ "," ∷ join_by "," (l ∷ ls) ∷ [])

-- `init`
unfoldable pub init_kube : KubeConfig → KubeConfig
unfolding init_selector
init_kube p = record p {
  poll_interval = if eqb p.poll_interval 0 then 15 * 10 ^ 9 else p.poll_interval;
  list_selector = init_selector p.label_selector;
}

-- The node port of the last port that the label names; 0 if there is none.
unfoldable pub node_port_of : ℕ → String → List ServicePort → ℕ
unfolding itoa
node_port_of found wanted [] = found
node_port_of found wanted (port ∷ ports) =
    node_port_of (if itoa port.port == wanted then port.node_port else found) wanted ports

abbrev pub equation : String × String → String
equation (k, v) = text (k ∷ "=" ∷ v ∷ [])

abbrev pub target_on : ℕ → Pod → Target
target_on port pod = record { host = pod.host_ip; port = uint32 port; weight = 0 }

abbrev pub with_targets : Message → List Target → Message
with_targets msg targets = record msg { service = record (msg.service) { targets = targets } }

-- The message without its targets.
unfoldable pub kube_message : KubeService → Message
unfolding parse_bool
kube_message service = record no_message {
  action = add_action;
  service = record no_service {
    name = service.name;
    provider = "provider.kubernetes";
    dns_aliases = split b',' (label hosts_label service.labels);
    tls = parse_bool (label ssl_label service.labels);
  };
}

-- The message and the error that `buildMessageFromService` returns, from the pods found.
abbrev pub with_pods : Message → ℕ → Result (List Pod) → Message × Option String
with_pods msg port (failed e) = (msg, some (text ("error getting pods: " ∷ e ∷ [])))
with_pods msg port (ok []) =
    (msg, some (text ("no pod found for service " ∷ msg.service.name ∷ [])))
with_pods msg port (ok (pod ∷ pods)) = (with_targets msg (map (target_on port) (pod ∷ pods)), none)

abbrev pub from_pods :
    {W : Type 0} → Message → ℕ → W × Result (List Pod) → W × Message × Option String
from_pods msg port (w, found) = let (m, e) = with_pods msg port found in (w, m, e)

module _ {W : Type 0} (cli : KubeCli W) where
  abbrev pub select_pods : List (String × String) → Message → ℕ → W → W × Message × Option String
  select_pods [] msg port w = (w, msg, none)
  select_pods (kv ∷ selector) msg port w =
      from_pods msg port (cli.pods (join_by "," (map equation (kv ∷ selector))) w)

  unfoldable pub build_message_from_service : KubeService → W → W × Message × Option String
  unfolding kube_message node_port_of join_by
  build_message_from_service service w =
      select_pods service.selector (kube_message service)
        (node_port_of 0 (label port_label service.labels) service.ports) w

  -- The loop of `poll`: an error is only logged.
  unfoldable pub poll_services : List KubeService → W → W × List Message
  unfolding build_message_from_service
  poll_services [] w = (w, [])
  poll_services (svc ∷ items) w =
      let (w1, msg, _) = build_message_from_service svc w in
      let polled = poll_services items w1 in
      let skipped = poll_services items w in
      if svc.kind == node_port_type then (polled.0, msg ∷ polled.1) else skipped

  abbrev polled_from : W × Result (List KubeService) → W × List Message
  polled_from (w, failed e) = (w, [])
  polled_from (w, ok items) = poll_services items w

  -- `poll`: the messages that are sent
  unfoldable pub poll : KubeConfig → W → W × List Message
  unfolding poll_services
  poll p w = polled_from (cli.services p.list_selector w)

  abbrev pub refreshed : String → W × Message × Option String → W × Message
  refreshed name (w, msg, none) = (w, msg)
  refreshed name (w, msg, some e) =
      (w, record msg { error = text ("Error building message for " ∷ name ∷ ": " ∷ e ∷ []) })

  abbrev pub found_service : W × Result KubeService → W × Option KubeService
  found_service (w, failed e) = (w, none)
  found_service (w, ok svc) = (w, some svc)

  unfoldable pub get_kube_service : String → W → W × Option KubeService
  get_kube_service name w = found_service (cli.service name w)

  abbrev pub refreshed_from : String → W × Option KubeService → W × Message
  refreshed_from name (w, none) = (w, build_delete_message name)
  refreshed_from name (w, some svc) = refreshed name (build_message_from_service svc w)

  -- `RefreshService`: the message that is sent
  unfoldable pub refresh : String → W → W × Message
  unfolding get_kube_service build_message_from_service build_delete_message
  refresh name w = refreshed_from name (get_kube_service name w)

  abbrev sent_one : W × Message → W × List Message
  sent_one (w, msg) = (w, msg ∷ [])

  -- One message of the loop of `Start`
  unfoldable pub receive_kube : Message → W → W × List Message
  unfolding refresh
  receive_kube msg w =
      if msg.action == refresh_action then sent_one (refresh msg.service.name w) else (w, [])
