-- ===== src/Swarm.antt =====
-- provider/swarm/swarm.go: the messages that are built from the services of a Docker swarm. The
-- client of Docker is not part of the repository: it is a record of operations on a state. The
-- filters of a request are the list of their names and values.
pub mod Replies
pub mod Loop
use Prim.Native.String
use interlook.Prelude.{
  ℕ, ◌*◌, ◌^◌, String, Bool, true, false, not, ◌&&◌, Option, none, some, List, [], ◌∷◌, ◌++◌, map,
  ◌==◌, eqb, if◌then◌else◌, split,
}
use interlook.Strconv.{text, parse_bool, ℤ, pos, negsuc, atoi}
use interlook.Calls.{Act, Result, ok, failed, ◌>>=◌, pure, fails}
use interlook.Comm.{
  Message, Target, no_message, no_service, add_action, refresh_action, build_delete_message,
}
use interlook.Kubernetes.{hosts_label, port_label, ssl_label, label}

abbrev pub Filters : Type 0
Filters = List (String × String)

-- The settings of `Provider`. The interval is in nanoseconds.
pub record SwarmConfig : Type 0 where
  pub endpoint : String
  pub tls_ca : String
  pub tls_cert : String
  pub tls_key : String
  pub label_selector : List String
  pub poll_interval : ℕ
  pub service_filters : Filters

-- The parts of `swarm.PortConfig` that the code reads.
pub record PortConfig : Type 0 where
  pub target_port : ℕ
  pub published_port : ℕ
  pub publish_mode : String

pub record SwarmService : Type 0 where
  pub name : String
  pub labels : List (String × String)
  pub ports : List PortConfig

pub record SwarmTask : Type 0 where
  pub node_id : String
  pub ports : List PortConfig

pub record ServicePublishConfig : Type 0 where
  pub ip : String
  pub port_config : PortConfig

-- `dockerCliInterface`; a node is its address.
pub record DockerCli (W : Type 0) : Type 0 where
  pub service_list : Filters → Act W (List SwarmService)
  pub task_list : Filters → Act W (List SwarmTask)
  pub node_list : Filters → Act W (List String)

abbrev pub no_port : PortConfig
no_port = record { target_port = 0; published_port = 0; publish_mode = "" }

abbrev pub labelled : List String → Filters
labelled = map (λ value. ("label", value))

-- `init`; `none` is the panic of `time.NewTicker` on an interval of 0, which comes before the default
-- is set.
unfoldable pub init_swarm : SwarmConfig → Option SwarmConfig
init_swarm p =
    let filters = labelled (p.label_selector ++ hosts_label ∷ port_label ∷ []) in
    if eqb p.poll_interval 0 then none else some (record p { service_filters = filters })

unfoldable pub slice_contain_string : (String → String) → String → List String → Bool
slice_contain_string to_upper s [] = false
slice_contain_string to_upper s (x ∷ sl) =
    if to_upper x == to_upper s then true else slice_contain_string to_upper s sl

unfoldable pub last_port : PortConfig → List PortConfig → PortConfig
last_port found [] = found
last_port found (pp ∷ ports) = last_port pp ports

-- The services that are published through the ingress network on the port that is looked for.
abbrev pub is_ingress : ℤ → PortConfig → Bool
is_ingress (pos n) port = eqb port.target_port n && port.publish_mode == "ingress"
is_ingress (negsuc n) port = false

abbrev pub through : PortConfig → ServicePublishConfig → ServicePublishConfig
through port spc = record { ip = spc.ip; port_config = port }

-- The loop over the ports of the endpoint: each that fits adds one entry for each entry so far.
unfoldable pub add_ingress :
    ℤ → List PortConfig → List ServicePublishConfig → List ServicePublishConfig
add_ingress target [] info = info
add_ingress target (port ∷ ports) info =
    add_ingress target ports
      (if is_ingress target port then info ++ map (through port) info else info)

unfoldable pub published_targets : List ServicePublishConfig → List Target
published_targets [] = []
published_targets (pm ∷ info) =
    if not (eqb pm.port_config.published_port 0)
    then record { host = pm.ip; port = pm.port_config.published_port; weight = 0 }
      ∷ published_targets info
    else published_targets info

-- The message without its targets.
unfoldable pub swarm_message : SwarmService → Message
unfolding parse_bool
swarm_message service = record no_message {
  action = add_action;
  service = record no_service {
    name = service.name;
    provider = "provider.swarm";
    dns_aliases = split b',' (label hosts_label service.labels);
    tls = parse_bool (label ssl_label service.labels);
  };
}

abbrev pub with_published :
    Message → ℤ → List PortConfig → List ServicePublishConfig → Message × Option String
with_published msg target [] info = (msg, some "service has no published port")
with_published msg target (port ∷ ports) info = (
  record msg {
    service = record (msg.service) {
      targets = published_targets (add_ingress target (port ∷ ports) info);
    };
  },
  none,
)

module _ {W : Type 0} (cli : DockerCli W) where
  abbrev only_node : String → List String → Act W String
  only_node node_id (addr ∷ []) = pure addr
  only_node node_id _ = fails (text ("Could not get node " ∷ node_id ∷ "'s IP" ∷ []))

  unfoldable pub get_node_ip : String → Act W String
  get_node_ip node_id = cli.node_list (("id", node_id) ∷ []) >>= only_node node_id

  abbrev pub publish_at :
      SwarmTask → Result String → List ServicePublishConfig → List ServicePublishConfig
  publish_at task (failed e) rest = rest
  publish_at task (ok addr) rest =
      record { ip = addr; port_config = last_port no_port task.ports } ∷ rest

  -- A task whose node has no single address is left out.
  unfoldable pub publish_tasks : List SwarmTask → W → W × List ServicePublishConfig
  unfolding get_node_ip last_port
  publish_tasks [] w = (w, [])
  publish_tasks (task ∷ tasks) w =
      let (w1, addr) = get_node_ip task.node_id w in
      let (w2, rest) = publish_tasks tasks w1 in (w2, publish_at task addr rest)

  abbrev published_from : W × Result (List SwarmTask) → W × List ServicePublishConfig
  published_from (w, failed e) = (w, [])
  published_from (w, ok tasks) = publish_tasks tasks w

  -- An error of the request is only logged by the caller, and leaves the list empty.
  unfoldable pub get_task_publish_info : String → W → W × List ServicePublishConfig
  unfolding publish_tasks
  get_task_publish_info svc_name w =
      published_from (cli.task_list (("desired-state", "running") ∷ ("service", svc_name) ∷ []) w)

  -- The message and the error of `buildMessageFromService`, at the number that the label stands for.
  -- The error text of a label that is no number leaves out that of `Atoi`.
  abbrev pub build_at : SwarmService → Option ℤ → W → W × Message × Option String
  build_at service none w = (
    w,
    swarm_message service,
    some (text ("Error converting " ∷ label port_label service.labels ∷ " to int" ∷ [])),
  )
  build_at service (some target) w =
      let (w1, info) = get_task_publish_info service.name w in
      let (m, e) = with_published (swarm_message service) target service.ports info in (w1, m, e)

  unfoldable pub build_from_service : SwarmService → W → W × Message × Option String
  unfolding swarm_message get_task_publish_info add_ingress published_targets atoi
  build_from_service service w = build_at service (atoi (label port_label service.labels)) w

  abbrev pub sent_if : Message → Option String → List Message → List Message
  sent_if msg (some e) rest = rest
  sent_if msg none rest = elim msg.service.targets [ [] ↦ rest | _ ∷ _ ↦ msg ∷ rest ]

  -- The loop of `poll`
  unfoldable pub poll_swarm_services : List SwarmService → W → W × List Message
  unfolding build_from_service
  poll_swarm_services [] w = (w, [])
  poll_swarm_services (service ∷ services) w =
      let (w1, msg, err) = build_from_service service w in
      let (w2, rest) = poll_swarm_services services w1 in (w2, sent_if msg err rest)

  abbrev pub polled_from : W × Result (List SwarmService) → W × List Message
  polled_from (w, failed e) = (w, [])
  polled_from (w, ok services) = poll_swarm_services services w

  unfoldable pub get_filtered_services : SwarmConfig → Act W (List SwarmService)
  get_filtered_services p = cli.service_list p.service_filters

  -- `poll`: the messages that are sent
  unfoldable pub poll_swarm : SwarmConfig → W → W × List Message
  unfolding poll_swarm_services get_filtered_services
  poll_swarm p w = polled_from (get_filtered_services p w)

  abbrev pub first_service : Result (List SwarmService) → Option SwarmService
  first_service (failed e) = none
  first_service (ok []) = none
  first_service (ok (service ∷ services)) = some service

  -- The name is added to the filters for one request.
  unfoldable pub get_swarm_service : SwarmConfig → String → W → W × Option SwarmService
  get_swarm_service p svc_name w =
      let (w1, services) = cli.service_list (p.service_filters ++ ("name", svc_name) ∷ []) w in
      (w1, first_service services)

  -- A message with no name or no targets becomes a delete; the error is only logged.
  abbrev pub or_delete : String → W × Message × Option String → W × Message
  or_delete name (w, msg, err) =
      if msg.service.name == ""
      then (w, build_delete_message name)
      else elim msg.service.targets [ [] ↦ (w, build_delete_message name) | _ ∷ _ ↦ (w, msg) ]

  abbrev pub refreshed_swarm : String → W × Option SwarmService → W × Message
  refreshed_swarm name (w, none) = (w, build_delete_message name)
  refreshed_swarm name (w, some service) = or_delete name (build_from_service service w)

  -- `RefreshService`: the message that is sent
  unfoldable pub refresh_swarm : SwarmConfig → String → W → W × Message
  unfolding get_swarm_service build_from_service build_delete_message
  refresh_swarm p name w = refreshed_swarm name (get_swarm_service p name w)

  abbrev sent_one : W × Message → W × List Message
  sent_one (w, msg) = (w, msg ∷ [])

  -- One message of the loop of `Start`
  unfoldable pub receive_swarm : SwarmConfig → Message → W → W × List Message
  unfolding refresh_swarm
  receive_swarm p msg w =
      if msg.action == refresh_action
      then sent_one (refresh_swarm p msg.service.name w)
      else (w, [])
