-- ===== src/Tests/Providers.antt =====
-- The two providers, and the targets of their messages.
use interlook.Prelude.{ℕ, suc, min, ◌^◌, ◌<◌, ◌≡◌, refl, none, List, [], ◌∷◌, arith, map}
use interlook.Strconv.{itoa}
use interlook.Calls.{ok}
use interlook.Dict.{lookup}
use interlook.Comm.{Target}
use interlook.Comm.Weights.{weighted, uint32}
use interlook.Comm.Weights.Keys.{IsPlain}
use interlook.Comm.Weights.Counts.{weight_on, occurrences, weighted-counts}
use interlook.Kubernetes.{
  KubeService, KubeCli, Pod, kube_message, with_targets, build_message_from_service,
}
use interlook.Kubernetes.Replies.{build_message_from_service-exposes}
use interlook.Swarm.{SwarmConfig, SwarmService, PortConfig, ServicePublishConfig, DockerCli}
use interlook.Tests.{lacks-Lacks}
use interlook.Tests.Runs.{same_order}

abbrev target : ℕ → Target
target port = record { host = "10.0.0.1"; port = port; weight = 0 }

target-IsPlain : (port : ℕ) → port < 2 ^ 32 → IsPlain (target port)
target-IsPlain port small = record { host = lacks-Lacks b':' "10.0.0.1" refl; port = small }

abbrev three : List Target
three = target 80 ∷ target 443 ∷ target 80 ∷ []

weighted-counts_example :
    (occurrences "10.0.0.1" 80 (weighted same_order three)
      ≡ min 1 (occurrences "10.0.0.1" 80 three))
    × (weight_on "10.0.0.1" 80 (weighted same_order three) ≡ occurrences "10.0.0.1" 80 three)
weighted-counts_example =
    weighted-counts "10.0.0.1" 80 same_order three (λ f t. refl)
      (
        target-IsPlain 80 (omega arith),
        (target-IsPlain 443 (omega arith), (target-IsPlain 80 (omega arith), tt)),
      )

abbrev kube_service : KubeService
kube_service = record {
  name = "web";
  kind = "NodePort";
  labels = ("interlook.hosts", "web.example") ∷ ("interlook.port", "80") ∷ [];
  selector = ("app", "web") ∷ [];
  ports = record { port = 443; node_port = 30443 } ∷ record { port = 80; node_port = 30080 } ∷ [];
}

abbrev cluster : KubeCli ℕ
cluster = record {
  services = λ s n. (suc n, ok (kube_service ∷ []));
  service = λ name n. (suc n, ok (record kube_service { name = name }));
  pods = λ s n. (suc n, ok (record { host_ip = "10.0.0.7" } ∷ []));
  server_version = λ n. (suc n, ok "v1.14.0");
}

build_message_from_service-exposes_example : build_message_from_service cluster kube_service 0 ≡ (
  1,
  with_targets (kube_message kube_service) (
      map
        (λ (p : Pod). record { host = p.host_ip; port = uint32 30080; weight = 0 })
        (record { host_ip = "10.0.0.7" } ∷ [])),
  none,
)
unfolding itoa lookup
build_message_from_service-exposes_example =
    build_message_from_service-exposes cluster kube_service 0 1
      (record { port = 443; node_port = 30443 } ∷ []) [] (record { port = 80; node_port = 30080 })
      ("app", "web") [] (record { host_ip = "10.0.0.7" }) [] refl refl tt refl refl

abbrev ingress : PortConfig
ingress = record { target_port = 80; published_port = 8080; publish_mode = "ingress" }

abbrev host_port : PortConfig
host_port = record { target_port = 443; published_port = 8443; publish_mode = "host" }

abbrev no_ports : ServicePublishConfig
no_ports = record {
  ip = "10.0.0.7";
  port_config = record { target_port = 0; published_port = 0; publish_mode = "" };
}

abbrev swarm_service : SwarmService
swarm_service = record {
  name = "web";
  labels = ("interlook.hosts", "web.example") ∷ ("interlook.port", "80") ∷ [];
  ports = ingress ∷ [];
}

abbrev pub swarm : DockerCli ℕ
swarm = record {
  service_list = λ f n. (suc n, ok (swarm_service ∷ []));
  task_list = λ f n. (suc n, ok (record { node_id = "a"; ports = [] } ∷ []));
  node_list = λ f n. (suc n, ok ("10.0.0.7" ∷ []));
}

abbrev pub settings : SwarmConfig
settings = record {
  endpoint = "tcp://10.0.0.2:2376";
  tls_ca = "ca.pem";
  tls_cert = "cert.pem";
  tls_key = "key.pem";
  label_selector = [];
  poll_interval = 15;
  service_filters = [];
}
