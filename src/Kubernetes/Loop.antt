-- ===== src/Kubernetes/Loop.antt =====
-- provider/kubernetes/kubernetes.go: the connection and the whole of `Start`.
use interlook.Prelude.{String, Bool, false, Option, none, some, List, []}
use interlook.Calls.{Result, ok, failed}
use interlook.Loop.{Event, returned, errored, Handlers, Served, serve_events}
use interlook.Kubernetes.{KubeConfig, KubeCli, init_kube, poll, receive_kube}

module _ {W : Type 0} (cli : KubeCli W) where
  unfoldable pub kube_handlers : KubeConfig → Handlers W
  unfolding poll receive_kube
  kube_handlers p = record {
    on_poll = poll cli p;
    on_message = receive_kube cli;
    on_stop = λ w. returned;
  }

  abbrev checked : KubeConfig → List Event → W × Result String → Served W
  checked p events (w, failed e) = (w, [], errored)
  checked p events (w, ok version) = serve_events (kube_handlers p) events w

  -- `Start` once the client is there: the version of the server is asked for first.
  unfoldable pub start_kube : KubeConfig → List Event → W → Served W
  unfolding init_kube kube_handlers serve_events
  start_kube p events w = checked (init_kube p) events (cli.server_version w)

-- The parts of `rest.Config` that are set.
pub record RestConfig : Type 0 where
  pub host : String
  pub insecure : Bool
  pub cert_file : String
  pub key_file : String
  pub ca_file : String
  pub user_agent : String

abbrev pub rest_config : KubeConfig → RestConfig
rest_config p = record {
  host = p.endpoint;
  insecure = false;
  cert_file = p.tls_cert;
  key_file = p.tls_key;
  ca_file = p.tls_ca;
  user_agent = "interlook";
}

module _ {W : Type 0} (new_for_config : RestConfig → Result (KubeCli W)) where
  -- `connect`
  unfoldable pub connect : KubeConfig → Result (KubeCli W)
  connect p = new_for_config (rest_config p)

  abbrev started_with : KubeConfig → List Event → W → Result (KubeCli W) → Served W
  started_with p events w (failed e) = (w, [], errored)
  started_with p events w (ok cli) = start_kube cli p events w

  -- `Start`, which makes a client if there is none.
  unfoldable pub start_kube_from : KubeConfig → Option (KubeCli W) → List Event → W → Served W
  unfolding connect start_kube
  start_kube_from p (some cli) events w = start_kube cli p events w
  start_kube_from p none events w = started_with p events w (connect p)
