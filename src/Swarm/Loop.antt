-- ===== src/Swarm/Loop.antt =====
-- provider/swarm/swarm.go: the whole of `Start`.
use interlook.Prelude.{
  String, ◌≡◌, refl, ◌⊎◌, inl, inr, ◌≢◌, ◌++◌, eqb_ne, Option, none, some, List, [], ◌∷◌, ◌==◌, All,
  Bool-cases,
}
use interlook.Comm.{Message, refresh_action, build_delete_message}
use interlook.Calls.{Result, ok, failed}
use interlook.Kubernetes.{hosts_label, port_label}
use interlook.Loop.{Event, returned, errored, Handlers, Served, serve_events, serve_events-All}
use interlook.Swarm.{
  labelled, SwarmConfig, SwarmService, DockerCli, init_swarm, poll_swarm, receive_swarm,
  polled_from, get_filtered_services,
}
use interlook.Swarm.Replies.{IsAnnounce, poll_swarm_services-All, refresh_swarm-cases}

module _ {W : Type 0} (cli : DockerCli W) where
  unfoldable pub swarm_handlers : SwarmConfig → Handlers W
  unfolding poll_swarm receive_swarm
  swarm_handlers p = record {
    on_poll = poll_swarm cli p;
    on_message = receive_swarm cli p;
    on_stop = λ w. returned;
  }

-- What the options of the client set.
pub record ClientOptions : Type 0 where
  pub tls : String × String × String
  pub host : String
  pub version : String
  pub user_agent : String

abbrev pub client_options : SwarmConfig → ClientOptions
client_options p = record {
  tls = (p.tls_ca, p.tls_cert, p.tls_key);
  host = p.endpoint;
  version = "1.29";
  user_agent = "interlook";
}

module _ {W : Type 0} (new_client : ClientOptions → Result (DockerCli W)) where
  -- `setCli`
  unfoldable pub set_swarm_cli : SwarmConfig → Result (DockerCli W)
  set_swarm_cli p = new_client (client_options p)

  abbrev pub swarm_cli : SwarmConfig → Option (DockerCli W) → Result (DockerCli W)
  swarm_cli p none = set_swarm_cli p
  swarm_cli p (some cli) = ok cli

  abbrev pub run_with : SwarmConfig → List Event → W → Result (DockerCli W) → Served W
  run_with p events w (failed e) = (w, [], errored)
  run_with p events w (ok cli) = serve_events (swarm_handlers cli p) events w

  abbrev pub run_from :
      Option SwarmConfig → Option (DockerCli W) → List Event → W → Option (Served W)
  run_from none cli events w = none
  run_from (some p) cli events w = some (run_with p events w (swarm_cli p cli))

  -- `Start`, which makes a client if there is none; `none` is the panic of `init`.
  unfoldable pub start_swarm :
      SwarmConfig → Option (DockerCli W) → List Event → W → Option (Served W)
  unfolding init_swarm set_swarm_cli swarm_handlers serve_events
  start_swarm p cli events w = run_from (init_swarm p) cli events w

-- What a provider may send: an announcement, or that a service is gone.
abbrev pub IsNews : Message → Type 0
IsNews m = IsAnnounce m ⊎ ((name : String) × (m ≡ build_delete_message name))

All-IsNews : (msgs : List Message) → All IsAnnounce msgs → All IsNews msgs
All-IsNews [] a = tt
All-IsNews (m ∷ msgs) (h, a) = (inl h, All-IsNews msgs a)

module _ {W : Type 0} (cli : DockerCli W) (p : SwarmConfig) where
  polled_from-IsNews : (r : W × Result (List SwarmService)) → All IsNews (polled_from cli r).1
  polled_from-IsNews (w, failed e) = tt
  polled_from-IsNews (w, ok services) = All-IsNews _ (poll_swarm_services-All cli services w)

  poll_swarm-IsNews : (w : W) → All IsNews ((swarm_handlers cli p).on_poll w).1
  unfolding swarm_handlers poll_swarm
  poll_swarm-IsNews w = polled_from-IsNews (get_filtered_services cli p w)

  receive_swarm-IsNews :
      (msg : Message) (w : W) → All IsNews ((swarm_handlers cli p).on_message msg w).1
  unfolding swarm_handlers receive_swarm
  receive_swarm-IsNews msg w = elim (Bool-cases (msg.action == refresh_action)) [
    | inl asked ↦ rw asked (elim (refresh_swarm-cases cli p msg.service.name w) [
      | inl (service, found, news, same) ↦ (inl news, tt)
      | inr gone ↦ (inr (msg.service.name, gone), tt)
    ])
    | inr other ↦ rw other tt
  ]

module _ {W : Type 0} (new_client : ClientOptions → Result (DockerCli W)) where
  run_with-IsNews :
      (p : SwarmConfig) (events : List Event) (w : W) (r : Result (DockerCli W))
      → All IsNews (run_with new_client p events w r).1
  run_with-IsNews p events w (failed e) = tt
  run_with-IsNews p events w (ok cli) =
      serve_events-All (swarm_handlers cli p) IsNews (poll_swarm-IsNews cli p)
        (receive_swarm-IsNews cli p) events w

  -- If a poll interval is configured, `Start` of the Swarm provider does not panic, and
  -- whatever Docker answers and whatever the ticker, the core and the shutdown do, every
  -- message that it sends is an announcement, an add without an error and with at least one
  -- target, all on ports other than 0, or a delete message.
  pub start_swarm-IsNews :
      (p : SwarmConfig) (given : Option (DockerCli W)) (events : List Event) (w : W)
      → p.poll_interval ≢ 0
      → (served : Served W) × (start_swarm new_client p given events w ≡ some served)
        × All IsNews served.1
  unfolding start_swarm init_swarm
  start_swarm-IsNews p given events w positive =
      let q : SwarmConfig = record p {
        service_filters = labelled (p.label_selector ++ hosts_label ∷ port_label ∷ []);
      } in
      (
        run_with new_client q events w (swarm_cli new_client q given),
        rw (eqb_ne p.poll_interval 0 positive) refl,
        run_with-IsNews q events w (swarm_cli new_client q given),
      )
