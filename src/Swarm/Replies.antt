-- ===== src/Swarm/Replies.antt =====
-- provider/swarm/swarm.go: which messages a poll and a refresh send.
use interlook.Prelude.{
  ℕ, String, true, false, ◌≡◌, refl, ap, ◌∙◌, ◌≢◌, ◌⊎◌, inl, inr, Option, none, some, List, [], ◌∷◌,
  ◌++◌, map, ◌==◌, All, arith, Bool-cases,
}
use interlook.Strconv.{ℤ, atoi}
use interlook.Comm.{Message, Target, add_action, build_delete_message}
use interlook.Kubernetes.{label, port_label}
use interlook.Swarm.{
  SwarmConfig, SwarmService, PortConfig, ServicePublishConfig, DockerCli, is_ingress, through,
  add_ingress, published_targets, swarm_message, with_published, build_at, build_from_service,
  sent_if, poll_swarm_services, or_delete, refreshed_swarm, refresh_swarm, get_swarm_service,
  get_task_publish_info,
}

-- An add with targets that have a port, and without an error.
pub record IsAnnounce (m : Message) : Type 0 where
  pub adds : m.action ≡ add_action
  pub no_error : m.error ≡ ""
  pub some_target : m.service.targets ≢ []
  pub open_ports : All (λ t. t.port ≢ 0) m.service.targets

published_targets-All :
    (info : List ServicePublishConfig) → All (λ t. t.port ≢ 0) (published_targets info)
unfolding published_targets
published_targets-All [] = tt
published_targets-All (pm ∷ info) = ground (arith, published_targets-All info)

abbrev IsSound : Message → Type 0
IsSound m = (m.action ≡ add_action) × (m.error ≡ "") × All (λ t. t.port ≢ 0) m.service.targets

with_published-IsSound :
    (service : SwarmService) (target : ℤ) (ports : List PortConfig)
    (info : List ServicePublishConfig)
    → IsSound (with_published (swarm_message service) target ports info).0
unfolding swarm_message
with_published-IsSound service target [] info = (refl, refl, tt)
with_published-IsSound service target (port ∷ ports) info =
    (refl, refl, published_targets-All (add_ingress target (port ∷ ports) info))

module _ {W : Type 0} (cli : DockerCli W) where
  build_at-IsSound :
      (service : SwarmService) (o : Option ℤ) (w : W) → IsSound (build_at cli service o w).1
  unfolding swarm_message
  build_at-IsSound service none w = (refl, refl, tt)
  build_at-IsSound service (some target) w =
      with_published-IsSound service target service.ports
        (get_task_publish_info cli service.name w).1

  build_from_service-IsSound :
      (service : SwarmService) (w : W) → IsSound (build_from_service cli service w).1
  unfolding build_from_service
  build_from_service-IsSound service w =
      build_at-IsSound service (atoi (label port_label service.labels)) w

IsAnnounce-found :
    (m : Message) (t : Target) (ts : List Target)
    → m.service.targets ≡ t ∷ ts
    → IsSound m
    → IsAnnounce m
IsAnnounce-found m t ts e (a, b, c) = record {
  adds = a;
  no_error = b;
  some_target = λ x. cc;
  open_ports = c;
}

module _ {W : Type 0} (cli : DockerCli W) where
  sent_if-All :
      (m : Message) (err : Option String) (rest : List Message)
      → IsSound m
      → All IsAnnounce rest
      → All IsAnnounce (sent_if cli m err rest)
  sent_if-All m (some e) rest s a = a
  sent_if-All m none rest s a = from m.service.targets refl
    where
      from :
          (ts : List Target)
          → m.service.targets ≡ ts
          → All IsAnnounce (elim ts [ [] ↦ rest | _ ∷ _ ↦ m ∷ rest ])
      from [] e = a
      from (t ∷ ts) e = (IsAnnounce-found m t ts e s, a)

  with_published-name :
      (service : SwarmService) (target : ℤ) (ports : List PortConfig)
      (info : List ServicePublishConfig)
      → (with_published (swarm_message service) target ports info).0.service.name ≡ service.name
  unfolding swarm_message
  with_published-name service target [] info = refl
  with_published-name service target (port ∷ ports) info = refl

  build_at-name :
      (service : SwarmService) (o : Option ℤ) (w : W)
      → (build_at cli service o w).1.service.name ≡ service.name
  unfolding swarm_message
  build_at-name service none w = refl
  build_at-name service (some target) w =
      with_published-name service target service.ports (get_task_publish_info cli service.name w).1

  build_from_service-name :
      (service : SwarmService) (w : W)
      → (build_from_service cli service w).1.service.name ≡ service.name
  unfolding build_from_service
  build_from_service-name service w =
      build_at-name service (atoi (label port_label service.labels)) w

  -- Whatever Docker answers, every message that a poll sends is an announcement: an add
  -- without an error and with at least one target, all on ports other than 0.
  pub poll_swarm_services-All :
      (services : List SwarmService) (w : W) → All IsAnnounce (poll_swarm_services cli services w).1
  unfolding poll_swarm_services
  poll_swarm_services-All [] w = tt
  poll_swarm_services-All (service ∷ services) w =
      let (w1, msg, err) = build_from_service cli service w in
      sent_if-All msg err _ (build_from_service-IsSound cli service w)
        (poll_swarm_services-All services w1)

  or_delete-cases :
      (name : String) (w : W) (m : Message) (err : Option String)
      → IsSound m
      → (IsAnnounce (or_delete cli name (w, m, err)).1 × ((or_delete cli name (w, m, err)).1 ≡ m))
        ⊎ ((or_delete cli name (w, m, err)).1 ≡ build_delete_message name)
  or_delete-cases name w m err s = elim (Bool-cases (m.service.name == "")) [
    | inl e ↦ rw e (inr refl)
    | inr e ↦ rw e (from m.service.targets refl)
  ]
    where
      from :
          (ts : List Target)
          → m.service.targets ≡ ts
          → let r : W × Message = elim ts [
            | [] ↦ (w, build_delete_message name)
            | _ ∷ _ ↦ (w, m)
          ] in
            (IsAnnounce r.1 × (r.1 ≡ m)) ⊎ (r.1 ≡ build_delete_message name)
      from [] e = inr refl
      from (t ∷ ts) e = inl (IsAnnounce-found m t ts e s, refl)

  refreshed_swarm-cases :
      (name : String) (w : W) (o : Option SwarmService)
      → ((service : SwarmService) × (o ≡ some service)
          × IsAnnounce (refreshed_swarm cli name (w, o)).1
          × ((refreshed_swarm cli name (w, o)).1.service.name ≡ service.name))
        ⊎ ((refreshed_swarm cli name (w, o)).1 ≡ build_delete_message name)
  refreshed_swarm-cases name w none = inr refl
  refreshed_swarm-cases name w (some service) =
      let (w1, msg, err) = build_from_service cli service w in
      elim (or_delete-cases name w1 msg err (build_from_service-IsSound cli service w)) [
        | inl (a, e) ↦
            inl (service, refl, a, ap (λ m. m.service.name) e ∙ build_from_service-name service w)
        | inr e ↦ inr e
      ]

  pub refresh_swarm-cases :
      (p : SwarmConfig) (name : String) (w : W)
      → ((service : SwarmService) × ((get_swarm_service cli p name w).1 ≡ some service)
          × IsAnnounce (refresh_swarm cli p name w).1
          × ((refresh_swarm cli p name w).1.service.name ≡ service.name))
        ⊎ ((refresh_swarm cli p name w).1 ≡ build_delete_message name)
  unfolding refresh_swarm
  refresh_swarm-cases p name w =
      let (w1, o) = get_swarm_service cli p name w in refreshed_swarm-cases name w1 o

add_ingress-none :
    (target : ℤ) (ports : List PortConfig) (info : List ServicePublishConfig)
    → All (λ port. is_ingress target port ≡ false) ports
    → add_ingress target ports info ≡ info
unfolding add_ingress
add_ingress-none target [] info h = refl
add_ingress-none target (port ∷ ports) info (h, hs) = rw h (add_ingress-none target ports info hs)

add_ingress-one :
    (target : ℤ) (port : PortConfig) (after : List PortConfig) (info : List ServicePublishConfig)
    → is_ingress target port ≡ true
    → All (λ q. is_ingress target q ≡ false) after
    → add_ingress target (port ∷ after) info ≡ info ++ map (through port) info
unfolding add_ingress
add_ingress-one target port after info here a = rw here (add_ingress-none target after _ a)

add_ingress-skip :
    (target : ℤ) (port : PortConfig) (ports : List PortConfig) (info : List ServicePublishConfig)
    → is_ingress target port ≡ false
    → add_ingress target (port ∷ ports) info ≡ add_ingress target ports info
unfolding add_ingress
add_ingress-skip target port ports info h = rw h refl

published_targets-append :
    (xs ys : List ServicePublishConfig)
    → published_targets (xs ++ ys) ≡ published_targets xs ++ published_targets ys
unfolding published_targets
published_targets-append [] ys = refl
published_targets-append (x ∷ xs) ys = ground (arith, published_targets-append xs ys)

published_targets-none :
    (info : List ServicePublishConfig)
    → All (λ spc. spc.port_config.published_port ≡ 0) info
    → published_targets info ≡ []
unfolding published_targets
published_targets-none [] h = refl
published_targets-none (spc ∷ info) (h, hs) = ground (arith, published_targets-none info hs)

abbrev pub at_port : ℕ → ServicePublishConfig → Target
at_port n spc = record { host = spc.ip; port = n; weight = 0 }

published_targets-through :
    (port : PortConfig) (info : List ServicePublishConfig)
    → port.published_port ≢ 0
    → published_targets (map (through port) info) ≡ map (at_port port.published_port) info
unfolding published_targets
published_targets-through port [] h = refl
published_targets-through port (spc ∷ info) h =
    ground (arith, published_targets-through port info h)

-- Where exactly one port of a swarm service is published through the ingress network on the port
-- looked for, with a published port other than 0, and no task publishes a port of its own, the
-- targets are the nodes of the tasks, in their order, each on the published port.
pub published_targets-ingress :
    (target : ℤ) (before after : List PortConfig) (port : PortConfig)
    (info : List ServicePublishConfig)
    → All (λ q. is_ingress target q ≡ false) before
    → All (λ q. is_ingress target q ≡ false) after
    → is_ingress target port ≡ true
    → port.published_port ≢ 0
    → All (λ spc. spc.port_config.published_port ≡ 0) info
    → published_targets (add_ingress target (before ++ port ∷ after) info)
      ≡ map (at_port port.published_port) info
published_targets-ingress target [] after port info b a here shown closed =
    ap published_targets (add_ingress-one target port after info here a)
    ∙ published_targets-append info (map (through port) info)
    ∙ ap (λ l. l ++ published_targets (map (through port) info))
        (published_targets-none info closed)
    ∙ published_targets-through port info shown
published_targets-ingress target (q ∷ before) after port info (b, bs) a here shown closed =
    ap published_targets (add_ingress-skip target q (before ++ port ∷ after) info b)
    ∙ published_targets-ingress target before after port info bs a here shown closed
