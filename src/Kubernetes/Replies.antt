-- ===== src/Kubernetes/Replies.antt =====
-- provider/kubernetes/kubernetes.go: which messages a poll and a refresh send.
use interlook.Prelude.{
  ℕ, String, ◌≡◌, refl, ap, ◌∙◌, ◌≢◌, inl, inr, Option, none, some, List, [], ◌∷◌, ◌++◌, map, ◌==◌,
  All, ==_ne, if◌then◌else◌, Bool-cases, eq_iff,
}
use interlook.Strconv.{itoa, join_by}
use interlook.Calls.{Result, ok, failed}
use interlook.Comm.{Message, build_delete_message}
use interlook.Comm.Weights.{uint32}
use interlook.Kubernetes.{
  KubeService, KubeCli, ServicePort, Pod, label, port_label, node_port_type, node_port_of,
  target_on, kube_message, with_targets, with_pods, from_pods, select_pods, equation,
  build_message_from_service, poll_services, refreshed, found_service, refreshed_from, refresh,
}

node_port_of-none :
    (found : ℕ) (wanted : String) (ports : List ServicePort)
    → All (λ q. itoa q.port ≢ wanted) ports
    → node_port_of found wanted ports ≡ found
unfolding node_port_of
node_port_of-none found wanted [] a = refl
node_port_of-none found wanted (q ∷ ports) (n, ns) =
    rw (==_ne (itoa q.port) wanted n) (node_port_of-none found wanted ports ns)

node_port_of-last :
    (found : ℕ) (wanted : String) (before after : List ServicePort) (port : ServicePort)
    → itoa port.port ≡ wanted
    → All (λ q. itoa q.port ≢ wanted) after
    → node_port_of found wanted (before ++ port ∷ after) ≡ port.node_port
unfolding node_port_of
node_port_of-last found wanted [] after port here a =
    let hit : (if itoa port.port == wanted then port.node_port else found) ≡ port.node_port =
      rw ((eq_iff (itoa port.port) wanted).1 here) refl in
    ap (λ n. node_port_of n wanted after) hit ∙ node_port_of-none port.node_port wanted after a
node_port_of-last found wanted (q ∷ before) after port here a =
    node_port_of-last (if itoa q.port == wanted then q.node_port else found) wanted before after
      port here a

-- The names of the services of the type that is looked for.
unfoldable pub node_port_names : List KubeService → List String
node_port_names [] = []
node_port_names (svc ∷ items) =
    if svc.kind == node_port_type then svc.name ∷ node_port_names items else node_port_names items

module _ {W : Type 0} (cli : KubeCli W) where
  select_pods-found :
      (msg : Message) (w w' : W) (port : ℕ) (kv : String × String)
      (selector : List (String × String)) (pod : Pod) (pods : List Pod)
      → cli.pods (join_by "," (map equation (kv ∷ selector))) w ≡ (w', ok (pod ∷ pods))
      → select_pods cli (kv ∷ selector) msg port w
        ≡ (w', with_targets msg (map (target_on port) (pod ∷ pods)), none)
  select_pods-found msg w w' port kv selector pod pods found = ap (from_pods msg port) found

  -- The message that is built from a Kubernetes service with a selector has as targets the
  -- hosts of the pods that the selector finds, at least one, in their order, on the node port
  -- of the last port whose number is the text of the label, cut to 32 bits, and there is no
  -- error.
  pub build_message_from_service-exposes :
      (service : KubeService) (w w' : W) (before after : List ServicePort) (port : ServicePort)
      (kv : String × String) (selector : List (String × String)) (pod : Pod) (pods : List Pod)
      → service.ports ≡ before ++ port ∷ after
      → itoa port.port ≡ label port_label service.labels
      → All (λ q. itoa q.port ≢ label port_label service.labels) after
      → service.selector ≡ kv ∷ selector
      → cli.pods (join_by "," (map equation (kv ∷ selector))) w ≡ (w', ok (pod ∷ pods))
      → build_message_from_service cli service w ≡ (
        w',
        with_targets (kube_message service) (
            map
              (λ p. record { host = p.host_ip; port = uint32 port.node_port; weight = 0 })
              (pod ∷ pods)),
        none,
      )
  unfolding build_message_from_service
  build_message_from_service-exposes service w w' before after port kv selector pod pods parts here
        last selected found =
      let lab = label port_label service.labels in
      let at_port : node_port_of 0 lab service.ports ≡ port.node_port =
        ap (node_port_of 0 lab) parts ∙ node_port_of-last 0 lab before after port here last in
      rw (selected, at_port)
        (select_pods-found (kube_message service) w w' port.node_port kv selector pod pods found)

  select_pods-name :
      (selector : List (String × String)) (service : KubeService) (port : ℕ) (w : W)
      → (select_pods cli selector (kube_message service) port w).1.service.name ≡ service.name
  unfolding kube_message
  select_pods-name [] service port w = refl
  select_pods-name (kv ∷ selector) service port w =
      from (cli.pods (join_by "," (map equation (kv ∷ selector))) w).1
    where
      from :
          (r : Result (List Pod))
          → (with_pods (kube_message service) port r).0.service.name ≡ service.name
      from (failed e) = refl
      from (ok []) = refl
      from (ok (pod ∷ pods)) = refl

  build_message_from_service-name :
      (service : KubeService) (w : W)
      → (build_message_from_service cli service w).1.service.name ≡ service.name
  unfolding build_message_from_service
  build_message_from_service-name service w = select_pods-name service.selector service _ w

  -- A poll sends one message for each service of the type that is looked for, in their order.
  pub poll_services-names :
      (items : List KubeService) (w : W)
      → map (λ m. m.service.name) (poll_services cli items w).1 ≡ node_port_names items
  unfolding poll_services node_port_names
  poll_services-names [] w = refl
  poll_services-names (svc ∷ items) w =
      let w1 = (build_message_from_service cli svc w).0 in
      elim (Bool-cases (svc.kind == node_port_type)) [
        | inl yes_port ↦
            rw (yes_port, build_message_from_service-name svc w)
              (ap (λ l. svc.name ∷ l) (poll_services-names items w1))
        | inr no_port ↦ rw no_port (poll_services-names items w)
      ]

  refreshed-name :
      (name : String) (w : W) (m : Message) (err : Option String)
      → (refreshed cli name (w, m, err)).1.service ≡ m.service
  refreshed-name name w m none = refl
  refreshed-name name w m (some e) = refl

  -- A refresh is answered with the name that was asked for, if the cluster finds services by name.
  pub refresh-name :
      (name : String) (w : W)
      → ((svc : KubeService) → (cli.service name w).1 ≡ ok svc → svc.name ≡ name)
      → (refresh cli name w).1.service.name ≡ name
  unfolding refresh build_delete_message
  refresh-name name w documented = from (cli.service name w).0 (cli.service name w).1 refl
    where
      from :
          (w1 : W) (r : Result KubeService)
          → (cli.service name w).1 ≡ r
          → (refreshed_from cli name (found_service cli (w1, r))).1.service.name ≡ name
      from w1 (failed e) h = refl
      from w1 (ok svc) h =
          let (w2, m, err) = build_message_from_service cli svc w1 in
          ap (λ s. s.name) (refreshed-name name w2 m err)
          ∙ build_message_from_service-name svc w1
          ∙ documented svc h
