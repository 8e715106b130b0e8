-- ===== src/F5/Helper.antt =====
-- provisioner/loadbalancer/f5ltm/helper.go, without the policies: names, nodes, pools and members.
use interlook.Prelude.{ℕ, String, Bool, not, Option, none, some, List, [], ◌∷◌, ◌==◌, if◌then◌else◌}
use interlook.Strconv.{after_colon, itoa, text, ℤ, atoi, uint32_of}
use interlook.Comm.{Message, Target, eq_targets}
use interlook.Calls.{Act, Result, ok, failed, ◌>>=◌, ◌>>◌, pure, fails, rewording}
use interlook.F5.{Node, Pool, PoolMember, F5Cli, BigIp}

unfoldable pub add_partition_to_path : BigIp → String → String
add_partition_to_path f5 name =
    if f5.partition == "" then name else text ("/" ∷ f5.partition ∷ "/" ∷ name ∷ [])

unfoldable pub add_partition_to_name : BigIp → String → String
add_partition_to_name f5 name =
    if f5.partition == "" then name else text ("~" ∷ f5.partition ∷ "~" ∷ name ∷ [])

-- the name, the full name of the draft and its path
unfoldable pub get_global_policy_info : BigIp → Bool → String × String × String
unfolding add_partition_to_name add_partition_to_path
get_global_policy_info f5 tls =
    let global_policy = if tls then f5.global_ssl_policy else f5.global_http_policy in
    (
      global_policy,
      add_partition_to_name f5 (text ("Drafts~" ∷ global_policy ∷ [])),
      add_partition_to_path f5 (text ("Drafts/" ∷ global_policy ∷ [])),
    )

unfoldable pub new_pool_from_service : BigIp → Message → Pool
new_pool_from_service f5 msg = record {
  name = msg.service.name;
  full_path = "";
  partition = f5.partition;
  description = text ("Pool for " ∷ msg.service.name ∷ " " ∷ f5.object_description_suffix ∷ []);
  load_balancing_mode = f5.load_balancing_mode;
  monitor = f5.monitor_name;
}

unfoldable pub get_lb_port : BigIp → Message → ℕ
get_lb_port f5 msg = if msg.service.tls then f5.https_port else f5.http_port

unfoldable pub node_with_address : String → List Node → Option Node
node_with_address address [] = none
node_with_address address (node ∷ list) =
    if node.address == address then some node else node_with_address address list

unfoldable pub member_of : BigIp → Message → Target → Option Node → PoolMember
unfolding itoa
member_of f5 msg t found =
    let description =
      text ("Pool Member for " ∷ msg.service.name ∷ " " ∷ f5.object_description_suffix ∷ []) in
    elim found [
      | some node ↦ record {
        name = text (node.name ∷ ":" ∷ itoa t.port ∷ []);
        full_path = "";
        address = node.address;
        partition = node.partition;
        ratio = t.weight;
        monitor = f5.monitor_name;
        description = description;
      }
      | none ↦ record {
        name = text (t.host ∷ ":" ∷ itoa t.port ∷ []);
        full_path = "";
        address = t.host;
        partition = f5.partition;
        ratio = t.weight;
        monitor = f5.monitor_name;
        description = description;
      }
    ]

abbrev pub read_target : PoolMember → Option ℤ → Result (List Target) → Result (List Target)
read_target member none _ =
    failed (text ("Could not convert Pool member port " ∷ member.full_path ∷ []))
read_target member (some port) (failed e) = failed e
read_target member (some port) (ok targets) =
    ok (record { host = member.address; port = uint32_of port; weight = member.ratio } ∷ targets)

-- The targets that the members of a pool stand for. The error text leaves out that of `Atoi`.
unfoldable pub targets_of_members : List PoolMember → Result (List Target)
unfolding atoi after_colon
targets_of_members [] = ok []
targets_of_members (member ∷ ms) =
    read_target member (atoi (after_colon member.full_path)) (targets_of_members ms)

abbrev pub differs : {W : Type 0} → List Target → Result (List Target) → Act W Bool
differs wanted (failed e) = fails e
differs wanted (ok targets) = pure (not (eq_targets targets wanted))

module _ {W : Type 0} (cli : F5Cli W) (f5 : BigIp) where
  abbrev found_node : String → W × Result (List Node) → W × Option Node
  found_node address (w, ok list) = (w, node_with_address address list)
  found_node address (w, failed e) = (w, none)

  unfoldable pub get_node_by_address : String → W → W × Option Node
  unfolding node_with_address
  get_node_by_address address w = found_node address (cli.nodes w)

  unfoldable pub build_pool_members : Message → List Target → W → W × List PoolMember
  unfolding get_node_by_address member_of
  build_pool_members msg [] w = (w, [])
  build_pool_members msg (t ∷ ts) w =
      let (w1, node) = get_node_by_address t.host w in
      let (w2, members) = build_pool_members msg ts w1 in (w2, member_of f5 msg t node ∷ members)

  unfoldable pub pool_members_needs_update : Pool → Message → Act W Bool
  unfolding targets_of_members
  pool_members_needs_update pool msg =
      rewording (λ e. text ("Could not get members of Pool " ∷ pool.full_path ∷ " " ∷ e ∷ []))
        (cli.pool_members pool.full_path)
      >>= λ pm. differs msg.service.targets (targets_of_members pm)

  -- `UpdatePoolMembers` and `ModifyPool` with the members of the message
  unfoldable pub write_members : Pool → Message → Act W Unit
  unfolding build_pool_members add_partition_to_name
  write_members pool msg w =
      let (w1, members) = build_pool_members msg msg.service.targets w in
      (cli.update_pool_members (add_partition_to_name f5 pool.name) members
          >> cli.modify_pool (add_partition_to_name f5 pool.name) pool)
        w1

  unfoldable pub create_pool : Message → Act W Unit
  unfolding new_pool_from_service write_members
  create_pool msg =
      let pool = new_pool_from_service f5 msg in cli.add_pool pool >> write_members pool msg

  unfoldable pub update_members : Pool → Message → Act W Unit
  unfolding pool_members_needs_update write_members
  update_members pool msg =
      pool_members_needs_update pool msg >>= λ un. if un then write_members pool msg else pure tt

  unfoldable pub upsert_pool : Message → Act W Unit
  unfolding add_partition_to_name create_pool update_members
  upsert_pool msg =
      rewording (λ e. text ("Could not get Pool " ∷ msg.service.name ∷ " " ∷ e ∷ []))
        (cli.get_pool (add_partition_to_name f5 msg.service.name))
      >>= λ found. elim found [
        | none ↦
            rewording (λ e. text ("could not create Pool " ∷ msg.service.name ∷ " " ∷ e ∷ []))
              (create_pool msg)
        | some pool ↦ update_members pool msg
      ]
