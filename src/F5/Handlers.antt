-- ===== src/F5/Handlers.antt =====
-- provisioner/loadbalancer/f5ltm/f5ltm.go: the defaults of the settings, and what a message does to
-- the device and which message is sent back.
use interlook.Prelude.{
  String, Bool, not, ◌&&◌, ◌||◌, none, some, List, [], ◌∷◌, ◌==◌, eqb, if◌then◌else◌,
}
use interlook.Strconv.{itoa, contains, text}
use interlook.Comm.{Message, add_action, update_action, delete_action}
use interlook.Calls.{Act, Result, ok, failed, ◌>>=◌, ◌>>◌, pure, rewording}
use interlook.F5.{VirtualServer, F5Cli, BigIp}
use interlook.F5.Helper.{
  add_partition_to_name, get_global_policy_info, get_lb_port, create_pool, upsert_pool,
}
use interlook.F5.Rules.{build_policy_rule_from_msg, policy_needs_update}

-- The part of `initialize` that sets defaults.
unfoldable pub initialize : BigIp → BigIp
initialize f5 = record f5 {
  http_port = if eqb f5.http_port 0 then 80 else f5.http_port;
  https_port = if eqb f5.https_port 0 then 443 else f5.https_port;
  load_balancing_mode =
      if f5.load_balancing_mode == "" then "least-connections-member" else f5.load_balancing_mode;
  auth_provider =
      if f5.auth_provider == "" && not (f5.user == "") then "tmos" else f5.auth_provider;
  object_description_suffix =
      if f5.object_description_suffix == ""
      then "(auto generated - do not edit)"
      else f5.object_description_suffix;
}

abbrev pub with_result : {W : Type 0} → Message → W × Result Unit → W × Message
with_result msg (w, ok _) = (w, msg)
with_result msg (w, failed e) = (w, record msg { error = e })

-- The error of the first is lost where the second has one; both are called.
abbrev pub then_also :
    {W : Type 0} → (W → W × Message) → (Message → W → W × Message) → W → W × Message
then_also first second w = let (w1, msg) = first w in second msg w1

-- `defer`: the call is made when `m` has ended, and its error is only logged.
unfoldable pub deferring : {W A : Type 0} → Act W Unit → Act W A → Act W A
deferring call m w = let (w1, result) = m w in let (w2, _) = call w1 in (w2, result)

unfoldable pub destination_of : BigIp → Message → String
unfolding itoa get_lb_port
destination_of f5 msg = text (msg.service.public_ip ∷ ":" ∷ itoa (get_lb_port f5 msg) ∷ [])

unfoldable pub new_virtual_server : BigIp → Message → VirtualServer
unfolding destination_of
new_virtual_server f5 msg = record {
  name = msg.service.name;
  destination = destination_of f5 msg;
  ip_protocol = "tcp";
  pool = msg.service.name;
  partition = f5.partition;
  description =
      text ("Virtual Server for " ∷ msg.service.name ∷ " " ∷ f5.object_description_suffix ∷ []);
  translation = "automap";
}

-- a `VirtualServer` with a destination only
unfoldable pub moved : String → VirtualServer
moved destination = record {
  name = "";
  destination = destination;
  ip_protocol = "";
  pool = "";
  partition = "";
  description = "";
  translation = "";
}

module _ {W : Type 0} (cli : F5Cli W) (f5 : BigIp) where
  unfoldable pub create_virtual_server : Message → Act W Unit
  unfolding new_virtual_server
  create_virtual_server msg = cli.add_virtual_server (new_virtual_server f5 msg)

  unfoldable pub update_vs : Message → Act W Unit
  unfolding add_partition_to_name upsert_pool create_pool create_virtual_server destination_of moved
  update_vs msg =
      rewording (λ e. text ("Could not get VS " ∷ msg.service.name ∷ " " ∷ e ∷ []))
        (cli.get_virtual_server (add_partition_to_name f5 msg.service.name))
      >>= λ found. elim found [
        | some vs ↦
            upsert_pool cli f5 msg
            >> (if contains vs.destination (destination_of f5 msg)
                then pure tt
                else cli.modify_virtual_server vs.name (moved (destination_of f5 msg)))
        | none ↦ create_pool cli f5 msg >> create_virtual_server msg
      ]

  unfoldable pub handle_vs_update : Message → W → W × Message
  unfolding update_vs
  handle_vs_update msg w = with_result msg (update_vs msg w)

  unfoldable pub handle_vs_delete : Message → W → W × Message
  unfolding add_partition_to_name
  handle_vs_delete msg =
      let name = add_partition_to_name f5 msg.service.name in
      then_also
        (λ w.
          with_result (record msg { action = update_action }) (cli.delete_virtual_server name w))
        (λ m w. with_result m (cli.delete_pool name w))

  -- What follows the draft: a rule that differs is written again, one that is missing is added, and
  -- the draft is published.
  unfoldable pub change_draft : Message → Bool × Bool → Act W Unit
  unfolding get_global_policy_info build_policy_rule_from_msg
  change_draft msg (needs_update, rule_exist) =
      let (global_policy, draft_name, draft_path) = get_global_policy_info f5 msg.service.tls in
      let rule = build_policy_rule_from_msg f5 msg in
      if needs_update
      then rewording (λ e. text ("could not modify policy rule " ∷ msg.service.name ∷ " " ∷ e ∷ []))
          (cli.modify_policy_rule draft_name msg.service.name rule)
        >> rewording (λ e. text ("could not publish draft " ∷ global_policy ∷ " " ∷ e ∷ []))
            (cli.publish_draft_policy draft_path)
      else if not rule_exist
      then rewording
          (λ e. text ("error adding rule " ∷ msg.service.name ∷ " to draftPath policy " ∷ e ∷ []))
          (cli.add_rule_to_policy draft_name rule)
        >> rewording (λ e. text ("could not publish draft " ∷ draft_path ∷ " " ∷ e ∷ []))
            (cli.publish_draft_policy draft_path)
      else pure tt

  unfoldable pub create_draft : Message → Act W Unit
  unfolding get_global_policy_info add_partition_to_name
  create_draft msg =
      let (global_policy, draft_name, draft_path) = get_global_policy_info f5 msg.service.tls in
      rewording (λ e. text ("error creating " ∷ draft_path ∷ " policy " ∷ e ∷ []))
        (cli.create_draft_from_policy (add_partition_to_name f5 global_policy))

  unfoldable pub drop_draft : Message → Act W Unit
  unfolding get_global_policy_info
  drop_draft msg =
      let (_, draft_name, _) = get_global_policy_info f5 msg.service.tls in
      cli.delete_policy draft_name

  unfoldable pub update_policy : Message → Act W Unit
  unfolding add_partition_to_name upsert_pool policy_needs_update create_draft change_draft
      deferring drop_draft
  update_policy msg =
      let (global_policy, _, _) = get_global_policy_info f5 msg.service.tls in
      upsert_pool cli f5 msg
      >> policy_needs_update cli f5 (add_partition_to_name f5 global_policy) msg
      >>= λ found.
          let (needs_update, rule_exist) = found in
          if rule_exist && not needs_update
          then pure tt
          else create_draft msg >> deferring (drop_draft msg) (change_draft msg found)

  unfoldable pub handle_global_policy_update : Message → W → W × Message
  unfolding update_policy
  handle_global_policy_update msg w = with_result msg (update_policy msg w)

  abbrev pub remove_pool : Message → W × Result Unit → W × Message
  remove_pool msg (w, failed e) = (w, record msg { error = e })
  remove_pool msg (w, ok _) =
      with_result msg (cli.delete_pool (add_partition_to_name f5 msg.service.name) w)

  unfoldable pub take_rule : Message → Act W Unit
  unfolding get_global_policy_info
  take_rule msg =
      let (_, draft_name, _) = get_global_policy_info f5 msg.service.tls in
      rewording (λ e. text ("error remove rule " ∷ msg.service.name ∷ " from policy " ∷ e ∷ []))
        (cli.remove_rule_from_policy msg.service.name draft_name)

  unfoldable pub publish : Message → Act W Unit
  unfolding get_global_policy_info
  publish msg =
      let (_, _, draft_path) = get_global_policy_info f5 msg.service.tls in
      rewording (λ e. text ("could not publish draft " ∷ draft_path ∷ " " ∷ e ∷ []))
        (cli.publish_draft_policy draft_path)

  -- The rule is removed and the draft published, whether or not the rule was there; the pool goes
  -- only if the draft was published.
  unfoldable pub remove_rule : Message → W → W × Message
  unfolding take_rule publish add_partition_to_name
  remove_rule msg =
      then_also (λ w. with_result msg (take_rule msg w)) (λ m w. remove_pool m (publish msg w))

  abbrev pub in_draft : Message → W × Result Unit → W × Message
  in_draft msg (w, failed e) = (w, record msg { error = e })
  in_draft msg (w, ok _) =
      let (w1, m) = remove_rule msg w in let (w2, _) = drop_draft msg w1 in (w2, m)

  unfoldable pub handle_global_policy_delete : Message → W → W × Message
  unfolding create_draft remove_rule drop_draft
  handle_global_policy_delete msg w = in_draft msg (create_draft msg w)

  abbrev unsupported : Message → W → W × Message
  unsupported msg w =
      (w, record msg { error = text ("unsupported updateMode " ∷ f5.update_mode ∷ []) })

  unfoldable pub handle_update : Message → W → W × Message
  unfolding handle_vs_update handle_global_policy_update
  handle_update msg =
      if f5.update_mode == "vs"
      then handle_vs_update msg
      else if f5.update_mode == "policy"
      then handle_global_policy_update msg
      else unsupported msg

  unfoldable pub handle_delete : Message → W → W × Message
  unfolding handle_vs_delete handle_global_policy_delete
  handle_delete msg =
      if f5.update_mode == "vs"
      then handle_vs_delete msg
      else if f5.update_mode == "policy"
      then handle_global_policy_delete msg
      else unsupported msg

  abbrev pub replied : W × Message → W × List Message
  replied (w, m) = (w, m ∷ [])

  -- One message of the loop of `Start`: the messages that are sent back.
  unfoldable pub receive : Message → W → W × List Message
  unfolding handle_update handle_delete
  receive msg w =
      let (w1, _) = cli.refresh_token_session w in
      if msg.action == add_action || msg.action == update_action
      then replied (handle_update msg w1)
      else if msg.action == delete_action
      then replied (handle_delete msg w1)
      else (w1, [])
