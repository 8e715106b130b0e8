-- ===== src/F5/Rules.antt =====
-- provisioner/loadbalancer/f5ltm/helper.go: the rules of the global policies.
use interlook.Prelude.{
  String, Bool, true, false, not, ◌&&◌, ◌||◌, none, some, List, [], ◌∷◌, ◌==◌, if◌then◌else◌,
}
use interlook.Comm.{Message, eq_strings}
use interlook.Calls.{Act, ◌>>=◌, pure, fails, rewording}
use interlook.F5.{PolicyRule, PolicyRuleCondition, PolicyRuleAction, F5Cli, BigIp}
use interlook.Strconv.{text}
use interlook.F5.Helper.{add_partition_to_path}

unfoldable pub build_policy_rule_from_msg : BigIp → Message → PolicyRule
unfolding add_partition_to_path
build_policy_rule_from_msg f5 msg =
    let tls = msg.service.tls in
    record {
      name = msg.service.name;
      description =
          text ("ingress rule for " ∷ msg.service.name ∷ " " ∷ f5.object_description_suffix ∷ []);
      conditions =
          record {
            name = "0";
            case_insensitive = true;
            values = msg.service.dns_aliases;
            present = tls;
            server_name = tls;
            ssl_extension = tls;
            ssl_client_hello = tls;
            http_host = not tls;
            host = not tls;
            request = not tls;
          }
          ∷ [];
      actions =
          record {
            name = "0";
            forward = true;
            pool = add_partition_to_path f5 msg.service.name;
            ssl_client_hello = tls;
            request = not tls;
          }
          ∷ [];
    }

-- Whether a condition on the host names has other values than the names of the service.
unfoldable pub condition_differs : Message → PolicyRuleCondition → Bool
unfolding eq_strings
condition_differs msg condition =
    (condition.http_host || condition.server_name)
    && not (eq_strings condition.values msg.service.dns_aliases)

unfoldable pub action_differs : BigIp → Message → PolicyRuleAction → Bool
unfolding add_partition_to_path
action_differs f5 msg action =
    action.forward && not (action.pool == add_partition_to_path f5 msg.service.name)

unfoldable pub any_condition : Message → List PolicyRuleCondition → Bool
unfolding condition_differs
any_condition msg [] = false
any_condition msg (condition ∷ cs) =
    if condition_differs msg condition then true else any_condition msg cs

unfoldable pub any_action : BigIp → Message → List PolicyRuleAction → Bool
unfolding action_differs
any_action f5 msg [] = false
any_action f5 msg (action ∷ as₁) =
    if action_differs f5 msg action then true else any_action f5 msg as₁

-- The loop over the rules: whether an update is needed, and whether a rule of the service exists.
unfoldable pub rules_need_update : BigIp → Message → List PolicyRule → Bool → Bool × Bool
unfolding any_condition any_action
rules_need_update f5 msg [] exist = (false, exist)
rules_need_update f5 msg (r ∷ rules) exist =
    let here = rules_need_update f5 msg rules true in
    let rest = rules_need_update f5 msg rules exist in
    if r.name == msg.service.name
    then (if any_condition msg r.conditions
        then (true, true)
        else if any_action f5 msg r.actions
        then (true, true)
        else here)
    else rest

module _ {W : Type 0} (cli : F5Cli W) (f5 : BigIp) where
  unfoldable pub policy_needs_update : String → Message → Act W (Bool × Bool)
  unfolding rules_need_update
  policy_needs_update name msg =
      rewording (λ e. text ("Could not get policy " ∷ name ∷ " " ∷ e ∷ [])) (cli.get_policy name)
      >>= λ found. elim found [
        | none ↦ fails "policy not found"
        | some policy ↦ pure (rules_need_update f5 msg policy.rules false)
      ]
