-- ===== src/Tests/Devices.antt =====
-- The allocator of addresses and the load balancer.
use interlook.Prelude.{
  ℕ, ◌+◌, ◌≡◌, refl, true, false, none, some, List, [], ◌∷◌, ◌++◌, All, split, ◌<◌, subst, ap,
  arith,
}
use interlook.Comm.{
  Service, Message, no_message, no_service, add_action, update_action, delete_action,
}
use interlook.IpAlloc.{IpamRecord, IpAlloc, handle, service_exist, parse_cidr}
use interlook.IpAlloc.Returns.{IsProper}
use mathlib.Core.Option
use mathlib.Core.Option.{some-injective}
use interlook.IpAlloc.RoundTrip.{handle-restores}
use interlook.Calls.{Act, ok}
use interlook.F5.{Pool, PolicyRule, F5Cli, BigIp}
use interlook.F5.Rules.{build_policy_rule_from_msg}
use interlook.F5.Convergence.{IsCurrent, rules_need_update-built, rules_need_update_sound}
use interlook.F5.Handlers.{new_virtual_server, handle_vs_update}
use interlook.F5.Members.{listed}
use interlook.F5.Steady.{handle_vs_update-steady}
use interlook.IpAlloc.Book.{book_of}
use interlook.IpAlloc.Spec.{Serves, handle-Serves}
use interlook.Strconv.{all_digits, contains}
use interlook.Tests.{apart}

abbrev held : List IpamRecord
held = record { ip = "10.0.0.1"; host = "api" } ∷ []

abbrev pub allocator : IpAlloc
allocator = record { network_cidr = "10.0.0.0/24"; records = held; file = held }

abbrev with_web : IpAlloc
with_web =
    let records = held ++ record { ip = "10.0.0.2"; host = "web" } ∷ [] in
    record { network_cidr = "10.0.0.0/24"; records = records; file = records }

abbrev web : Service
web = record no_service { name = "web" }

abbrev pub add_web : Message
add_web = record no_message { action = add_action; service = web }

abbrev given_web : Message
given_web = record no_message {
  action = update_action;
  service = record web { public_ip = "10.0.0.2" };
}

web_is_new : service_exist held "web" ≡ false
unfolding service_exist
web_is_new = refl

web_is_known : service_exist with_web.records "web" ≡ true
unfolding service_exist
web_is_known = refl

web_is_given : handle 5 true add_web allocator ≡ some (with_web, given_web)
unfolding handle split all_digits contains
web_is_given = refl

pub allocator-IsProper : IsProper allocator
unfolding parse_cidr split all_digits contains
allocator-IsProper = (
  refl,
  λ start net e. subst (λ n. 0 < n) (ap (λ p. p.1.ones) (some-injective _ _ e)) (omega arith),
)

abbrev counted : Act ℕ Unit
counted n = (n + 1, ok tt)

-- Each call is counted, and nothing is found.
abbrev pub counter : F5Cli ℕ
counter = record {
  add_pool = λ _. counted;
  add_rule_to_policy = λ _ _. counted;
  add_virtual_server = λ _. counted;
  create_draft_from_policy = λ _. counted;
  delete_policy = λ _. counted;
  delete_pool = λ _. counted;
  delete_virtual_server = λ _. counted;
  get_policy = λ _ n. (n + 1, ok none);
  get_pool = λ _ n. (n + 1, ok none);
  get_virtual_server = λ _ n. (n + 1, ok none);
  modify_policy_rule = λ _ _ _. counted;
  modify_pool = λ _ _. counted;
  modify_virtual_server = λ _ _. counted;
  nodes = λ n. (n + 1, ok []);
  pool_members = λ _ n. (n + 1, ok []);
  publish_draft_policy = λ _. counted;
  refresh_token_session = counted;
  remove_rule_from_policy = λ _ _. counted;
  update_pool_members = λ _ _. counted;
}

abbrev pub f5 : BigIp
f5 = record {
  user = "admin";
  auth_provider = "tmos";
  http_port = 80;
  https_port = 443;
  monitor_name = "tcp";
  load_balancing_mode = "";
  partition = "Common";
  update_mode = "policy";
  global_http_policy = "http";
  global_ssl_policy = "https";
  object_description_suffix = "";
}

abbrev other_rule : PolicyRule
other_rule = record { name = "api"; description = ""; conditions = []; actions = [] }

rules_need_update-sound_example :
    All
      (λ r. r.name ≡ "web" → IsCurrent f5 add_web r)
      (other_rule ∷ build_policy_rule_from_msg f5 add_web ∷ other_rule ∷ [])
rules_need_update-sound_example =
    rules_need_update_sound f5 add_web
      (other_rule ∷ build_policy_rule_from_msg f5 add_web ∷ other_rule ∷ []) false true
      (rules_need_update-built f5 add_web (other_rule ∷ []) (other_rule ∷ []) false
        (apart "api" "web" refl, tt) (apart "api" "web" refl, tt))

handle-Serves_example :
    Serves "10.0.0.0/24" (book_of held) add_web (book_of with_web.records) given_web
handle-Serves_example =
    handle-Serves 5 true add_web allocator with_web given_web web_is_given (tt, tt)

abbrev with_targets : Message
with_targets = record no_message {
  service = record web { targets = record { host = "10.0.0.1"; port = 80; weight = 1 } ∷ [] };
}

-- Its pools have the members of that message, under the folder of the partition.
abbrev in_step : F5Cli ℕ
in_step = record counter {
  pool_members = λ _ n.
      (n + 1, ok (listed f5 with_targets "/Common/" (λ _. none) with_targets.service.targets));
}

abbrev pool : Pool
pool = record {
  name = "web";
  full_path = "/Common/web";
  partition = "Common";
  description = "";
  load_balancing_mode = "";
  monitor = "tcp";
}

abbrev up_to_date : F5Cli ℕ
up_to_date = record in_step {
  get_virtual_server = λ _ n. (n + 1, ok (some (new_virtual_server f5 with_targets)));
  get_pool = λ _ n. (n + 1, ok (some pool));
}

handle_vs_update-steady_example : handle_vs_update up_to_date f5 with_targets 0 ≡ (3, with_targets)
unfolding new_virtual_server contains
handle_vs_update-steady_example =
    handle_vs_update-steady up_to_date f5 with_targets pool "/Common/" (λ _. none) 2 3 refl
      (λ t node e. absurd (cc)) (omega arith, tt) (new_virtual_server f5 with_targets) 0 1 refl refl
      refl

abbrev delete_web : Message
delete_web = record no_message { action = delete_action; service = web }

handle-restores_example :
    Option.map (λ p. p.0.records) (handle 5 false delete_web with_web) ≡ some held
handle-restores_example =
    handle-restores 5 5 true false add_web delete_web allocator with_web given_web refl refl refl
      web_is_new web_is_given
