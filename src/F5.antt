-- ===== src/F5.antt =====
-- provisioner/loadbalancer/f5ltm: the load balancer extension. The client of the device is not part
-- of the repository: it is a record of operations on a state of the device. Each returns the new
-- state, and a result or an error text. This file has the settings of the extension and the parts of
-- the device's objects that the extension reads and writes.
pub mod Helper
pub mod Rules
pub mod Handlers
pub mod Convergence
pub mod Replies
pub mod Members
pub mod Loop
pub mod Steady
use interlook.Calls.{Act}
use interlook.Prelude.{ℕ, String, Bool, Option, List}

pub record Node : Type 0 where
  pub name : String
  pub address : String
  pub partition : String

pub record Pool : Type 0 where
  pub name : String
  pub full_path : String
  pub partition : String
  pub description : String
  pub load_balancing_mode : String
  pub monitor : String

pub record PoolMember : Type 0 where
  pub name : String
  pub full_path : String
  pub address : String
  pub partition : String
  pub ratio : ℕ
  pub monitor : String
  pub description : String

pub record PolicyRuleCondition : Type 0 where
  pub name : String
  pub case_insensitive : Bool
  pub values : List String
  pub present : Bool
  pub server_name : Bool
  pub ssl_extension : Bool
  pub ssl_client_hello : Bool
  pub http_host : Bool
  pub host : Bool
  pub request : Bool

pub record PolicyRuleAction : Type 0 where
  pub name : String
  pub forward : Bool
  pub pool : String
  pub ssl_client_hello : Bool
  pub request : Bool

pub record PolicyRule : Type 0 where
  pub name : String
  pub description : String
  pub conditions : List PolicyRuleCondition
  pub actions : List PolicyRuleAction

pub record Policy : Type 0 where
  pub rules : List PolicyRule

pub record VirtualServer : Type 0 where
  pub name : String
  pub destination : String
  pub ip_protocol : String
  pub pool : String
  pub partition : String
  pub description : String
  pub translation : String

-- `f5Cli`
pub record F5Cli (W : Type 0) : Type 0 where
  pub add_pool : Pool → Act W Unit
  pub add_rule_to_policy : String → PolicyRule → Act W Unit
  pub add_virtual_server : VirtualServer → Act W Unit
  pub create_draft_from_policy : String → Act W Unit
  pub delete_policy : String → Act W Unit
  pub delete_pool : String → Act W Unit
  pub delete_virtual_server : String → Act W Unit
  pub get_policy : String → Act W (Option Policy)
  pub get_pool : String → Act W (Option Pool)
  pub get_virtual_server : String → Act W (Option VirtualServer)
  pub modify_policy_rule : String → String → PolicyRule → Act W Unit
  pub modify_pool : String → Pool → Act W Unit
  pub modify_virtual_server : String → VirtualServer → Act W Unit
  pub nodes : Act W (List Node)
  pub pool_members : String → Act W (List PoolMember)
  pub publish_draft_policy : String → Act W Unit
  pub refresh_token_session : Act W Unit
  pub remove_rule_from_policy : String → String → Act W Unit
  pub update_pool_members : String → List PoolMember → Act W Unit

-- The settings of `BigIP`.
pub record BigIp : Type 0 where
  pub user : String
  pub auth_provider : String
  pub http_port : ℕ
  pub https_port : ℕ
  pub monitor_name : String
  pub load_balancing_mode : String
  pub partition : String
  pub update_mode : String
  pub global_http_policy : String
  pub global_ssl_policy : String
  pub object_description_suffix : String
