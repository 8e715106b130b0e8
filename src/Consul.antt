-- ===== src/Consul.antt =====
-- provisioner/dns/consul/consul.go: the registrations that a message asks for. The client of Consul
-- is not part of the repository: it is a record of operations on a state, each of which returns the
-- new state and, where it fails, an error text.
pub mod Replies
pub mod Loop
use interlook.Prelude.{
  ℕ, String, Bool, true, false, Option, none, some, List, [], ◌∷◌, ◌==◌, if◌then◌else◌,
}
use interlook.Loop.{Event, returned, errored, Handlers, Served, serve_events}
use interlook.Comm.{Message, update_action, delete_action}

-- The parts of `api.CatalogRegistration` that are set.
pub record Registration : Type 0 where
  pub node : String
  pub address : String
  pub external_node : String
  pub service : String
  pub service_address : String
  pub service_port : ℕ
  pub check_status : String
  pub check_name : String
  pub check_interval : ℕ

-- `catalog` lists the names of the services of a name.
pub record ConsulCli (W : Type 0) : Type 0 where
  pub catalog : String → W → W × Option (List String)
  pub register : Registration → W → W × Option String
  pub deregister : String → W → W × Option String

unfoldable pub new_registration : Message → String → Registration
new_registration msg dns_alias = record {
  node = dns_alias;
  address = msg.service.public_ip;
  external_node = "true";
  service = dns_alias;
  service_address = dns_alias;
  service_port = if msg.service.tls then 443 else 80;
  check_status = "passing";
  check_name = "basic-tcp-check";
  check_interval = 10000;
}

abbrev pub with_error : Option String → Message → Message
with_error none msg = msg
with_error (some e) msg = record msg { error = e }

unfoldable pub has_service : String → List String → Bool
has_service name [] = false
has_service name (s ∷ services) = if s == name then true else has_service name services

-- The answer of `isServiceExist`; an error counts as no.
abbrev pub is_listed : String → Option (List String) → Bool
is_listed name none = false
is_listed name (some services) = has_service name services

-- The messages sent for one alias: one if the registration fails.
abbrev pub sent_on : Option String → Message → List Message → List Message
sent_on none msg rest = rest
sent_on (some e) msg rest = msg ∷ rest

module _ {W : Type 0} (cli : ConsulCli W) where
  unfoldable pub is_service_exist : String → W → W × Bool
  unfolding has_service
  is_service_exist name w = let (w1, found) = cli.catalog name w in (w1, is_listed name found)

  -- One alias of an add: an old registration is dropped, and the error of that only logged.
  unfoldable pub register_alias : Message → String → W → W × Option String
  unfolding is_service_exist new_registration
  register_alias msg dns_alias w =
      let (w1, already_registered) = is_service_exist dns_alias w in
      let w2 = if already_registered then (cli.deregister dns_alias w1).0 else w1 in
      cli.register (new_registration msg dns_alias) w2

  -- The loop over the aliases and the message that is sent behind it.
  unfoldable pub register_all : List String → Message → W → W × List Message
  unfolding register_alias
  register_all [] msg w = (w, msg ∷ [])
  register_all (dns_alias ∷ aliases) msg w =
      let (w1, err) = register_alias msg dns_alias w in
      let (w2, sent) = register_all aliases (with_error err msg) w1 in
      (w2, sent_on err (with_error err msg) sent)

  unfoldable pub deregister_all : List String → Message → W → W × List Message
  deregister_all [] msg w = (w, msg ∷ [])
  deregister_all (dns_alias ∷ aliases) msg w =
      let (w1, err) = cli.deregister dns_alias w in deregister_all aliases (with_error err msg) w1

  -- One message of the loop of `Start`: the messages that are sent back.
  unfoldable pub receive_dns : Message → W → W × List Message
  unfolding register_all deregister_all
  receive_dns msg w =
      let updated = record msg { action = update_action } in
      if msg.action == delete_action
      then deregister_all msg.service.dns_aliases updated w
      else register_all msg.service.dns_aliases updated w

  unfoldable pub consul_handlers : Handlers W
  unfolding receive_dns
  consul_handlers = record {
    on_poll = λ w. (w, []);
    on_message = receive_dns;
    on_stop = λ w. returned;
  }

  -- The end of `init`: where Consul answers without its own service, the error of the check, which
  -- is returned, is nil.
  abbrev pub serve_checked : List Event → W × Option (List String) → Served W
  serve_checked events (w, none) = (w, [], errored)
  serve_checked events (w, some services) = serve_events consul_handlers events w

-- The parts of `api.Config` that are set.
pub record ApiConfig : Type 0 where
  pub address : String
  pub token : String

module _ {W : Type 0} (new_client : ApiConfig → Option (ConsulCli W)) where
  abbrev pub serve_with : List Event → W → Option (ConsulCli W) → Served W
  serve_with events w none = (w, [], errored)
  serve_with events w (some cli) = serve_checked cli events (cli.catalog "consul" w)

  -- `Start`; `none` is an error of `NewClient`.
  unfoldable pub serve_consul : String → String → List Event → W → Served W
  unfolding consul_handlers serve_events
  serve_consul url token events w =
      serve_with events w (new_client (record { address = url; token = token }))
