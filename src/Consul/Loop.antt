-- ===== src/Consul/Loop.antt =====
-- provisioner/dns/consul/consul.go: the whole of `Start`.
use interlook.Prelude.{
  ◌<◌, ◌≤◌, ◌≡◌, refl, String, Option, none, some, List, [], ◌∷◌, ◌==◌, length, Bool-cases, inl,
  inr, arith,
}
use interlook.Comm.{Message, update_action, delete_action}
use interlook.Loop.{returned, until_stop, serve_events-least, serve_events-ended}
use interlook.Consul.{
  ApiConfig, ConsulCli, sent_on, with_error, register_alias, register_all, deregister_all,
  receive_dns, consul_handlers, serve_consul,
}

module _ {W : Type 0} (cli : ConsulCli W) where
  sent_on-length :
      (err : Option String) (m : Message) (sent : List Message)
      → 0 < length sent
      → 0 < length (sent_on err m sent)
  sent_on-length none m sent h = h
  sent_on-length (some e) m sent h = omega arith

  register_all-length :
      (aliases : List String) (msg : Message) (w : W)
      → 0 < length (register_all cli aliases msg w).1
  unfolding register_all
  register_all-length [] msg w = omega arith
  register_all-length (dns_alias ∷ aliases) msg w =
      let (w1, err) = register_alias cli msg dns_alias w in
      sent_on-length err (with_error err msg) _
        (register_all-length aliases (with_error err msg) w1)

  deregister_all-length :
      (aliases : List String) (msg : Message) (w : W)
      → 0 < length (deregister_all cli aliases msg w).1
  unfolding deregister_all
  deregister_all-length [] msg w = omega arith
  deregister_all-length (dns_alias ∷ aliases) msg w =
      let (w1, err) = cli.deregister dns_alias w in
      deregister_all-length aliases (with_error err msg) w1

  handlers-length : (msg : Message) (w : W) → 0 < length ((consul_handlers cli).on_message msg w).1
  unfolding consul_handlers receive_dns
  handlers-length msg w =
      let updated : Message = record msg { action = update_action } in
      elim (Bool-cases (msg.action == delete_action)) [
        | inl delete ↦ rw delete (deregister_all-length msg.service.dns_aliases updated w)
        | inr other ↦ rw other (register_all-length msg.service.dns_aliases updated w)
      ]

  handlers-stop : (w : W) → (consul_handlers cli).on_stop w ≡ returned
  unfolding consul_handlers
  handlers-stop w = refl

module _ {W : Type 0} (new_client : ApiConfig → Option (ConsulCli W)) where
  -- Each message has an answer at least, and `Start` returns.
  pub serve_consul-answers :
      (url token : String) (cli : ConsulCli W) (services : List String) (msgs : List Message)
      (w w1 : W)
      → new_client (record { address = url; token = token }) ≡ some cli
      → cli.catalog "consul" w ≡ (w1, some services)
      → let served = serve_consul new_client url token (until_stop msgs) w in
        (length msgs ≤ length served.1) × (served.2 ≡ returned)
  unfolding serve_consul
  serve_consul-answers url token cli services msgs w w1 made listed =
      rw (made, listed)
        (
          serve_events-least (consul_handlers cli) (handlers-length cli) msgs w1,
          serve_events-ended (consul_handlers cli) returned (handlers-stop cli) msgs w1,
        )
