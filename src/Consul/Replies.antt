-- ===== src/Consul/Replies.antt =====
-- provisioner/dns/consul/consul.go: how many messages answer one.
use interlook.Prelude.{suc, String, false, ◌≡◌, refl, ap, none, some, List, [], ◌∷◌, ◌==◌, length}
use interlook.Comm.{Message, update_action, delete_action}
use interlook.Consul.{Registration, ConsulCli, register_alias, register_all, receive_dns}

module _ {W : Type 0} (cli : ConsulCli W) where
  register_all-succeeds :
      ((r : Registration) (w : W) → (cli.register r w).1 ≡ none)
      → (aliases : List String) (msg : Message) (w : W)
      → (register_all cli aliases msg w).1 ≡ msg ∷ []
  unfolding register_all register_alias
  register_all-succeeds works [] msg w = refl
  register_all-succeeds works (a ∷ aliases) msg w =
      rw (works _ _) (register_all-succeeds works aliases msg _)

  register_all-fails :
      (e : String)
      → ((r : Registration) (w : W) → (cli.register r w).1 ≡ some e)
      → (aliases : List String) (msg : Message) (w : W)
      → length (register_all cli aliases msg w).1 ≡ suc (length aliases)
  unfolding register_all register_alias
  register_all-fails e broken [] msg w = refl
  register_all-fails e broken (a ∷ aliases) msg w =
      rw (broken _ _) (ap suc (register_all-fails e broken aliases (record msg { error = e }) _))

  -- If no registration fails, a message that is not a delete is answered exactly once, by the
  -- message itself as an update, without an error of its own, however many aliases the service
  -- has.
  pub receive_dns-once :
      ((r : Registration) (w : W) → (cli.register r w).1 ≡ none)
      → (msg : Message) (w : W) → (msg.action == delete_action) ≡ false
      → (receive_dns cli msg w).1 ≡ record msg { action = update_action } ∷ []
  unfolding receive_dns
  receive_dns-once works msg w h = rw h (register_all-succeeds works msg.service.dns_aliases _ w)

  -- If every registration fails, a message that is not a delete is answered once for each
  -- alias of the service and once more.
  pub receive_dns-repeats :
      (e : String)
      → ((r : Registration) (w : W) → (cli.register r w).1 ≡ some e)
      → (msg : Message) (w : W) → (msg.action == delete_action) ≡ false
      → length (receive_dns cli msg w).1 ≡ suc (length msg.service.dns_aliases)
  unfolding receive_dns
  receive_dns-repeats e broken msg w h =
      rw h (register_all-fails e broken msg.service.dns_aliases _ w)
