-- ===== src/Tests/Names.antt =====
-- The DNS extension, with a client that only counts its calls.
use interlook.Prelude.{ℕ, ◌+◌, String, ◌≡◌, refl, Option, none, some, [], ◌∷◌, length}
use interlook.Comm.{Message, no_message, no_service, add_action}
use interlook.Consul.{ConsulCli, receive_dns}
use interlook.Consul.Replies.{receive_dns-repeats}

abbrev pub client : Option String → ConsulCli ℕ
client err = record {
  catalog = λ name n. (n + 1, some (name ∷ []));
  register = λ _ n. (n + 1, err);
  deregister = λ _ n. (n + 1, none);
}

abbrev add_two : Message
add_two = record no_message {
  action = add_action;
  service = record no_service { name = "web"; dns_aliases = "web.example" ∷ "www.example" ∷ [] };
}

receive_dns-repeats_example : length (receive_dns (client (some "refused")) add_two 0).1 ≡ 3
receive_dns-repeats_example =
    receive_dns-repeats (client (some "refused")) "refused" (λ r w. refl) add_two 0 refl
