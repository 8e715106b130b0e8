-- ===== src/Tests/Kemp.antt =====
-- Kemp's load balancer, with a device that has one virtual server and one target or none.
use interlook.Prelude.{ℕ, String, Bool, true, false, ◌≡◌, refl, ◌==◌, [], ◌∷◌, All, if◌then◌else◌}
use interlook.Calls.{ok, Result}
use interlook.Comm.{Target, Message, no_message, no_service, add_action, update_action}
use interlook.Kemp.{Url, HttpClient, KempLm, rs_query, receive_kemp, is_vs_defined}
use interlook.Kemp.Replies.{receive_kemp-unchecked}
use interlook.Kemp.Device.{IsDevice, vs_request, shown, receive_kemp-establishes}

abbrev pub kemp : KempLm
kemp = record {
  endpoint = "https://lb";
  user = "admin";
  password = "secret";
  http_port = 80;
  https_port = 443;
}

abbrev add_web : Message
add_web = record no_message {
  action = add_action;
  service = record no_service {
    name = "web";
    targets = record { host = "10.0.0.1"; port = 80; weight = 1 } ∷ [];
    public_ip = "10.1.0.1";
  };
}

abbrev updated : Message
updated = record add_web { action = update_action }

abbrev web_target : Target
web_target = record { host = "10.0.0.1"; port = 80; weight = 1 }

abbrev target_url : Url
target_url = (rs_query web_target (vs_request kemp updated "/access/addrs")).url

-- Whether the virtual server and the target are there.
abbrev Lb : Type 0
Lb = Bool × Bool

abbrev device_answer : String → Lb → Lb × Result ℕ
device_answer address (vs, rs) =
    if address == "https://lb/access/showvs"
    then ((vs, rs), ok (shown vs))
    else if address == "https://lb/access/showrs"
    then ((vs, rs), ok (shown rs))
    else if address == "https://lb/access/addvs"
    then ((true, rs), ok 200)
    else ((vs, true), ok 200)

abbrev pub device : HttpClient Lb
device = record {
  parse_url =
      λ s. if s == "printed" then ok target_url else ok (record { address = s; query = [] });
  print_url = λ u. "printed";
  do_request = λ r lb. device_answer r.url.address lb;
}

device-IsDevice : IsDevice device kemp updated (λ lb. lb.0) (λ lb t. lb.1)
device-IsDevice = record {
  parses = (refl, (refl, (refl, (refl, tt))));
  parses_again = (refl, tt);
  shows_vs = λ lb. refl;
  adds_vs = λ lb. ((true, lb.1), 200, refl, refl);
  shows_rs = λ lb t. refl;
  adds_rs = λ lb t vs. ((lb.0, true), 200, refl, vs, refl, λ u h. refl);
}

receive_kemp-establishes_example :
    (lb : Lb) × (receive_kemp device kemp add_web (false, false) ≡ (lb, updated ∷ []))
    × (lb.0 ≡ true)
    × All (λ t. lb.1 ≡ true) updated.service.targets
    × (receive_kemp device kemp add_web lb ≡ (lb, updated ∷ []))
receive_kemp-establishes_example =
    receive_kemp-establishes device kemp updated (λ lb. lb.0) (λ lb t. lb.1) device-IsDevice add_web
      (false, false) refl refl

-- A device that refuses every request with the status 422.
abbrev refusing : HttpClient ℕ
refusing = record {
  parse_url = λ s. ok (record { address = s; query = [] });
  print_url = λ u. u.address;
  do_request = λ r n. (n, ok 422);
}

nothing_shown : is_vs_defined refusing kemp updated 0 ≡ (0, ok false)
unfolding is_vs_defined
nothing_shown = refl

receive_kemp-unchecked_example : (receive_kemp refusing kemp add_web 0).1 ≡ updated ∷ []
receive_kemp-unchecked_example =
    receive_kemp-unchecked refusing kemp (λ s. (record { address = s; query = [] }, refl))
      (λ r n. (n, 422, refl)) add_web 0 0 false refl nothing_shown
