-- ===== src/Comm.antt =====
-- comm/message.go: messages, services and targets. A slice is a list; the code's slices are nil
-- exactly when they are empty, so `reflect.DeepEqual` on them is equality of lists.
pub mod Weights
use interlook.Prelude.{
  ℕ, String, Bool, true, false, ◌&&◌, not, List, [], ◌∷◌, ◌++◌, ◌==◌, eqb, if◌then◌else◌,
}

-- message.go: the actions are strings
abbrev pub add_action : String
add_action = "add"

abbrev pub update_action : String
update_action = "update"

abbrev pub delete_action : String
delete_action = "delete"

abbrev pub refresh_action : String
refresh_action = "refresh"

pub record Target : Type 0 where
  pub host : String
  pub port : ℕ  -- uint32
  pub weight : ℕ  -- int

pub record Service : Type 0 where
  pub provider : String
  pub name : String
  pub targets : List Target
  pub tls : Bool
  pub public_ip : String
  pub dns_aliases : List String

pub record Message : Type 0 where
  pub action : String
  pub sender : String
  pub destination : String
  pub error : String
  pub service : Service

-- The zero values of Go.
abbrev pub no_service : Service
no_service = record {
  provider = "";
  name = "";
  targets = [];
  tls = false;
  public_ip = "";
  dns_aliases = [];
}

abbrev pub no_message : Message
no_message = record { action = ""; sender = ""; destination = ""; error = ""; service = no_service }

unfoldable pub build_message : Service → Bool → Message
build_message service reverse = record no_message {
  action = if reverse then delete_action else add_action;
  service = service;
}

unfoldable pub build_delete_message : String → Message
build_delete_message svc_name = record no_message {
  action = delete_action;
  service = record no_service { name = svc_name };
}

-- `reflect.DeepEqual` at the types that are compared.
unfoldable pub eq_target : Target → Target → Bool
eq_target t u = t.host == u.host && eqb t.port u.port && eqb t.weight u.weight

unfoldable pub eq_targets : List Target → List Target → Bool
unfolding eq_target
eq_targets [] [] = true
eq_targets (t ∷ ts) (u ∷ us) = eq_target t u && eq_targets ts us
eq_targets _ _ = false

unfoldable pub eq_strings : List String → List String → Bool
eq_strings [] [] = true
eq_strings (s ∷ ss) (t ∷ ts) = s == t && eq_strings ss ts
eq_strings _ _ = false

unfoldable pub eq_bool : Bool → Bool → Bool
eq_bool true b = b
eq_bool false b = not b

abbrev note_unless : Bool → String → List String → List String
note_unless same field diff = if same then diff else diff ++ field ∷ []

abbrev with_diff : List String → Bool × List String
with_diff [] = (true, [])
with_diff (field ∷ diff) = (false, field ∷ diff)

-- `Service.IsSameThan`: whether the definitions agree, and the fields in which they differ.
unfoldable pub is_same_than : Service → Service → Bool × List String
unfolding eq_strings eq_bool eq_targets
is_same_than s target_service =
    let names = note_unless (eq_strings s.dns_aliases target_service.dns_aliases) "DNSNames" [] in
    let and_tls = note_unless (eq_bool s.tls target_service.tls) "TLS" names in
    with_diff (note_unless (eq_targets s.targets target_service.targets) "Targets" and_tls)
