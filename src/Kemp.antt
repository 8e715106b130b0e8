-- ===== src/Kemp.antt =====
-- provisioner/loadbalancer/kemplm/kemplm.go: the extension for Kemp's load balancer, which speaks
-- to the device by HTTP requests. Go's HTTP client and the device behind it are a record of
-- functions on a state. A query is the list of its pairs in the order in which the code adds them.
-- The bodies of the answers are only logged.
pub mod Replies
pub mod Device
pub mod Loop
use Prim.Native.String
use interlook.Loop.{Event, returned, errored, Handlers, Served, serve_events}
use interlook.Prelude.{
  ℕ, zero, String, Bool, true, false, not, List, [], ◌∷◌, ◌++◌, ◌==◌, eqb, if◌then◌else◌,
}
use interlook.Comm.{Message, Target, add_action, update_action, delete_action}
use interlook.Calls.{Result, ok, failed, Act, ◌>>=◌, ◌>>◌, pure, fails}
use interlook.Strconv.{itoa}

-- `url.URL`, as far as it is read and written
pub record Url : Type 0 where
  pub address : String
  pub query : List (String × String)

-- `http.Request`
pub record Request : Type 0 where
  pub method : String
  pub url : Url
  pub user : String
  pub password : String
  pub content_type : String

pub record HttpClient (W : Type 0) : Type 0 where
  pub parse_url : String → Result Url  -- url.Parse, which http.NewRequest calls
  pub print_url : Url → String  -- URL.String
  pub do_request : Request → Act W ℕ  -- Client.Do: the status code

-- The settings of `KempLM`; a port that is not set is 0.
pub record KempLm : Type 0 where
  pub endpoint : String
  pub user : String
  pub password : String
  pub http_port : ℕ
  pub https_port : ℕ

unfoldable pub init_kemp : KempLm → KempLm
init_kemp k = record k {
  http_port = if eqb k.http_port 0 then 80 else k.http_port;
  https_port = if eqb k.https_port 0 then 443 else k.https_port;
}

abbrev pub add_query : String → String → Request → Request
add_query key value r = record r { url = record r.url { query = r.url.query ++ (key, value) ∷ [] } }

infixr 65 ◌<>◌
abbrev pub ◌<>◌ : String → String → String
s <> t = String.◌++◌ s t

abbrev pub vs_port : KempLm → Message → String
vs_port k msg = if not msg.service.tls then itoa k.http_port else itoa k.https_port

abbrev pub authorized : KempLm → Url → Request
authorized k url = record {
  method = "GET";
  url = url;
  user = k.user;
  password = k.password;
  content_type = "application/xml";
}

abbrev pub with_vs : KempLm → Message → Request → Request
with_vs k msg r =
    add_query "prot" "tcp"
      (add_query "port" (vs_port k msg) (add_query "vs" msg.service.public_ip r))

abbrev pub with_target : Target → Request → Request
with_target t r = add_query "rs" t.host (add_query "rsport" (itoa t.port) r)

abbrev pub named_vs : Message → Request → Request
named_vs msg r =
    add_query "checktype" "icmp"
      (add_query "vstype" "gen" (add_query "nickname" msg.service.name r))

abbrev pub rs_query : Target → Request → Request
rs_query t r =
    add_query "non_local" "1" (add_query "rsport" (itoa t.port) (add_query "rs" t.host r))

abbrev pub given : {W A B : Type 0} → Result A → (A → Act W B) → Act W B
given (ok a) f = f a
given (failed e) f = fails e

abbrev unless_200 : {W : Type 0} → String → ℕ → Act W Unit
unless_200 err http_code = if eqb http_code 200 then pure tt else fails err

abbrev vs_status : {W : Type 0} → ℕ → Act W Bool
vs_status http_code =
    if eqb http_code 200
    then pure true
    else if eqb http_code 422
    then pure false
    else fails ("Unexpected http exit code " <> itoa http_code)

-- `rsExists, _ := k.isRSDefined(msg, t)`: with an error the answer is false.
abbrev or_false : {W : Type 0} → W × Result Bool → W × Result Bool
or_false (w, ok b) = (w, ok b)
or_false (w, failed e) = (w, ok false)

abbrev pub sent_back : {W : Type 0} → Message → W × Result Unit → W × List Message
sent_back msg (w, ok _) = (w, msg ∷ [])
sent_back msg (w, failed e) = (w, record msg { error = e } ∷ [])

module _ {W : Type 0} (cli : HttpClient W) (k : KempLm) where
  -- The status code; an error in reading the body is dropped.
  abbrev pub execute_request : Request → Act W ℕ
  execute_request r = cli.do_request r

  unfoldable pub new_auth_request : String → Act W Request
  new_auth_request url = given (cli.parse_url url) (λ u. pure (authorized k u))

  unfoldable pub new_vs_request : String → Message → Act W Request
  unfolding new_auth_request
  new_vs_request path msg = do req ← new_auth_request (k.endpoint <> path); pure (with_vs k msg req)

  unfoldable pub test_connection : Act W Unit
  unfolding new_auth_request
  test_connection = do
    req ← new_auth_request (k.endpoint <> "/access/listvs")
    http_code ← execute_request req
    unless_200 "could not establish connection" http_code

  unfoldable pub delete_vs : Message → Act W Unit
  unfolding new_vs_request
  delete_vs msg = do
    req ← new_vs_request "/access/delvs" msg
    http_code ← execute_request req
    unless_200 "could not delete VS" http_code

  unfoldable pub is_rs_defined : Message → Target → Act W Bool
  unfolding new_vs_request
  is_rs_defined msg t = do
    req ← new_vs_request "/access/showrs" msg
    http_code ← execute_request (with_target t req)
    pure (eqb http_code 200)

  unfoldable pub is_vs_defined : Message → Act W Bool
  unfolding new_vs_request
  is_vs_defined msg = do
    req ← new_vs_request "/access/showvs" msg
    http_code ← execute_request req
    vs_status http_code

  -- The status of the answer is ignored.
  unfoldable pub create_vs : Message → Act W Unit
  unfolding new_vs_request
  create_vs msg = do
    req ← new_vs_request "/access/addvs" msg
    _ ← execute_request (named_vs msg req)
    pure tt

  unfoldable pub add_vs : Message → Act W Unit
  unfolding is_vs_defined create_vs
  add_vs msg = do exist ← is_vs_defined msg; if not exist then create_vs msg else pure tt

  -- The status of the answer is only logged.
  unfoldable pub create_rs : Message → Target → Act W Unit
  unfolding new_vs_request new_auth_request
  create_rs msg t = do
    req ← new_vs_request "/access/addrs" msg
    again ← new_auth_request (cli.print_url (rs_query t req).url)
    _ ← execute_request again
    pure tt

  unfoldable pub add_each : Message → List Target → Act W Unit
  unfolding is_rs_defined create_rs
  add_each msg [] = pure tt
  add_each msg (t ∷ ts) =
      let rest : Act W Unit = add_each msg ts in
      (λ w. or_false (is_rs_defined msg t w)) >>= λ rs_exists.
      (if not rs_exists then create_rs msg t else pure tt) >> rest

  unfoldable pub add_rs : Message → Act W Unit
  unfolding add_each
  add_rs msg = add_each msg msg.service.targets

  -- A delete goes on after `isVSDefined`, with its error in the message.
  abbrev pub delete_found : Message → W × Result Bool → W × List Message
  delete_found msg (w, failed e) = (w, record msg { error = e } ∷ [])
  delete_found msg (w, ok exist) = if exist then sent_back msg (delete_vs msg w) else (w, msg ∷ [])

  -- A message in `Start`: the messages sent back.
  unfoldable pub receive_kemp : Message → W → W × List Message
  unfolding add_vs add_rs is_vs_defined delete_vs
  receive_kemp msg w =
      let updated = record msg { action = update_action } in
      if msg.action == add_action
      then sent_back updated ((add_vs updated >> add_rs updated) w)
      else if msg.action == update_action
      then (w, msg ∷ [])
      else if msg.action == delete_action
      then delete_found updated (is_vs_defined updated w)
      else (w, [])

-- The start of `Start`.
unfoldable pub start_kemp : {W : Type 0} → HttpClient W → KempLm → Act W KempLm
unfolding init_kemp test_connection
start_kemp cli k = test_connection cli (init_kemp k) >> pure (init_kemp k)

unfoldable pub kemp_handlers : {W : Type 0} → HttpClient W → KempLm → Handlers W
unfolding receive_kemp
kemp_handlers cli k = record {
  on_poll = λ w. (w, []);
  on_message = receive_kemp cli k;
  on_stop = λ w. returned;
}

abbrev pub run_kemp : {W : Type 0} → HttpClient W → List Event → W × Result KempLm → Served W
run_kemp cli events (w, failed e) = (w, [], errored)
run_kemp cli events (w, ok k) = serve_events (kemp_handlers cli k) events w

-- `Start`
unfoldable pub serve_kemp : {W : Type 0} → HttpClient W → KempLm → List Event → W → Served W
unfolding start_kemp kemp_handlers serve_events
serve_kemp cli k events w = run_kemp cli events (start_kemp cli k w)
