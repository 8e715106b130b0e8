-- ===== src/F5/Loop.antt =====
-- provisioner/loadbalancer/f5ltm/f5ltm.go: `Start` from the session to the shutdown, with the wait
-- group that counts the messages in work.
use interlook.Prelude.{
  ℕ, ◌+◌, ◌-◌, ◌≡◌, refl, ap, ◌∙◌, String, Option, none, some, List, [], ◌∷◌, ◌==◌, eqb,
  if◌then◌else◌, length, Bool-cases, inl, inr, arith,
}
use interlook.Comm.{Message, add_action, update_action, delete_action}
use interlook.Calls.{Result, ok, failed}
use interlook.F5.{F5Cli, BigIp}
use interlook.F5.Handlers.{initialize, receive}
use interlook.Loop.{
  Event, returned, hung, errored, Handlers, Served, serve_events, is_known, unless_known,
  unknown_count, until_stop, serve_events-length,
}

-- `f5.wg` after a message: `Done` stands in the cases of the actions.
abbrev pub in_work : Message → ℕ → ℕ
in_work msg n = if is_known msg.action then n + 1 - 1 else n + 1

abbrev pub counted : Message → ℕ → {W : Type 0} → W × List Message → (W × ℕ) × List Message
counted msg n (w, out) = ((w, in_work msg n), out)

-- The state is that of the device, and the wait group.
unfoldable pub f5_handlers : {W : Type 0} → F5Cli W → BigIp → Handlers (W × ℕ)
unfolding receive
f5_handlers cli f5 = record {
  on_poll = λ s. (s, []);
  on_message = λ msg s. counted msg s.1 (receive cli f5 msg s.0);
  on_stop = λ s. if eqb s.1 0 then returned else hung;
}

-- The arguments of `bigip.NewTokenSession`.
pub record Session : Type 0 where
  pub host : String
  pub user : String
  pub password : String
  pub login_provider : String

module _ {W : Type 0} (new_token_session : Session → Result (F5Cli W))
    (host password : String) where
  -- `setCli`
  unfoldable pub set_f5_cli : BigIp → Result (F5Cli W)
  set_f5_cli f5 = new_token_session (record {
    host = host;
    user = f5.user;
    password = password;
    login_provider = f5.auth_provider;
  })

  abbrev pub f5_cli : BigIp → Option (F5Cli W) → Result (F5Cli W)
  f5_cli f5 none = set_f5_cli f5
  f5_cli f5 (some cli) = ok cli

  abbrev pub run_f5 : BigIp → List Event → W → Result (F5Cli W) → Served (W × ℕ)
  run_f5 f5 events w (failed e) = ((w, 0), [], errored)
  run_f5 f5 events w (ok cli) = serve_events (f5_handlers cli f5) events (w, 0)

  -- `Start`, which opens a session if there is none.
  unfoldable pub serve_f5 : BigIp → Option (F5Cli W) → List Event → W → Served (W × ℕ)
  unfolding initialize set_f5_cli f5_handlers serve_events
  serve_f5 f5 cli events w = run_f5 (initialize f5) events w (f5_cli (initialize f5) cli)

module _ {W : Type 0} (cli : F5Cli W) (f5 : BigIp) where
  receive-length : (msg : Message) (w : W) → length (receive cli f5 msg w).1 + unless_known msg ≡ 1
  unfolding receive
  receive-length msg w = elim (Bool-cases (msg.action == add_action)) [
    | inl add ↦ rw add refl
    | inr a ↦ elim (Bool-cases (msg.action == update_action)) [
      | inl update ↦ rw (a, update) refl
      | inr u ↦ elim (Bool-cases (msg.action == delete_action)) [
        | inl delete ↦ rw (a, u, delete) refl
        | inr d ↦ rw (a, u, d) refl
      ]
    ]
  ]

  handlers-length :
      (msg : Message) (s : W × ℕ)
      → length ((f5_handlers cli f5).on_message msg s).1 + unless_known msg ≡ 1
  unfolding f5_handlers
  handlers-length msg (w, n) = receive-length msg w

  in_work-unless_known : (msg : Message) (n : ℕ) → in_work msg n ≡ n + unless_known msg
  in_work-unless_known msg n = ground arith

  f5_handlers-ended :
      (msgs : List Message) (w : W) (n : ℕ)
      → (serve_events (f5_handlers cli f5) (until_stop msgs) (w, n)).2
        ≡ (if eqb (n + unknown_count msgs) 0 then returned else hung)
  unfolding serve_events f5_handlers unknown_count
  f5_handlers-ended [] w n = ap (λ m. if eqb m 0 then returned else hung) (omega arith)
  f5_handlers-ended (msg ∷ msgs) w n =
      f5_handlers-ended msgs (receive cli f5 msg w).0 (in_work msg n)
      ∙ ap (λ m. if eqb m 0 then returned else hung) (omega (arith, in_work-unless_known msg n))

module _ {W : Type 0} (new_token_session : Session → Result (F5Cli W))
    (host password : String) where
  -- If the F5 extension has a client, then for any messages and a shutdown behind them it
  -- sends one answer for each message whose action is an add, an update or a delete, and none
  -- for another, and `Start` returns exactly if there is no other: one such message leaves it
  -- waiting for its wait group for ever.
  pub serve_f5-ended :
      (f5 : BigIp) (given : Option (F5Cli W)) (cli : F5Cli W) (msgs : List Message) (w : W)
      → f5_cli new_token_session host password (initialize f5) given ≡ ok cli
      → let served = serve_f5 new_token_session host password f5 given (until_stop msgs) w in
        (length served.1 + unknown_count msgs ≡ length msgs)
        × (served.2 ≡ (if eqb (unknown_count msgs) 0 then returned else hung))
  unfolding serve_f5
  serve_f5-ended f5 given cli msgs w connected = rw connected (
    serve_events-length (f5_handlers cli (initialize f5)) (handlers-length cli (initialize f5)) msgs
        (w, 0),
    f5_handlers-ended cli (initialize f5) msgs w 0
        ∙ ap (λ n. if eqb n 0 then returned else hung) (omega arith),
  )
