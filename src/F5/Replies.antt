-- ===== src/F5/Replies.antt =====
-- provisioner/loadbalancer/f5ltm/f5ltm.go: what is sent back, and what becomes of a draft.
use interlook.Prelude.{false, ◌≡◌, refl, ◌⊎◌, inl, inr, List, [], ◌∷◌, ◌==◌, Bool-cases}
use interlook.Comm.{Message, add_action, update_action, delete_action}
use interlook.Calls.{Result, ok, failed}
use interlook.F5.{F5Cli, BigIp}
use interlook.F5.Handlers.{
  with_result, create_draft, remove_rule, handle_vs_update, handle_vs_delete,
  handle_global_policy_update, handle_global_policy_delete, handle_update, handle_delete, receive,
  update_vs, update_policy, remove_pool, in_draft, take_rule, publish,
}
use interlook.F5.Helper.{add_partition_to_name}

-- A reply is about the service of the message as the message has it, whatever the error.
abbrev pub IsReply : Message → Message → Type 0
IsReply msg m =
    (m.service ≡ msg.service) × (m.sender ≡ msg.sender) × (m.destination ≡ msg.destination)

module _ {W : Type 0} where
  with_result-IsReply :
      (msg m : Message) (r : W × Result Unit) → IsReply msg m → IsReply msg (with_result m r).1
  with_result-IsReply msg m (w, ok _) h = h
  with_result-IsReply msg m (w, failed e) h = h

module _ {W : Type 0} (cli : F5Cli W) (f5 : BigIp) where
  remove_pool-IsReply :
      (msg m : Message) (r : W × Result Unit)
      → IsReply msg m
      → IsReply msg (remove_pool cli f5 m r).1
  remove_pool-IsReply msg m (w, failed e) h = h
  remove_pool-IsReply msg m (w, ok _) h =
      with_result-IsReply {W = W} msg m
        (cli.delete_pool (add_partition_to_name f5 m.service.name) w) h

  remove_rule-IsReply : (msg : Message) (w : W) → IsReply msg (remove_rule cli f5 msg w).1
  unfolding remove_rule
  remove_rule-IsReply msg w =
      let first = with_result {W = W} msg (take_rule cli f5 msg w) in
      remove_pool-IsReply msg first.1 (publish cli f5 msg first.0)
        (with_result-IsReply {W = W} msg msg (take_rule cli f5 msg w) (refl, refl, refl))

  in_draft-IsReply : (msg : Message) (r : W × Result Unit) → IsReply msg (in_draft cli f5 msg r).1
  in_draft-IsReply msg (w, failed e) = (refl, refl, refl)
  in_draft-IsReply msg (w, ok _) = remove_rule-IsReply msg w

  handle_update-IsReply : (msg : Message) (w : W) → IsReply msg (handle_update cli f5 msg w).1
  unfolding handle_update handle_vs_update handle_global_policy_update
  handle_update-IsReply msg w = elim (Bool-cases (f5.update_mode == "vs")) [
    | inl vs ↦ rw vs (with_result-IsReply msg msg (update_vs cli f5 msg w) (refl, refl, refl))
    | inr other ↦ elim (Bool-cases (f5.update_mode == "policy")) [
      | inl policy ↦
          rw (other, policy)
            (with_result-IsReply msg msg (update_policy cli f5 msg w) (refl, refl, refl))
      | inr none ↦ rw (other, none) (refl, refl, refl)
    ]
  ]

  handle_vs_delete-IsReply : (msg : Message) (w : W) → IsReply msg (handle_vs_delete cli f5 msg w).1
  unfolding handle_vs_delete
  handle_vs_delete-IsReply msg w =
      let name = add_partition_to_name f5 msg.service.name in
      let start = record msg { action = update_action } in
      let first = with_result {W = W} start (cli.delete_virtual_server name w) in
      with_result-IsReply {W = W} msg first.1
        (cli.delete_pool (add_partition_to_name f5 msg.service.name) first.0)
        (with_result-IsReply {W = W} msg start (cli.delete_virtual_server name w)
          (refl, refl, refl))

  handle_delete-IsReply : (msg : Message) (w : W) → IsReply msg (handle_delete cli f5 msg w).1
  unfolding handle_delete handle_global_policy_delete
  handle_delete-IsReply msg w = elim (Bool-cases (f5.update_mode == "vs")) [
    | inl vs ↦ rw vs (handle_vs_delete-IsReply msg w)
    | inr other ↦ elim (Bool-cases (f5.update_mode == "policy")) [
      | inl policy ↦ rw (other, policy) (in_draft-IsReply msg (create_draft cli f5 msg w))
      | inr none ↦ rw (other, none) (refl, refl, refl)
    ]
  ]

  -- What is sent for a message: one reply for an add, an update and a delete, and nothing else.
  abbrev pub IsAnswered : Message → List Message → Type 0
  IsAnswered msg sent =
      ((m : Message) × (sent ≡ m ∷ []) × IsReply msg m)
      ⊎ ((sent ≡ [])
          × ((msg.action == add_action) ≡ false)
          × ((msg.action == update_action) ≡ false)
          × ((msg.action == delete_action) ≡ false))

  -- An add, an update and a delete are each answered by one message, with the service, the
  -- sender and the destination of the message, whatever the device does and whatever the mode;
  -- nothing is sent for another action.
  pub receive-IsReply : (msg : Message) (w : W) → IsAnswered msg (receive cli f5 msg w).1
  unfolding receive
  receive-IsReply msg w =
      let w1 = (cli.refresh_token_session w).0 in
      elim (Bool-cases (msg.action == add_action)) [
        | inl add ↦
            rw add (inl ((handle_update cli f5 msg w1).1, refl, handle_update-IsReply msg w1))
        | inr a ↦ elim (Bool-cases (msg.action == update_action)) [
          | inl update ↦
              rw (a, update)
                (inl ((handle_update cli f5 msg w1).1, refl, handle_update-IsReply msg w1))
          | inr u ↦ elim (Bool-cases (msg.action == delete_action)) [
            | inl delete ↦
                rw (a, u, delete)
                  (inl ((handle_delete cli f5 msg w1).1, refl, handle_delete-IsReply msg w1))
            | inr d ↦ rw (a, u, d) (inr (refl, refl, refl, refl))
          ]
        ]
      ]
