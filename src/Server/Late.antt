-- ===== src/Server/Late.antt =====
-- An answer that comes when its service has already come to rest.
use interlook.Prelude.{
  ℕ, suc, String, ◌≡◌, refl, ◌∙◌, ◌≢◌, ==_ne, true, false, some, List, [], ◌∷◌, get_elem?-All, All,
}
use interlook.Comm.{Message}
use interlook.Workflow.{provisioner_state, workflow_of, deployed_state}
use interlook.Workflow.Shape.{IsConfig}
use interlook.Entry.{WorkflowEntry, set_wip, send_to_extension}
use interlook.Execute.{done, execute, provisioner_execute}
use interlook.Server.{Field, init_extensions, has_key, message_sender}
use interlook.Server.Extensions.{IsOneOf, init_extensions-names}
use interlook.Server.Invariant.{All-map}

has_key-All : (k : String) (keys : List String) → All (λ v. v ≢ k) keys → has_key k keys ≡ false
has_key-All k [] h = refl
has_key-All k (j ∷ keys) (p, h) = rw (==_ne j k p) (has_key-All k keys h)

module _ (to_lower : String → String) (fields : List Field) (names extensions : List String)
    (c : IsConfig names)
    (set_up : init_extensions to_lower fields (workflow_of names) ≡ some extensions) where
  not_an_extension : (k : String) → All (λ v. v ≢ k) names → has_key k extensions ≡ false
  not_an_extension k h = has_key-All k extensions (
      All-map (IsOneOf names) (λ v. v ≢ k) extensions
        (λ v (i, e). get_elem?-All (λ u. u ≢ k) names i v h e)
        (init_extensions-names to_lower fields names extensions set_up))

  -- If the configured names are pairwise different and none is reserved, and the extensions
  -- are those that `initExtensions` sets up for them, then a provisioner's message to an entry
  -- that rests in "deployed" and on which no extension works has the entry wait for an answer
  -- in that state: a message is sent to "deployed", which the sender drops, since no extension
  -- has that name, and the provisioner's transition ignores every message from a configured
  -- name on the entry that waits.
  pub execute-late :
      (now f : ℕ) (e : WorkflowEntry) (msg : Message)
      → e.work_in_progress ≡ false
      → e.state ≡ deployed_state
      → let stuck = set_wip now true e in
        (m : Message) × (execute (workflow_of names) now (suc f) provisioner_state e msg
          ≡ done stuck (m ∷ []))
        × (m.destination ≡ deployed_state)
        × (message_sender extensions m ≡ [])
        × ((later g : ℕ) (answer : Message)
            → IsOneOf names answer.sender
            → execute (workflow_of names) later (suc g) provisioner_state stuck answer
              ≡ done stuck [])
  unfolding execute provisioner_execute send_to_extension message_sender set_wip
  execute-late now f e msg idle rests = (
    (send_to_extension now e).1,
    rw idle refl,
    rests,
    rw (rests, not_an_extension deployed_state c.no_deployed) refl,
    λ later g answer (i, at).
        let apart : answer.sender ≢ e.state = λ same.
          get_elem?-All (λ v. v ≢ deployed_state) names i answer.sender c.no_deployed at
            (same ∙ rests) in
        rw (==_ne answer.sender e.state apart) refl,
  )
