-- ===== src/Server/Restarts.antt =====
-- A restart keeps the invariant.
use interlook.Prelude.{
  ℕ, String, ◌≡◌, List, [], ◌∷◌, ◌++◌, All, length, get_elem?-All, get_elem?-append_end,
}
use interlook.Entry.{WorkflowEntry}
use interlook.Dict.{remove}
use interlook.Entries.{WorkflowEntries, Task, init_workflow_entries}
use interlook.Entries.Files.{Values, followed, put, put_all, exported_all, reloaded}
use interlook.Server.Extensions.{All-append_end}
use interlook.Server.Invariant.{IsKeyed, IsWell, Inv, IsKeyed-Keeps, append-Keeps, remove-All}

module _ (names : List String) where
  -- An entry under the name of its service, at a step of the workflow.
  abbrev IsFiled : String × WorkflowEntry → Type 0
  IsFiled ke = (ke.1.service.name ≡ ke.0) × IsWell names ke.1

  put-Inv :
      (k : String) (e : WorkflowEntry) (we : WorkflowEntries)
      → IsFiled (k, e)
      → Inv names we []
      → Inv names (put k e we) []
  unfolding put
  put-Inv k e we (named, s) v =
      let heap' = we.heap ++ e ∷ [] in
      record {
        on_chain = All-append_end (IsWell names) we.heap e v.on_chain s;
        keyed =
            All-append_end (IsKeyed heap') (remove k we.entries) (k, length we.heap)
              (IsKeyed-Keeps names we.heap heap' (append-Keeps we.heap e) (remove k we.entries)
                (remove-All (IsKeyed we.heap) k we.entries v.keyed))
              (e, get_elem?-append_end we.heap e, named);
        ready = tt;
      }

  put_all-Inv :
      (read : Values) (we : WorkflowEntries)
      → All IsFiled read
      → Inv names we []
      → Inv names (put_all read we) []
  unfolding put_all
  put_all-Inv [] we h v = v
  put_all-Inv ((k, e) ∷ read) we (q, h) v = put_all-Inv read (put k e we) h (put-Inv k e we q v)

  followed-IsFiled :
      (heap : List WorkflowEntry) (entries : List (String × ℕ))
      → All (IsWell names) heap
      → All (IsKeyed heap) entries
      → All IsFiled (exported_all (followed heap entries))
  unfolding followed
  followed-IsFiled heap [] s h = tt
  followed-IsFiled heap ((k, p) ∷ entries) s ((e, at, named), h) =
      rw at ((named, get_elem?-All (IsWell names) heap p e s at), followed-IsFiled heap entries s h)

  pub reloaded-Inv :
      (we : WorkflowEntries) (pending : List Task)
      → Inv names we pending
      → Inv names (reloaded we) []
  unfolding reloaded init_workflow_entries
  reloaded-Inv we pending v =
      put_all-Inv _ init_workflow_entries (followed-IsFiled we.heap we.entries v.on_chain v.keyed)
        (record { on_chain = tt; keyed = tt; ready = tt })
