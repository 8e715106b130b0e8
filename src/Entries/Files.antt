-- ===== src/Entries/Files.antt =====
-- core/workflow.go: `save` and `load`, which keep the table in a file. The file and encoding/json are
-- not part of the repository: they are a record of operations. The JSON of an entry has its exported
-- fields. `json.Unmarshal` gives the entries that were read, and an error if there was one.
pub mod Restart
use interlook.Prelude.{ℕ, String, Option, none, some, List, [], ◌∷◌, ◌++◌, length, get_elem?, map}
use interlook.Calls.{Act, Result, ok, failed, ◌>>=◌, ◌>>◌, pure, fails}
use interlook.Dict.{lookup, remove}
use interlook.Entry.{WorkflowEntry}
use interlook.Entries.{WorkflowEntries, init_workflow_entries}

abbrev pub Values : Type 0
Values = List (String × WorkflowEntry)

pub record Disk (W : Type 0) : Type 0 where
  pub open_file : Act W Unit
  pub truncate : Act W Unit
  pub seek : Act W Unit
  pub write : String → Act W Unit
  pub sync : Act W Unit
  pub close_file : Act W Unit
  pub read_file : Act W String
  pub marshal : Values → Result String
  pub unmarshal : String → Values × Option String

abbrev pub value_at : String → Option WorkflowEntry → Values → Values
value_at k none rest = rest
value_at k (some e) rest = (k, e) ∷ rest

-- The map with its pointers followed.
unfoldable pub followed : List WorkflowEntry → List (String × ℕ) → Values
followed heap [] = []
followed heap ((k, p) ∷ entries) = value_at k (get_elem? heap p) (followed heap entries)

-- `we.Entries[k] = &e`
unfoldable pub put : String → WorkflowEntry → WorkflowEntries → WorkflowEntries
unfolding remove
put k e we = record {
  entries = remove k we.entries ++ (k, length we.heap) ∷ [];
  heap = we.heap ++ e ∷ [];
}

unfoldable pub put_all : Values → WorkflowEntries → WorkflowEntries
unfolding put
put_all [] we = we
put_all ((k, e) ∷ read) we = put_all read (put k e we)

-- What the JSON keeps of an entry: not its transition.
abbrev pub exported : WorkflowEntry → WorkflowEntry
exported e = record e { transition = none }

abbrev pub exported_all : Values → Values
exported_all read = map (λ ke. (ke.0, exported ke.1)) read

-- The table after a restart, if the file is read back as it was written.
unfoldable pub reloaded : WorkflowEntries → WorkflowEntries
unfolding followed put_all init_workflow_entries
reloaded we = put_all (exported_all (followed we.heap we.entries)) init_workflow_entries

module _ {W : Type 0} (disk : Disk W) where
  -- An error is only logged.
  abbrev pub logging : Act W Unit → Act W Unit
  logging m w = ((m w).0, ok tt)

  abbrev pub written : Result String → Act W Unit
  written (failed e) = fails e
  written (ok text) = disk.write text >> logging disk.sync

  -- The file is closed at the end, whatever `m` returns.
  abbrev pub closing : W × Result Unit → W × Result Unit
  closing (w, r) = ((disk.close_file w).0, r)

  unfoldable pub save_entries : WorkflowEntries → Act W Unit
  unfolding followed
  save_entries we = do
    _ ← disk.open_file
    λ w. closing (
        (logging disk.truncate
            >> (logging disk.seek >> written (disk.marshal (followed we.heap we.entries))))
          w)

  abbrev pub loaded : WorkflowEntries → W × Result String → W × WorkflowEntries × Option String
  loaded we (w, failed e) = (w, we, some e)
  loaded we (w, ok file) = let (read, err) = disk.unmarshal file in (w, put_all read we, err)

  -- The new table, and the error.
  unfoldable pub load_entries : WorkflowEntries → W → W × WorkflowEntries × Option String
  unfolding put_all
  load_entries we w = loaded we (disk.read_file w)
