-- ===== src/Tests/Restart.antt =====
-- A table of one service that is saved and loaded.
use interlook.Prelude.{String, refl, ◌==◌, if◌then◌else◌, none, some, [], ◌∷◌}
use interlook.Calls.{ok}
use interlook.Entries.Files.{exported, Disk, followed}
use interlook.Entries.Files.Restart.{IsDisk}
use interlook.Tests.Runs.{table, deployed_entry}

-- A file whose JSON is that of the table's entries, or empty.
abbrev pub disk : Disk String
disk = record {
  open_file = λ w. (w, ok tt);
  truncate = λ w. ("", ok tt);
  seek = λ w. (w, ok tt);
  write = λ s w. (s, ok tt);
  sync = λ w. (w, ok tt);
  close_file = λ w. (w, ok tt);
  read_file = λ w. (w, ok w);
  marshal = λ l. ok "web";
  unmarshal =
      λ s. if s == "web" then (("web", exported deployed_entry) ∷ [], none) else ([], some "empty");
}

pub disk-IsDisk : IsDisk disk (λ w. w) (followed table.heap table.entries)
unfolding followed
disk-IsDisk = record {
  opens = λ w. (w, refl);
  truncates = λ w. refl;
  seeks = λ w. refl;
  writes = λ s w e. (s, refl, refl);
  syncs = λ w. refl;
  closes = λ w. refl;
  reads = λ w. refl;
  reads_back = ("web", refl, refl);
}
