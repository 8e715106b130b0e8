-- ===== src/Server/Start.antt =====
-- core/server.go: `initServer`, and the end of `run`. The configuration file, the logging library and
-- the file of the table are the parameters of the modules that read them.
use interlook.Prelude.{
  ℕ, ◌≡◌, refl, ap, ◌∙◌, ◌≢◌, String, eqb, eqb_ne, if◌then◌else◌, Option, none, some, List, length,
}
use mathlib.Core.Option
use interlook.Calls.{Result}
use interlook.Config.{ServerConfiguration, read_config}
use interlook.Log.{Logger, init_log}
use interlook.Workflow.{WorkflowSteps, init_workflow}
use interlook.Entries.{WorkflowEntries, init_workflow_entries}
use interlook.Entries.Files.{Disk, exported, followed, save_entries, load_entries}
use interlook.Entries.Files.Restart.{
  IsDisk, AreKeys, IsClosedIn, entry_of, load_entries-save_entries,
}
use interlook.Server.{init_extensions}

-- The part of `server` that is set up before it runs, with the package's `workflow`.
pub record ServerState : Type 0 where
  pub config : ServerConfiguration
  pub logger : Logger
  pub workflow : WorkflowSteps
  pub extensions : List String
  pub table : WorkflowEntries

pub data Started : Type 0 where
  refused : String → Started  -- the error that `Start` ends with
  panicked : Started
  ready : ServerState → Started

module _ (read_file : String → Result String)
    (unmarshal : String → ServerConfiguration × Option String) (to_lower : String → String)
    (parse_level : String → ℕ × Option String) (open_log : String → Option String) {W : Type 0}
    (disk : Disk W) where
  -- An error of `load` is only logged.
  abbrev pub with_table :
      ServerConfiguration → Logger → List String → W × WorkflowEntries × Option String → W × Started
  with_table cfg l extensions (w, table, err) = (
    w,
    ready (record {
      config = cfg;
      logger = l;
      workflow = init_workflow cfg.workflow_steps;
      extensions = extensions;
      table = table;
    }),
  )

  abbrev pub with_extensions : ServerConfiguration → Logger → Option (List String) → W → W × Started
  with_extensions cfg l none w = (w, panicked)
  with_extensions cfg l (some extensions) w =
      with_table cfg l extensions (load_entries disk init_workflow_entries w)

  -- `time.NewTicker` panics on an interval of 0.
  abbrev pub with_config : Logger → ServerConfiguration × Option String → W → W × Started
  with_config l (cfg, some e) w = (w, refused e)
  with_config l (cfg, none) w =
      if eqb cfg.workflow_housekeeper_interval 0
      then (w, panicked)
      else with_extensions cfg (init_log to_lower parse_level open_log cfg.log_file cfg.log_level l)
          (init_extensions to_lower cfg.fields (init_workflow cfg.workflow_steps)) w

  unfoldable pub init_server : String → Logger → W → W × Started
  unfolding init_log init_workflow init_extensions init_workflow_entries load_entries
  init_server config_file l w = with_config l (read_config read_file unmarshal config_file) w

  -- The end of `run`: an error of `save` is only logged.
  unfoldable pub finish : ServerState → W → W
  unfolding save_entries
  finish s w = (save_entries disk s.table w).0

  module _ (config_file : String) (cfg : ServerConfiguration) (extensions : List String)
      (is_read : read_config read_file unmarshal config_file ≡ (cfg, none))
      (ticks : cfg.workflow_housekeeper_interval ≢ 0)
      (found : init_extensions to_lower cfg.fields (init_workflow cfg.workflow_steps)
        ≡ some extensions) where
    init_server_lem :
        (l : Logger) (w : W)
        → init_server config_file l w
          ≡ with_table cfg
              (init_log to_lower parse_level open_log cfg.log_file cfg.log_level l)
              extensions
              (load_entries disk init_workflow_entries w)
    unfolding init_server
    init_server_lem l w = rw (is_read, eqb_ne cfg.workflow_housekeeper_interval 0 ticks, found) refl

    -- If the configuration file is read with an interval of the housekeeper other than 0 and
    -- extensions that are found, and the table that a server had at its end has no key twice
    -- and only valid pointers, and its file and JSON are read back as they were written, but
    -- for the transitions of the entries, which are not exported, then the server that is
    -- started after it is ready, with the configured workflow and extensions, and has for
    -- every service the entry that the first one had, without the transition, and no other
    -- entry.
    pub init_server-finish :
        (content : W → String) (before : ServerState) (l : Logger) (w : W)
        → let we = before.table in
          IsDisk disk content (followed we.heap we.entries)
          → IsClosedIn (length we.heap) we.entries
          → AreKeys we.entries
          → (w' : W) × (s : ServerState) × (init_server config_file l (finish before w)
              ≡ (w', ready s))
            × (s.workflow ≡ init_workflow cfg.workflow_steps)
            × (s.extensions ≡ extensions)
            × ((name : String)
                → entry_of s.table name ≡ Option.map exported (entry_of before.table name))
    unfolding finish
    init_server-finish content before l w is_disk closed keys =
        let (w', saved, loaded, kept) =
          load_entries-save_entries disk content before.table is_disk w closed keys in
        (
          w',
          _,
          init_server_lem l _
              ∙ ap
                  (with_table cfg
                    (init_log to_lower parse_level open_log cfg.log_file cfg.log_level l)
                    extensions)
                  (ap (λ r. load_entries disk init_workflow_entries r.0) saved ∙ loaded),
          refl,
          refl,
          kept,
        )
