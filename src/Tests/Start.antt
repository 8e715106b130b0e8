-- ===== src/Tests/Start.antt =====
-- A server that ends, and the next one on the same files.
use mathlib.Core.Option
use interlook.Prelude.{◌≡◌, refl, String, Bool, true, false, none, List, [], ◌∷◌, arith, split}
use interlook.Calls.{ok}
use interlook.Config.{ServerConfiguration, empty_config, read_config}
use interlook.Log.{Logger, to_stdout}
use interlook.Workflow.{init_workflow, workflow_of}
use interlook.Entries.Files.{exported}
use interlook.Entries.Files.Restart.{entry_of}
use interlook.Server.{init_extensions}
use interlook.Server.Start.{ServerState, ready, init_server, finish, init_server-finish}
use interlook.Server.Api.{Encoder}
use interlook.Server.Shutdown.{Shutdown, gone, running}
use interlook.Tests.{names}
use interlook.Tests.Runs.{table}
use interlook.Tests.Restart.{disk, disk-IsDisk}
use interlook.Tests.System.{fields, same_case}

abbrev config : ServerConfiguration
config = record empty_config {
  workflow_steps = "provider.swarm,ipam.ipalloc,lb.f5ltm";
  workflow_housekeeper_interval = 60;
  fields = fields;
}

abbrev logger : Logger
logger = record { level = 4; output = to_stdout; calls = []; messages = [] }

abbrev stopped : ServerState
stopped = record {
  config = config;
  logger = logger;
  workflow = workflow_of names;
  extensions = names;
  table = table;
}

init_server-finish_example :
    (w : String) × (s : ServerState) × (init_server
        (λ f. ok "")
        (λ t. (config, none))
        same_case
        (λ l. (4, none))
        (λ f. none)
        disk
        "conf.yml"
        logger
        (finish
          (λ f. ok "")
          (λ t. (config, none))
          same_case
          (λ l. (4, none))
          (λ f. none)
          disk
          stopped
          "")
      ≡ (w, ready s))
    × (s.workflow ≡ init_workflow config.workflow_steps)
    × (s.extensions ≡ names)
    × ((name : String) → entry_of s.table name ≡ Option.map exported (entry_of table name))
unfolding read_config init_workflow init_extensions split
init_server-finish_example =
    init_server-finish (λ f. ok "") (λ t. (config, none)) same_case (λ l. (4, none)) (λ f. none)
      disk "conf.yml" config names refl (λ e. absurd (omega (arith, e))) refl (λ w. w) stopped
      logger "" disk-IsDisk (omega arith, tt) (tt, tt)

abbrev encoder : Encoder
encoder = record {
  entries = λ l. ok "{}";
  steps = λ w. ok "[]";
  channels = λ l. ok "{}";
  version = λ v. ok v;
}

abbrev one : List String
one = "ipam.ipalloc" ∷ []

abbrev all_return : String → Bool
all_return name = true

abbrev ended : Shutdown
ended = record (running all_return one) {
  keeper = gone;
  api_up = false;
  core_wg = 0;
  extensions_wg = 0;
  saved = true;
}
