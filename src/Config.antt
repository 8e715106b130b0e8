-- ===== src/Config.antt =====
-- config/config.go: the configuration, and how it is read. The reading of a file and the package yaml
-- are parameters. The structs of the extensions are given by their names and those of their fields,
-- as `initExtensions` looks them up. An interval is in nanoseconds and not negative.
use interlook.Prelude.{ℕ, String, Option, some, List, []}
use interlook.Calls.{Result, ok, failed}
use interlook.Housekeeper.{CoreConfig}
use interlook.Server.{Field}

pub record ServerConfiguration : Type 0 where
  pub log_level : String
  pub listen_port : ℕ
  pub log_file : String
  pub workflow_steps : String
  pub workflow_entries_file : String
  pub workflow_activity_launcher_interval : ℕ
  pub workflow_housekeeper_interval : ℕ
  pub core : CoreConfig  -- the three durations of the housekeeper
  pub fields : List Field

abbrev pub empty_config : ServerConfiguration
empty_config = record {
  log_level = "";
  listen_port = 0;
  log_file = "";
  workflow_steps = "";
  workflow_entries_file = "";
  workflow_activity_launcher_interval = 0;
  workflow_housekeeper_interval = 0;
  core = record {
    clean_undeployed_service_after = 0;
    service_max_last_updated = 0;
    service_wip_timeout = 0;
  };
  fields = [];
}

module _ (read_file : String → Result String)
    (unmarshal : String → ServerConfiguration × Option String) where
  abbrev pub config_from : Result String → ServerConfiguration × Option String
  config_from (failed e) = (empty_config, some e)
  config_from (ok file) = unmarshal file

  -- The configuration, as far as it was read, and the error.
  unfoldable pub read_config : String → ServerConfiguration × Option String
  read_config filename = config_from (read_file filename)
