-- ===== src/Logger/Examples.antt =====
-- Examples and tests of the logger.
use wtsl_app.Base.{
  ℕ, ◌-◌, true, false, none, some, List, [], ◌∷◌, ◌++◌, ◌≡◌, refl, replicate, codes, c_string,
}
use wtsl_app.Config.{newline, trim_whitespace}
use wtsl_app.Upload.{Address32Bit}
use wtsl_app.Upload.Service.{LogSystem}
use wtsl_app.Logger.{
  ConfigMode, Logger, LogCall, need_config_reload, parse_config_file, line_length, log_config_lines,
  mode_or_all, default_config_check_interval,
}
use wtsl_app.Logger.Mode.{parse_config_file-first_named, first_named, section_entries}

abbrev address : Address32Bit
address = record { reserved = 0; subnet_id = 101; t_node_id = 16; device_id = 16 }

abbrev system : LogSystem
system = record {
  log_file = true;
  log_file_path = codes "log";
  files = λ p. none;
  max_file_size = 100;
  trigger_upload = false;
  upload_thread_running = true;
  session = record {
    framer = record { source_addr = address; dest_addr = address; frame_seq = 0 };
    open_sockets = 0;
    delivered = [];
  };
}

abbrev logger : Logger
logger = record {
  system = system;
  current_mode = ConfigMode.config_mode_all;
  last_config_check = 100;
  config_check_interval = default_config_check_interval;
  last_mtime = 0;
}

abbrev product_config : List ℕ
product_config =
    codes "ALL"
    ++ newline
      ∷ (codes "[Chip Log_System ]" ++ newline ∷ (codes "# mode" ++ newline ∷ codes " product"))

abbrev call : LogCall
call = record {
  mtime = some 50;
  now = 105;
  config = some product_config;
  reload_line = codes "reloaded";
  prefix = codes "[WARN]: ";
  content = codes "hello";
  log_buffer = replicate 4096 7;
}

product_mode :
    (parse_config_file (some product_config) logger).1.current_mode ≡ ConfigMode.config_mode_product
unfolding parse_config_file trim_whitespace c_string
product_mode = refl

parse_config_file-first_named_example :
    (parse_config_file (some product_config) logger ≡ (
      true,
      record logger {
        current_mode = mode_or_all (
            first_named
              (section_entries false (log_config_lines (line_length - 1) product_config)));
      },
    ))
    × (parse_config_file none logger ≡ (false, logger))
parse_config_file-first_named_example = parse_config_file-first_named product_config logger

due : (need_config_reload (some 50) 105 logger).0 ≡ true
unfolding need_config_reload
due = refl
