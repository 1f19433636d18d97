-- ===== src/Examples/Configs.antt =====
-- The configuration on examples.
use zen_cleaner.Prelude.{false, none, ◌==◌, if◌then◌else◌}
use zen_cleaner.Config.Env.{System}

-- Deletions are switched "TRUE", the batch size is "many", and nothing else is set.
abbrev sys : System
sys = record {
  getenv = λ key.
      if key == "ZEN_CLEANER_DELETE_ENABLED"
      then "TRUE"
      else if key == "ZEN_CLEANER_BATCH_SIZE"
      then "many"
      else "";
  atoi = λ s. none;
  parse_bool = λ s. none;
  parse_duration = λ s. none;
  url_scheme = λ s. none;
  len = λ s. 0;
  contains_text = λ s t. false;
  to_lower = λ s. s;
}
