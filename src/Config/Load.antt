-- ===== src/Config/Load.antt =====
-- `Load`.
use sidecar_agent.Prelude.{Bool, not, ◌&&◌, Option, if◌then◌else◌}
use sidecar_agent.Text.{Text}
use sidecar_agent.Model.Error.{Error, Result, ok, err}
use sidecar_agent.Config.{Config, default_config}
use sidecar_agent.Config.Checks.{Formats, Problem, is_blank, validate_config}

-- `os.ReadFile`, `yaml.Unmarshal` over a configuration, and package filepath.
pub record Files : Type 0 where
  pub read_file : Text → Result Text
  pub unmarshal : Text → Config → Result Config
  pub is_abs : Text → Bool
  pub dir : Text → Text
  pub join : Text → Text → Text

-- A configuration comes with the verdict of `Validate`.
pub data Loaded : Type 0 where
  loaded : Config → Option Problem → Loaded
  unreadable : Error → Loaded

module _ (y : Formats) (fs : Files) where
  -- A relative bootstrap path is taken from the directory of the file.
  unfoldable pub anchor : Text → Config → Config
  anchor path c =
      if not (is_blank c.envoy.bootstrap_path) && not (fs.is_abs c.envoy.bootstrap_path)
      then record c {
        envoy = record c.envoy { bootstrap_path = fs.join (fs.dir path) c.envoy.bootstrap_path };
      }
      else c

  unfoldable pub load : Text → Loaded
  load path =
      if is_blank path
      then loaded default_config (validate_config y default_config)
      else elim (fs.read_file path) [
        | err e ↦ unreadable e
        | ok bytes ↦ elim (fs.unmarshal bytes default_config) [
          | err e ↦ unreadable e
          | ok c ↦ loaded (anchor path c) (validate_config y (anchor path c))
        ]
      ]
