-- ===== src/Config.antt =====
-- kenjutsu/config/models.py and loader.py: the configuration of a repository. The YAML reader,
-- pydantic's validation of a mapping `Y` and `str.strip` are parameters.
mod Tests
use kenjutsu.Base.{
  ℕ, String, Bool, true, Option, none, some, List, [], ◌==◌, string_eq, if◌then◌else◌,
}

pub data SeverityThreshold : Type 0 where
  critical warning suggestion : SeverityThreshold

pub data ConfidenceThreshold : Type 0 where
  verified high medium low : ConfidenceThreshold

pub record ReviewConfig : Type 0 where
  pub auto : Bool
  pub severity_threshold : SeverityThreshold
  pub confidence_threshold : ConfidenceThreshold
  pub max_findings : ℕ
  pub predictive_warnings : Bool

pub record IgnoreConfig : Type 0 where
  pub paths : List String
  pub categories : List String

pub record ModelsConfig : Type 0 where
  pub primary : String

pub record RepoConfig : Type 0 where
  pub review : ReviewConfig
  pub ignore : IgnoreConfig
  pub models : ModelsConfig

-- `RepoConfig()`
abbrev pub defaults : RepoConfig
defaults = record {
  review = record {
    auto = true;
    severity_threshold = warning;
    confidence_threshold = high;
    max_findings = 20;
    predictive_warnings = true;
  };
  ignore = record { paths = []; categories = [] };
  models = record { primary = "auto" };
}

-- How `yaml.safe_load` ends: with None, a dict, another value, a YAMLError, or another exception, as
-- for a date that does not exist.
pub data SafeLoaded (Y : Type 0) : Type 0 where
  no_value other_value yaml_error other_error : SafeLoaded Y
  mapping : Y → SafeLoaded Y

-- `model_validate` gives none for a ValidationError.
pub record Reader (Y : Type 0) : Type 0 where
  pub strip : String → String
  pub safe_load : String → SafeLoaded Y
  pub model_validate : Y → Option RepoConfig

module _ {Y : Type 0} (reader : Reader Y) where
  abbrev validated : Option RepoConfig → RepoConfig
  validated none = defaults
  validated (some config) = config

  abbrev loaded : SafeLoaded Y → Option RepoConfig
  loaded no_value = some defaults
  loaded other_value = some defaults
  loaded yaml_error = some defaults
  loaded other_error = none
  loaded (mapping data_) = some (validated (reader.model_validate data_))

  -- `none` is an exception that is not handled.
  unfoldable pub load_repo_config : Option String → Option RepoConfig
  load_repo_config none = some defaults
  load_repo_config (some yaml_content) =
      if reader.strip yaml_content == ""
      then some defaults
      else loaded (reader.safe_load yaml_content)
