-- ===== src/Config/Tests.antt =====
-- Configurations that are absent, invalid, and unreadable.
use kenjutsu.Base.{String, ◌≡◌, refl, none, some}
use kenjutsu.Config.{
  Reader, SafeLoaded, yaml_error, other_error, mapping, defaults, load_repo_config,
}

abbrev reader : SafeLoaded String → Reader String
reader result = record {
  strip = λ text. text;
  safe_load = λ text. result;
  model_validate = λ mapping. none;
}

absent : load_repo_config (reader yaml_error) none ≡ some defaults
unfolding load_repo_config
absent = refl

invalid : load_repo_config (reader (mapping "review: 3")) (some "review: 3") ≡ some defaults
unfolding load_repo_config
invalid = refl

-- A date that does not exist is not a YAMLError.
raises : load_repo_config (reader other_error) (some "since: 2024-13-45") ≡ none
unfolding load_repo_config
raises = refl
