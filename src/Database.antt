-- ===== src/Database.antt =====
-- kenjutsu/database.py and the URL of kenjutsu/migrations/env.py. The environment is a parameter.
mod Normal
mod Session
mod Once
mod Tests
use kenjutsu.Base.{
  String, Bool, true, false, not, ◌&&◌, ◌||◌, Option, none, some, ◌==◌, string_eq, if◌then◌else◌,
}
use kenjutsu.Effect.{Result, ok, err}
use kenjutsu.Diff.Text.{after, starts}

-- The `+` of texts.
unfoldable pub followed_by : String → String → String
followed_by String.[] t = t
followed_by (String.◌∷◌ c s) t = String.◌∷◌ c (followed_by s t)

-- `part in text`
unfoldable pub has_part : String → String → Bool
has_part part String.[] = starts part String.[]
has_part part (String.◌∷◌ c s) =
    let later = has_part part s in starts part (String.◌∷◌ c s) || later

-- A text that starts with `postgresql://`, with that prefix replaced.
abbrev with_driver : Option String → String → String
with_driver none url = url
with_driver (some rest) url = followed_by "postgresql+psycopg://" rest

-- The scheme of a URL as psycopg 3 wants it.
unfoldable pub normalise_url : String → String
normalise_url url =
    let replaced =
      if not (has_part "+psycopg" url) then with_driver (after "postgresql://" url) url else url in
    elim (after "postgres://" url) [
      | some rest ↦ followed_by "postgresql+psycopg" (followed_by "://" rest)
      | none ↦ replaced
    ]

pub data NotConfigured : Type 0 where
  not_configured : NotConfigured

-- `_get_database_url`, with the value of DATABASE_URL, if it is set.
unfoldable pub get_database_url : Option String → Result NotConfigured String
get_database_url none = err not_configured
get_database_url (some url) = if url == "" then err not_configured else ok (normalise_url url)

-- `_get_url` of kenjutsu/migrations/env.py, which has the code of its own.
unfoldable pub get_migration_url : Option String → Result NotConfigured String
get_migration_url none = err not_configured
get_migration_url (some url) = if url == "" then err not_configured else ok (normalise_url url)
