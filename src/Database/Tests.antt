-- ===== src/Database/Tests.antt =====
-- URLs of databases.
use kenjutsu.Base.{ℕ, ◌+◌, ◌*◌, ◌≡◌, refl, none, some, List, [], ◌∷◌}
use kenjutsu.Database.Session.{
  get_async_url, SqlAlchemy, new_globals, get_engine, make_engine, get_session_factory, Event,
  engine_call, factory_call, elsewhere, step, run,
}
use kenjutsu.Database.Once.{get_session_factory-once}
use kenjutsu.Effect.{ok, err}
use kenjutsu.Diff.Text.{after}
use kenjutsu.Database.{followed_by, has_part, normalise_url, get_database_url, not_configured}

legacy : get_database_url (some "postgres://u@h/db") ≡ ok "postgresql+psycopg://u@h/db"
unfolding get_database_url normalise_url after has_part followed_by
legacy = refl

plain : get_database_url (some "postgresql://u@h/db") ≡ ok "postgresql+psycopg://u@h/db"
unfolding get_database_url normalise_url after has_part followed_by
plain = refl

-- A password with the name of the driver in it keeps the scheme as it is.
password : normalise_url "postgresql://u:x+psycopg@h" ≡ "postgresql://u:x+psycopg@h"
unfolding normalise_url after has_part
password = refl

unset : get_database_url none ≡ err not_configured
unfolding get_database_url
unset = refl

-- Engines are numbered, and each is made in a world that counts them.
abbrev sql : SqlAlchemy ℕ ℕ (ℕ × ℕ)
sql = record {
  environ = λ w. some "postgres://u@h/db";
  create_engine = λ url w. (some w, w + 1);
  sessionmaker = λ e. (e, 7);
}

abbrev before : List (Event get_database_url sql)
before = elsewhere (λ w. w + 3) ∷ engine_call ∷ elsewhere (λ w. w * 2) ∷ []

abbrev after_it : List (Event get_database_url sql)
after_it = factory_call ∷ elsewhere (λ w. 0) ∷ engine_call ∷ []

first_factory :
    (get_session_factory get_database_url sql
      (run get_database_url sql (new_globals get_database_url sql 0) before)).0
    ≡ ok (3, 7)
unfolding run step get_session_factory get_engine make_engine get_database_url normalise_url after
    has_part followed_by
first_factory = refl

abbrev factory : ℕ × ℕ
factory = (3, 7)

get_session_factory-once_example :
    let t =
      run get_database_url sql
        (get_session_factory get_database_url sql
          (run get_database_url sql (new_globals get_database_url sql 0) before)).1
        after_it in
    (e : ℕ) × (factory ≡ sql.sessionmaker e)
    × (get_engine get_database_url sql t ≡ (ok e, t))
    × (get_session_factory get_database_url sql t ≡ (ok factory, t))
get_session_factory-once_example =
    get_session_factory-once get_database_url sql before after_it 0 factory first_factory

-- The receiver takes the scheme that the rest of the program replaces.
raw : get_async_url (some "postgres://u@h/db") ≡ ok "postgres://u@h/db"
unfolding get_async_url
raw = refl
