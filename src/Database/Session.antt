-- ===== src/Database/Session.antt =====
-- kenjutsu/database.py: the engine and the session factory, which are made on first use and kept in
-- module variables. SQLAlchemy's `create_engine` and `sessionmaker` and the environment are parameters.
-- kenjutsu/server/webhook.py has the same code with the async ones and another way to read the URL,
-- which is a parameter here.
use kenjutsu.Base.{if◌then◌else◌, ◌==◌, string_eq, String, List, [], ◌∷◌, Option, none, some}
use kenjutsu.Effect.{Exec, Result, ok, err}
use kenjutsu.Database.{NotConfigured, not_configured}

pub data DatabaseError : Type 0 where
  runtime_error engine_error : DatabaseError

-- Over the state `W` of the world; `none` is an exception of create_engine.
pub record SqlAlchemy (W E F : Type 0) : Type 0 where
  pub environ : W → Option String
  pub create_engine : String → W → Option E × W
  pub sessionmaker : E → F

-- `_engine` and `_SessionLocal`, with the world.
pub record Globals (W E F : Type 0) : Type 0 where
  pub engine : Option E
  pub session_local : Option F
  pub world : W

module _ {W E F : Type 0} (url_of : Option String → Result NotConfigured String)
    (sql : SqlAlchemy W E F) where
  abbrev pub new_globals : W → Globals W E F
  new_globals w = record { engine = none; session_local = none; world = w }

  abbrev pub created : Globals W E F → Option E × W → Result DatabaseError E × Globals W E F
  created s (none, w) = (err engine_error, record s { world = w })
  created s (some e, w) = (ok e, record s { engine = some e; world = w })

  unfoldable pub make_engine : Exec DatabaseError (Globals W E F) E
  make_engine s = elim (url_of (sql.environ s.world)) [
    | err e ↦ (err runtime_error, s)
    | ok url ↦ created s (sql.create_engine url s.world)
  ]

  unfoldable pub get_engine : Exec DatabaseError (Globals W E F) E
  get_engine s = elim s.engine [ some e ↦ (ok e, s) | none ↦ make_engine s ]

  abbrev pub made : Result DatabaseError E × Globals W E F → Result DatabaseError F × Globals W E F
  made (err e, s) = (err e, s)
  made (ok e, s) = (ok (sql.sessionmaker e), record s { session_local = some (sql.sessionmaker e) })

  unfoldable pub get_session_factory : Exec DatabaseError (Globals W E F) F
  get_session_factory s = elim s.session_local [ some f ↦ (ok f, s) | none ↦ made (get_engine s) ]

  -- What can happen: a call of either, which may fail, and anything elsewhere.
  pub data Event : Type 0 where
    engine_call factory_call : Event
    elsewhere : (W → W) → Event

  unfoldable pub step : Event → Globals W E F → Globals W E F
  step engine_call s = (get_engine s).1
  step factory_call s = (get_session_factory s).1
  step (elsewhere f) s = record s { world = f s.world }

  unfoldable pub run : Globals W E F → List Event → Globals W E F
  run s [] = s
  run s (e ∷ es) = run (step e s) es

-- `_get_engine` and `_get_session_factory` of kenjutsu/server/webhook.py, which take the URL as it is.
unfoldable pub get_async_url : Option String → Result NotConfigured String
get_async_url none = err not_configured
get_async_url (some url) = if url == "" then err not_configured else ok url

module _ {W E F : Type 0} (sql : SqlAlchemy W E F) where
  abbrev pub get_async_engine : Exec DatabaseError (Globals W E F) E
  get_async_engine = get_engine get_async_url sql

  abbrev pub get_async_session_factory : Exec DatabaseError (Globals W E F) F
  get_async_session_factory = get_session_factory get_async_url sql
