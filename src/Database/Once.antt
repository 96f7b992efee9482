-- ===== src/Database/Once.antt =====
-- kenjutsu/database.py: one engine and one session factory are made.
use kenjutsu.Base.{
  String, List, [], ◌∷◌, ◌≡◌, refl, Option, none, some, ◌⊎◌, inl, inr, Option-cases, arith,
}
use kenjutsu.Effect.{Result, ok, err, Result-cases}
use kenjutsu.Database.{NotConfigured}
use kenjutsu.Database.Session.{
  DatabaseError, runtime_error, engine_error, SqlAlchemy, Globals, new_globals, make_engine,
  get_engine, made, get_session_factory, Event, engine_call, factory_call, elsewhere, step, run,
}

module _ {W E F : Type 0} (url_of : Option String → Result NotConfigured String)
    (sql : SqlAlchemy W E F) where
  -- The engine is `e`, and the factory is bound to it if there is one.
  abbrev Bound : E → Globals W E F → Type 0
  Bound e s =
      (s.engine ≡ some e)
      × ((s.session_local ≡ none) ⊎ (s.session_local ≡ some (sql.sessionmaker e)))

  -- Either nothing was made, or the engine was.
  abbrev Sound : Globals W E F → Type 0
  Sound s = ((s.engine ≡ none) × (s.session_local ≡ none)) ⊎ ((e : E) × Bound e s)

  -- Both were made.
  abbrev Settled : E → Globals W E F → Type 0
  Settled e s = (s.engine ≡ some e) × (s.session_local ≡ some (sql.sessionmaker e))

  -- How a call of get_engine ends: with an engine that is kept from then on, or with an error that
  -- leaves the variables alone.
  get_engine-Ends :
      (s : Globals W E F)
      → Sound s
      → ((e : E) × ((get_engine url_of sql s).0 ≡ ok e) × Bound e (get_engine url_of sql s).1)
        ⊎ ((x : DatabaseError) × ((get_engine url_of sql s).0 ≡ err x)
            × Sound (get_engine url_of sql s).1)
  unfolding get_engine make_engine
  get_engine-Ends s (inr (e, h)) = inl (e, rw (h.0, get_engine) refl, rw (h.0, get_engine) h)
  get_engine-Ends s (inl n) = elim (Result-cases (url_of (sql.environ s.world))) [
    | inr (x, e) ↦ inr (
      runtime_error,
      rw (n.0, e, get_engine, make_engine) refl,
      rw (n.0, e, get_engine, make_engine) (inl n),
    )
    | inl (url, e) ↦ elim (Option-cases (sql.create_engine url s.world).0) [
      | inl failed ↦ inr (
        engine_error,
        rw (n.0, e, failed, get_engine, make_engine) refl,
        rw (n.0, e, failed, get_engine, make_engine) (inl n),
      )
      | inr (engine, there) ↦ inl (
        engine,
        rw (n.0, e, there, get_engine, make_engine) refl,
        rw (n.0, e, there, get_engine, make_engine) (refl, inl (n.1)),
      )
    ]
  ]

  kept_engine :
      (e : E) (s : Globals W E F) (o : Option E)
      → o ≡ some e
      → Path
          (Result DatabaseError E × Globals W E F)
          (elim o [ some x ↦ (ok x, s) | none ↦ make_engine url_of sql s ])
          (ok e, s)
  kept_engine e s o h = rw h refl

  get_engine-Settled :
      (e : E) (s : Globals W E F) → Settled e s → get_engine url_of sql s ≡ (ok e, s)
  unfolding get_engine
  get_engine-Settled e s h = kept_engine e s s.engine h.0

  kept_factory :
      (f : F) (s : Globals W E F) (o : Option F)
      → o ≡ some f
      → Path
          (Result DatabaseError F × Globals W E F)
          (elim o [ some x ↦ (ok x, s) | none ↦ made url_of sql (get_engine url_of sql s) ])
          (ok f, s)
  kept_factory f s o h = rw h refl

  get_session_factory-Settled :
      (e : E) (s : Globals W E F)
      → Settled e s
      → get_session_factory url_of sql s ≡ (ok (sql.sessionmaker e), s)
  unfolding get_session_factory
  get_session_factory-Settled e s h = kept_factory (sql.sessionmaker e) s s.session_local h.1

  -- How a call of get_session_factory ends, likewise.
  get_session_factory-Ends :
      (s : Globals W E F)
      → Sound s
      → ((e : E) × ((get_session_factory url_of sql s).0 ≡ ok (sql.sessionmaker e))
          × Settled e (get_session_factory url_of sql s).1)
        ⊎ ((x : DatabaseError) × ((get_session_factory url_of sql s).0 ≡ err x)
            × Sound (get_session_factory url_of sql s).1)
  unfolding get_session_factory
  get_session_factory-Ends s h = elim (Option-cases s.session_local) [
    | inr (f, there) ↦ elim h [
      | inl n ↦ absurd (ground (arith, n.1, there))
      | inr (e, (engine, inl none_yet)) ↦ absurd (ground (arith, none_yet, there))
      | inr (e, (engine, inr both)) ↦ inl (
        e,
        rw (get_session_factory-Settled e s (engine, both)) refl,
        rw (get_session_factory-Settled e s (engine, both)) (engine, both),
      )
    ]
    | inl none_yet ↦ elim (get_engine-Ends s h) [
      | inl (e, ended, bound) ↦ inl (
        e,
        rw (none_yet, ended, get_session_factory) refl,
        rw (none_yet, ended, get_session_factory) (bound.0, refl),
      )
      | inr (x, ended, sound) ↦ inr (
        x,
        rw (none_yet, ended, get_session_factory) refl,
        rw (none_yet, ended, get_session_factory) sound,
      )
    ]
  ]

  run-Settled :
      (e : E) (es : List (Event url_of sql)) (s : Globals W E F)
      → Settled e s
      → Settled e (run url_of sql s es)
  unfolding run step
  run-Settled e [] s h = h
  run-Settled e (engine_call ∷ es) s h =
      run-Settled e es (get_engine url_of sql s).1 (rw (get_engine-Settled e s h) h)
  run-Settled e (factory_call ∷ es) s h =
      run-Settled e es (get_session_factory url_of sql s).1
        (rw (get_session_factory-Settled e s h) h)
  run-Settled e (elsewhere f ∷ es) s h = run-Settled e es (record s { world = f s.world }) h

  step-Sound : (e : Event url_of sql) (s : Globals W E F) → Sound s → Sound (step url_of sql e s)
  unfolding step
  step-Sound engine_call s h = elim (get_engine-Ends s h) [
    | inl (e, ended, bound) ↦ inr (e, bound)
    | inr (x, ended, sound) ↦ sound
  ]
  step-Sound factory_call s h = elim (get_session_factory-Ends s h) [
    | inl (e, ended, settled) ↦ inr (e, (settled.0, inr settled.1))
    | inr (x, ended, sound) ↦ sound
  ]
  step-Sound (elsewhere f) s h = h

  run-Sound :
      (es : List (Event url_of sql)) (s : Globals W E F) → Sound s → Sound (run url_of sql s es)
  unfolding run
  run-Sound [] s h = h
  run-Sound (e ∷ es) s h = run-Sound es (step url_of sql e s) (step-Sound e s h)

  -- However the URL is read, and whatever calls were made before, failed ones included: once
  -- get_session_factory has returned a factory, it is bound to the engine that get_engine returns from
  -- then on, and whatever calls are made and whatever becomes of the environment, both return the same
  -- again and make nothing new.
  pub get_session_factory-once :
      (before after : List (Event url_of sql)) (w : W) (f : F)
      → (get_session_factory url_of sql (run url_of sql (new_globals url_of sql w) before)).0 ≡ ok f
      → let t =
          run url_of sql
            (get_session_factory url_of sql (run url_of sql (new_globals url_of sql w) before)).1
            after in
        (e : E) × (f ≡ sql.sessionmaker e)
        × (get_engine url_of sql t ≡ (ok e, t))
        × (get_session_factory url_of sql t ≡ (ok f, t))
  get_session_factory-once before after w f h =
      let s = run url_of sql (new_globals url_of sql w) before in
      elim (get_session_factory-Ends s
        (run-Sound before (new_globals url_of sql w) (inl (refl, refl)))) [
          | inl (e, ended, settled) ↦
              let same : f ≡ sql.sessionmaker e = cc (h, ended) in
              let later = run-Settled e after (get_session_factory url_of sql s).1 settled in
              (
                e,
                same,
                get_engine-Settled e _ later,
                rw same (get_session_factory-Settled e _ later),
              )
          | inr (x, ended, sound) ↦ absurd (ground (arith, h, ended))
        ]
