-- ===== src/Database/Normal.antt =====
-- kenjutsu/database.py: a URL that is normal stays as it is.
use kenjutsu.Base.{
  Option, none, some, String, ◌≡◌, refl, sym, ◌∙◌, ap, Bool-cases, Option-cases, inl, inr,
}
use kenjutsu.Diff.Text.{after}
use kenjutsu.Database.{followed_by, has_part, normalise_url, get_database_url, get_migration_url}

-- A URL with the driver in its scheme is left alone, whatever the rest is.
normalise_url-driver :
    (rest : String)
    → normalise_url (followed_by "postgresql+psycopg://" rest)
      ≡ followed_by "postgresql+psycopg://" rest
unfolding normalise_url after followed_by
normalise_url-driver rest =
    elim (Bool-cases (has_part "+psycopg" (followed_by "postgresql+psycopg://" rest))) [
      | inl y ↦ rw y refl
      | inr n ↦ rw n refl
    ]

twice_from :
    (url normal : String)
    → normalise_url url ≡ normal
    → normalise_url normal ≡ normal
    → normalise_url (normalise_url url) ≡ normalise_url url
twice_from url normal e f = ap normalise_url e ∙ f ∙ sym e

-- Normalising a URL twice gives what normalising it once gives.
pub normalise_url-twice : (url : String) → normalise_url (normalise_url url) ≡ normalise_url url
unfolding normalise_url followed_by
normalise_url-twice url = elim (Option-cases (after "postgres://" url)) [
  | inr (rest, e) ↦
      twice_from url (followed_by "postgresql+psycopg://" rest) (rw (e, normalise_url) refl)
        (normalise_url-driver rest)
  | inl e ↦ elim (Bool-cases (has_part "+psycopg" url)) [
    | inl y ↦
        let same : normalise_url url ≡ url = rw (e, y, normalise_url) refl in
        twice_from url url same same
    | inr n ↦ elim (Option-cases (after "postgresql://" url)) [
      | inl f ↦
          let same : normalise_url url ≡ url = rw (e, n, f, normalise_url) refl in
          twice_from url url same same
      | inr (rest, f) ↦
          twice_from url (followed_by "postgresql+psycopg://" rest)
            (rw (e, n, f, normalise_url) refl) (normalise_url-driver rest)
    ]
  ]
]

-- The migrations run against the database of the program.
pub get_migration_url-get_database_url :
    (value : Option String) → get_migration_url value ≡ get_database_url value
unfolding get_migration_url get_database_url
get_migration_url-get_database_url none = refl
get_migration_url-get_database_url (some url) = refl
