-- ===== src/Mirror/Tests.antt =====
-- A clone that cannot be configured and a log of two commits, and the theorems about mirrors there.
use kenjutsu.Base.{ℕ, true, false, ◌≡◌, refl, none, some, [], ◌∷◌, map, ◌==◌, nat_eq}
use kenjutsu.Effect.{ok}
use kenjutsu.Mirror.{
  System, MirrorConfig, MirrorHandle, CommitInfo, commit_of, commits_of, cut, git_log, log_command,
}
use kenjutsu.Mirror.Log.{show_commit, git_log-show_commit}

abbrev initial : CommitInfo
initial = record { sha = "c1"; author = "Ann"; date = "2024"; message = "Start" }

abbrev later : CommitInfo
later = record { sha = "c2"; author = "Bo"; date = "2025"; message = "Fix a\0b" }

initial_line : show_commit initial ≡ "c1\0Ann\02024\0Start"
initial_line = refl

-- A subject that `splitlines` splits in two, as it does at a form feed.
split_subject : commits_of (λ text. text) ("c1\0Ann\02024\0Sta" ∷ "rt" ∷ []) ≡ none
unfolding commits_of commit_of cut
split_subject = refl

-- The world is the number of mirrors; a command outside of one clones, and one inside fails.
abbrev unconfigurable : System ℕ
unconfigurable = record {
  child = λ path name. "/m/r";
  str = λ n. "50";
  strip = λ text. text;
  splitlines = λ text. map show_commit (later ∷ initial ∷ []);
  exists = λ path w. w == 1;
  run = λ cwd command w. elim cwd [
    | none ↦ (record { succeeded = true; stdout = ""; stderr = "" }, 1)
    | some path ↦ (record { succeeded = false; stdout = ""; stderr = "read-only" }, w)
  ];
  rmtree = λ path w. (true, 0);
  rglob = λ path w. [];
  iterdir = λ path w. [];
}

abbrev config : MirrorConfig
config = record {
  storage_path = "/m";
  large_repo_threshold_bytes = 1073741824;
  blob_size_limit = "1m";
}

abbrev readable : System ℕ
readable = record unconfigurable {
  run = λ cwd command w. (record { succeeded = true; stdout = ""; stderr = "" }, w);
}

abbrev handle : MirrorHandle
handle = record { repo_id = "r"; path = "/m/r" }

git_log-show_commit_example : git_log readable handle none 50 1 ≡ (
  ok (later ∷ initial ∷ []),
  (readable.run (some handle.path) (log_command readable none 50) 1).1,
)
git_log-show_commit_example =
    git_log-show_commit readable handle none 50 1 (later ∷ initial ∷ []) refl refl (
      (
        record {
          sha = (refl, (refl, tt));
          author = (refl, (refl, tt));
          date = (refl, (refl, (refl, (refl, tt))));
        },
        refl,
      ),
      (
        (
          record {
            sha = (refl, (refl, tt));
            author = (refl, (refl, (refl, tt)));
            date = (refl, (refl, (refl, (refl, tt))));
          },
          refl,
        ),
        tt,
      ),
    )
