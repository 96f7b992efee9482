-- ===== src/Mirror/Log.antt =====
-- The log of kenjutsu/mirror/api.py: commits as git prints them, and that they are read back.
use Prim.Native.Char.{code}
use kenjutsu.Base.{
  ℕ, String, true, false, ◌≡◌, refl, Option, some, List, [], ◌∷◌, map, All, ◌==◌, nat_eq, string_eq,
}
use kenjutsu.Effect.{ok, ◌>>=◌, ◌>>◌}
use kenjutsu.Mirror.{
  System, CommitInfo, MirrorHandle, cut, commit_of, commits_of, run_in, require, read, log_command,
  git_log,
}

-- A text, the character NUL, and another text.
abbrev pub nul_between : String → String → String
nul_between String.[] t = String.◌∷◌ "\0" t
nul_between (String.◌∷◌ c s) t = String.◌∷◌ c (nul_between s t)

-- The text has no NUL in it.
abbrev pub IsNulFree : String → Type 0
IsNulFree String.[] = Unit {0}
IsNulFree (String.◌∷◌ c s) = ((code c == 0) ≡ false) × IsNulFree s

-- A commit in the format `%H%x00%an%x00%ai%x00%s`.
abbrev pub show_commit : CommitInfo → String
show_commit c = nul_between c.sha (nul_between c.author (nul_between c.date c.message))

-- The message may hold anything.
pub record IsPrintable (c : CommitInfo) : Type 0 where
  pub sha : IsNulFree c.sha
  pub author : IsNulFree c.author
  pub date : IsNulFree c.date

cut-nul_between : (s t : String) → IsNulFree s → cut (nul_between s t) ≡ some (s, t)
unfolding cut
cut-nul_between String.[] t h = refl
cut-nul_between (String.◌∷◌ c s) t h = rw (h.0, cut-nul_between s t h.1) refl

commit_of-show_commit : (c : CommitInfo) → IsPrintable c → commit_of (show_commit c) ≡ some c
unfolding commit_of
commit_of-show_commit c h =
    rw
      (cut-nul_between c.sha (nul_between c.author (nul_between c.date c.message)) h.sha, commit_of)
      (rw (cut-nul_between c.author (nul_between c.date c.message) h.author)
        (rw (cut-nul_between c.date c.message h.date) refl))

-- The commits can be told apart in a log: no line of them is blank.
abbrev pub ShownIn : (String → String) → CommitInfo → Type 0
ShownIn strip c = IsPrintable c × ((strip (show_commit c) == "") ≡ false)

commits_of-show_commit :
    (strip : String → String) (cs : List CommitInfo)
    → All (ShownIn strip) cs
    → commits_of strip (map show_commit cs) ≡ some cs
unfolding commits_of
commits_of-show_commit strip [] h = refl
commits_of-show_commit strip (c ∷ cs) h =
    rw (h.0.1, commit_of-show_commit c h.0.0, commits_of-show_commit strip cs h.1) refl

-- If git succeeds, and the lines of what it printed are those of some commits, git_log returns these
-- commits, in order and in full, a message with NUL in it included.
pub git_log-show_commit :
    {W : Type 0} (system : System W) (handle : MirrorHandle) (path : Option String) (n : ℕ) (w : W)
    (cs : List CommitInfo)
    → (system.run (some handle.path) (log_command system path n) w).0.succeeded ≡ true
    → system.splitlines
        (system.strip (system.run (some handle.path) (log_command system path n) w).0.stdout)
      ≡ map show_commit cs
    → All (ShownIn system.strip) cs
    → git_log system handle path n w
      ≡ (ok cs, (system.run (some handle.path) (log_command system path n) w).1)
unfolding git_log read run_in require ◌>>=◌ ◌>>◌
git_log-show_commit system handle path n w cs s l h =
    rw (s, read) (rw (l, git_log) (rw (commits_of-show_commit system.strip cs h) refl))
