-- ===== src/Mirror.antt =====
-- kenjutsu/mirror/lifecycle.py and api.py: bare mirrors of repositories. Git, the file system and the
-- methods of texts and paths are not the program's: functions of the state `W` of the world.
mod Log
mod Clone
mod Tests
use Prim.Native.Char.{code}
use Prim.Native.String.{◌++◌ as cat}
use kenjutsu.Base.{
  ℕ, String, Bool, true, false, not, Option, none, some, List, [], ◌∷◌, ◌++◌, map, filter, sum_map,
  leb, ◌==◌, nat_eq, string_eq, if◌then◌else◌,
}
use kenjutsu.Effect.{Result, ok, err, Exec, pure, raise, ◌>>=◌, ◌>>◌}

-- Whether a command ended with return code 0, and what it printed.
pub record Completed : Type 0 where
  pub succeeded : Bool
  pub stdout : String
  pub stderr : String

-- What `rglob` and `iterdir` list.
pub record File : Type 0 where
  pub is_file : Bool
  pub st_size : ℕ

pub record Entry : Type 0 where
  pub name : String
  pub path : String
  pub is_dir : Bool

-- `path / name`, `str` of a number, `str.strip`, `str.splitlines`, and `Path.exists`; `subprocess.run`
-- in a directory; `rmtree`, with false for an OSError.
pub record System (W : Type 0) : Type 0 where
  pub child : String → String → String
  pub str : ℕ → String
  pub strip : String → String
  pub splitlines : String → List String
  pub exists : String → W → Bool
  pub run : Option String → List String → W → Completed × W
  pub rmtree : String → W → Bool × W
  pub rglob : String → W → List File
  pub iterdir : String → W → List Entry

-- An error carries the path or the output of git that its text has.
pub data Error : Type 0 where
  mirror_already_exists mirror_not_found mirror_clone_error mirror_fetch_error : String → Error
  mirror_read_error : String → Error
  value_error os_error : Error

pub record MirrorConfig : Type 0 where
  pub storage_path : String
  pub large_repo_threshold_bytes : ℕ
  pub blob_size_limit : String

pub record CommitInfo : Type 0 where
  pub sha : String
  pub author : String
  pub date : String
  pub message : String

pub record MirrorHandle : Type 0 where
  pub repo_id : String
  pub path : String

-- The first part of `split("\0", …)`, and what is left of the text.
unfoldable pub cut : String → Option (String × String)
cut String.[] = none
cut (String.◌∷◌ c s) =
    let rest = cut s in
    if code c == 0
    then some (String.[], s)
    else elim rest [ none ↦ none | some (part, later) ↦ some (String.◌∷◌ c part, later) ]

-- `sha, author, date, message = line.split("\0", 3)`
unfoldable pub commit_of : String → Option CommitInfo
commit_of line = elim (cut line) [
  | none ↦ none
  | some (sha, line1) ↦ elim (cut line1) [
    | none ↦ none
    | some (author, line2) ↦ elim (cut line2) [
      | none ↦ none
      | some (date, message) ↦
          some (record { sha = sha; author = author; date = date; message = message })
    ]
  ]
]

abbrev with_commit : Option CommitInfo → Option (List CommitInfo) → Option (List CommitInfo)
with_commit (some commit) (some commits) = some (commit ∷ commits)
with_commit _ _ = none

-- The loop over the lines of the log, with `none` where a line cannot be unpacked.
unfoldable pub commits_of : (String → String) → List String → Option (List CommitInfo)
commits_of strip [] = some []
commits_of strip (line ∷ lines) =
    let rest = commits_of strip lines in
    if strip line == "" then rest else with_commit (commit_of line) rest

module _ {W : Type 0} (system : System W) where
  abbrev pub mirror_path : MirrorConfig → String → String
  mirror_path config repo_id = system.child config.storage_path repo_id

  unfoldable pub run_in : Option String → List String → Exec Error W Completed
  run_in cwd command w = let (result, w') = system.run cwd command w in (ok result, w')

  -- `if result.returncode != 0: raise …`
  unfoldable pub require : Bool → Error → Exec Error W (Unit {0})
  require succeeded e w = if succeeded then (ok tt, w) else (err e, w)

  abbrev pub clone_command : String → String → MirrorConfig → ℕ → List String
  clone_command repo_url dest config repo_size_bytes =
      "git"
      ∷ "clone"
      ∷ "--bare"
      ∷ ((if leb config.large_repo_threshold_bytes repo_size_bytes
            then cat "--filter=blob:limit=" config.blob_size_limit ∷ []
            else [])
          ++ repo_url ∷ dest ∷ [])

  abbrev pub refspec_command : List String
  refspec_command = "git" ∷ "config" ∷ "remote.origin.fetch" ∷ "+refs/*:refs/*" ∷ []

  -- What follows the check that there is no mirror.
  unfoldable pub clone_new : String → String → MirrorConfig → ℕ → Exec Error W String
  unfolding ◌>>=◌ ◌>>◌
  clone_new repo_url dest config repo_size_bytes = do
    result ← run_in none (clone_command repo_url dest config repo_size_bytes)
    require result.succeeded (mirror_clone_error result.stderr)
    cfg ← run_in (some dest) refspec_command
    require cfg.succeeded
        (mirror_clone_error (cat "Failed to configure fetch refspec: " cfg.stderr))
    pure dest

  unfoldable pub clone_mirror : String → String → MirrorConfig → ℕ → Exec Error W String
  clone_mirror repo_url repo_id config repo_size_bytes w =
      let dest = mirror_path config repo_id in
      if system.exists dest w
      then (err (mirror_already_exists dest), w)
      else clone_new repo_url dest config repo_size_bytes w

  unfoldable pub fetch_existing : String → Exec Error W (Unit {0})
  unfolding ◌>>=◌
  fetch_existing dest = do
    result ← run_in (some dest) ("git" ∷ "fetch" ∷ "--prune" ∷ [])
    require result.succeeded (mirror_fetch_error result.stderr)

  unfoldable pub fetch_mirror : String → MirrorConfig → Exec Error W (Unit {0})
  fetch_mirror repo_id config w =
      let dest = mirror_path config repo_id in
      if system.exists dest w then fetch_existing dest w else (err (mirror_not_found dest), w)

  abbrev removed : Bool → Result Error (Unit {0})
  removed true = ok tt
  removed false = err os_error

  unfoldable pub delete_mirror : String → MirrorConfig → Exec Error W (Unit {0})
  delete_mirror repo_id config w =
      let dest = mirror_path config repo_id in
      let (done, w') = system.rmtree dest w in
      if system.exists dest w then (removed done, w') else (ok tt, w)

  -- `sum(f.stat().st_size for f in path.rglob("*") if f.is_file())`
  abbrev pub disk_usage : String → W → ℕ
  disk_usage path w = sum_map (λ f. f.st_size) (filter (λ f. f.is_file) (system.rglob path w))

  unfoldable pub mirror_size_bytes : String → MirrorConfig → Exec Error W ℕ
  mirror_size_bytes repo_id config w =
      let dest = mirror_path config repo_id in
      if system.exists dest w then (ok (disk_usage dest w), w) else (err (mirror_not_found dest), w)

  unfoldable pub all_mirror_sizes : MirrorConfig → W → List (String × ℕ)
  all_mirror_sizes config w =
      if not (system.exists config.storage_path w)
      then []
      else map (λ entry. (entry.name, disk_usage entry.path w))
          (filter (λ entry. entry.is_dir) (system.iterdir config.storage_path w))

  -- A command that reads: its output, or a MirrorReadError.
  unfoldable pub read : MirrorHandle → String → List String → Exec Error W String
  unfolding ◌>>=◌ ◌>>◌
  read handle name command = do
    result ← run_in (some handle.path) command
    require result.succeeded
        (mirror_read_error (cat (cat name " failed: ") (system.strip result.stderr)))
    pure result.stdout

  unfoldable pub diff : MirrorHandle → String → String → Exec Error W String
  diff handle base_sha head_sha = read handle "git diff" ("git" ∷ "diff" ∷ base_sha ∷ head_sha ∷ [])

  unfoldable pub read_file : MirrorHandle → String → String → Exec Error W String
  read_file handle sha path = read handle "git show" ("git" ∷ "show" ∷ cat sha (cat ":" path) ∷ [])

  abbrev scope : Option String → List String
  scope none = []
  scope (some path) = "--" ∷ path ∷ []

  abbrev pub log_command : Option String → ℕ → List String
  log_command path n =
      "git"
      ∷ "log"
      ∷ cat "--max-count=" (system.str n)
      ∷ "--format=%H%x00%an%x00%ai%x00%s"
      ∷ scope path

  abbrev unpacked : Option (List CommitInfo) → Exec Error W (List CommitInfo)
  unpacked none w = (err value_error, w)
  unpacked (some commits) w = (ok commits, w)

  unfoldable pub git_log : MirrorHandle → Option String → ℕ → Exec Error W (List CommitInfo)
  unfolding ◌>>=◌
  git_log handle path n = do
    stdout ← read handle "git log" (log_command path n)
    unpacked (commits_of system.strip (system.splitlines (system.strip stdout)))

  -- `MirrorHandle.fetch`; the lock of the repository makes it one step.
  abbrev pub fetch : MirrorHandle → MirrorConfig → Exec Error W (Unit {0})
  fetch handle config = fetch_mirror handle.repo_id config

  unfoldable pub get_mirror : String → MirrorConfig → Exec Error W MirrorHandle
  get_mirror repo_id config w =
      let path = mirror_path config repo_id in
      if system.exists path w
      then (ok (record { repo_id = repo_id; path = path }), w)
      else (err (mirror_not_found path), w)
