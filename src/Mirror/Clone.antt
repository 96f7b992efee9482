-- ===== src/Mirror/Clone.antt =====
-- kenjutsu/mirror/lifecycle.py: the life of a mirror that git has cloned.
use kenjutsu.Base.{ℕ, String, true, false, ◌≡◌, none, some}
use kenjutsu.Effect.{Result, ok, err}
use kenjutsu.Mirror.{
  System, Error, mirror_clone_error, mirror_already_exists, os_error, MirrorConfig, mirror_path,
  clone_command, clone_new, clone_mirror, fetch_existing, fetch_mirror, delete_mirror,
}

-- What is relied on: a clone that succeeds leaves its directory there, git in a mirror neither makes
-- nor removes one, and a tree that was removed is not there.
pub record IsFileSystem {W : Type 0} (system : System W) : Type 0 where
  pub cloned :
      (url dest : String) (config : MirrorConfig) (size : ℕ) (w : W)
      → (system.run none (clone_command system url dest config size) w).0.succeeded ≡ true
      → system.exists dest (system.run none (clone_command system url dest config size) w).1 ≡ true
  pub kept :
      (cwd path : String) (command : _) (w : W)
      → system.exists path (system.run (some cwd) command w).1 ≡ system.exists path w
  pub removed :
      (path : String) (w : W)
      → (system.rmtree path w).0 ≡ true
      → system.exists path (system.rmtree path w).1 ≡ false

module _ {W : Type 0} (system : System W) (repo_id : String) (config : MirrorConfig) where
  -- How a clone may end that git has made, how a fetch may not end then, and how a deletion ends: with
  -- no mirror, so that the next call of clone_mirror clones, or with the OSError of `rmtree`.
  abbrev pub EndsClone : Result Error String → Type 0
  EndsClone (ok path) = path ≡ mirror_path system config repo_id
  EndsClone (err e) = (stderr : String) × (e ≡ mirror_clone_error stderr)

  abbrev pub EndsDelete : Result Error (Unit {0}) × W → Type 0
  EndsDelete (ok done, v) =
      (url : String) (size : ℕ)
      → clone_mirror system url repo_id config size v
        ≡ clone_new system url (mirror_path system config repo_id) config size v
  EndsDelete (err e, v) = e ≡ os_error

  -- There is a mirror: it is not cloned again, a fetch finds it, and it can be deleted.
  pub record HasMirror (w : W) : Type 0 where
    pub refused :
        (url : String) (size : ℕ)
        → clone_mirror system url repo_id config size w
          ≡ (err (mirror_already_exists (mirror_path system config repo_id)), w)
    pub found :
        fetch_mirror system repo_id config w
        ≡ fetch_existing system (mirror_path system config repo_id) w
    pub deleted : EndsDelete (delete_mirror system repo_id config w)

  module _ (law : IsFileSystem system) where
    abbrev dest : String
    dest = mirror_path system config repo_id
