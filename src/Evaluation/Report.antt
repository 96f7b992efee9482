-- ===== src/Evaluation/Report.antt =====
-- The reports of kenjutsu/evaluation/runner.py: the files they are written to. The file system, the
-- clock and `json.dumps` are parameters; an OSError of a call is its answer `false`.
pub mod Summary
pub mod Comparison
mod Sums
mod Files
mod Tables
mod Columns
mod Tests
use Prim.Native.String.{◌++◌ as cat}
use kenjutsu.Base.{ℕ, String, Bool, true, false, List, [], ◌∷◌, ◌*◌}
use kenjutsu.Effect.{Exec, ok, err, pure, ◌>>=◌, ◌>>◌}
use kenjutsu.Evaluation.Display.{concat, Difference, Display}
use kenjutsu.Evaluation.Metrics.{Ratio}
use kenjutsu.Finding.{join}

pub data OsError : Type 0 where
  os_error : OsError

-- `path / name`, `mkdir(parents=True, exist_ok=True)`, `write_text`, and the time now in the format
-- `%Y%m%dT%H%M%SZ`.
pub record Disk (W : Type 0) : Type 0 where
  pub child : String → String → String
  pub mkdir : String → W → Bool × W
  pub write_text : String → String → W → Bool × W
  pub timestamp : W → String

-- `round(v, d)` of a float, whose result is an `F`, and of a lift.
pub record Rounding (F : Type 0) : Type 0 where
  pub round : ℕ → Ratio → F
  pub round_lift : ℕ → Difference → F

-- Costs are counted in units, of which a dollar has so many.
abbrev pub dollars : ℕ → Ratio → Ratio
dollars units cost = record { num = cost.num; den = cost.den * units }

abbrev pub whole : ℕ → Ratio
whole n = record { num = n; den = 1 }

module _ {W : Type 0} (disk : Disk W) where
  abbrev raised_unless : Bool × W → Exec OsError W (Unit {0})
  raised_unless (true, w) s = (ok tt, w)
  raised_unless (false, w) s = (err os_error, w)

  unfoldable pub make_dir : String → Exec OsError W (Unit {0})
  make_dir path w = raised_unless (disk.mkdir path w) w

  unfoldable pub put_text : String → String → Exec OsError W (Unit {0})
  put_text path text w = raised_unless (disk.write_text path text w) w

  abbrev pub json_path : String → String → String
  json_path output_dir stem = disk.child output_dir (cat stem ".json")

  abbrev pub md_path : String → String → String
  md_path output_dir stem = disk.child output_dir (cat stem ".md")

  -- What both reports do once the directory is there, from the stem of the files, their JSON and the
  -- lines of their markdown, all of which have the time in them.
  unfoldable pub put_report :
      String
      → (String → String)
      → (String → String)
      → (String → List String)
      → Exec OsError W (String × String)
  unfolding ◌>>=◌ ◌>>◌ pure
  put_report output_dir stem json lines w =
      let time = disk.timestamp w in
      (do
        put_text (json_path output_dir (stem time)) (json time)
        put_text (md_path output_dir (stem time)) (cat (join "\n" (lines time)) "\n")
        pure (json_path output_dir (stem time), md_path output_dir (stem time)))
        w

  unfoldable pub write_files :
      String
      → (String → String)
      → (String → String)
      → (String → List String)
      → Exec OsError W (String × String)
  unfolding ◌>>=◌ ◌>>◌
  write_files output_dir stem json lines = do
    make_dir output_dir
    put_report output_dir stem json lines
