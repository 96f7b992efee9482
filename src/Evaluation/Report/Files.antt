-- ===== src/Evaluation/Report/Files.antt =====
-- What the reports of kenjutsu/evaluation/runner.py leave on the disk.
use Prim.Native.String.{◌++◌ as cat}
use kenjutsu.Base.{
  ℕ, String, true, List, ◌≡◌, ◌≢◌, refl, Option, some, inl, inr, ◌⊎◌, Bool-cases, ◌∙◌, sym,
}
use kenjutsu.Effect.{Result, ok, err, pure, ◌>>=◌, ◌>>◌}
use kenjutsu.Finding.{join}
use kenjutsu.Evaluation.{EvalResult}
use kenjutsu.Evaluation.Metrics.{EvalMetrics}
use kenjutsu.Evaluation.Display.{Display, Floats}
use kenjutsu.Evaluation.Compare.{ComparisonReport}
use kenjutsu.Evaluation.Report.Comparison.{
  ComparisonPayload, comparison_payload, comparison_lines, comparison_stem, write_comparison_report,
}
use kenjutsu.Evaluation.Report.{
  OsError, os_error, Disk, Rounding, make_dir, put_text, put_report, write_files, json_path,
  md_path,
}
use kenjutsu.Evaluation.Report.Summary.{Payload, payload, report_lines, report_stem, write_report}

-- What is relied on, for paths that stand for one file each: a file that was written holds the text, a
-- write or the making of a directory leaves the other files as they are, and two names in a directory
-- that differ in their suffix are two files.
pub record IsDisk {W : Type 0} (disk : Disk W) (read : String → W → Option String) : Type 0 where
  pub written :
      (path text : String) (w : W)
      → (disk.write_text path text w).0 ≡ true
      → read path (disk.write_text path text w).1 ≡ some text
  pub others :
      (path other text : String) (w : W)
      → path ≢ other
      → read other (disk.write_text path text w).1 ≡ read other w
  pub made : (path other : String) (w : W) → read other (disk.mkdir path w).1 ≡ read other w
  pub apart :
      (dir stem : String) → disk.child dir (cat stem ".json") ≢ disk.child dir (cat stem ".md")

-- The texts of the two files, and their paths.
pub record Files : Type 0 where
  pub json_path : String
  pub md_path : String
  pub json : String
  pub markdown : String

-- The files of a report.
module _ {W : Type 0} (disk : Disk W) where
  abbrev pub report_of : (output_dir stem json : String) (lines : List String) → Files
  report_of output_dir stem json lines = record {
    json_path = json_path disk output_dir stem;
    md_path = md_path disk output_dir stem;
    json = json;
    markdown = cat (join "\n" lines) "\n";
  }

module _ {W : Type 0} (disk : Disk W) (read : String → W → Option String) where
  -- No file but these two is changed.
  abbrev pub KeepsOthers : Files → W → W → Type 0
  KeepsOthers f before after =
      (other : String)
      → f.json_path ≢ other
      → f.md_path ≢ other
      → read other after ≡ read other before

  -- How the writing of a report ends: both files are there with their texts and their paths are
  -- returned, or a call of the disk failed. Other files are not changed either way.
  unfoldable pub Leaves : Files → W → Result OsError (String × String) × W → Type 0
  Leaves f before (ok paths, after) =
      (paths ≡ (f.json_path, f.md_path))
      × (read f.json_path after ≡ some f.json)
      × (read f.md_path after ≡ some f.markdown)
      × KeepsOthers f before after
  Leaves f before (err e, after) = KeepsOthers f before after

module _ {W : Type 0} (disk : Disk W) (read : String → W → Option String)
    (law : IsDisk disk read) where
  put_text-cases :
      (path text : String) (w : W)
      → ((put_text disk path text w ≡ (ok tt, (disk.write_text path text w).1))
          × ((disk.write_text path text w).0 ≡ true))
        ⊎ (put_text disk path text w ≡ (err os_error, (disk.write_text path text w).1))
  unfolding put_text
  put_text-cases path text w = elim (Bool-cases (disk.write_text path text w).0) [
    | inl y ↦ inl (rw (y, put_text) refl, y)
    | inr n ↦ inr (rw (n, put_text) refl)
  ]

  put_report-Leaves :
      (output_dir : String) (stem json : String → String) (lines : String → List String) (w : W)
      → let time = disk.timestamp w in
        Leaves disk read
          (report_of disk output_dir (stem time) (json time) (lines time))
          w
          (put_report disk output_dir stem json lines w)
  unfolding put_report ◌>>=◌ ◌>>◌ pure Leaves
  put_report-Leaves output_dir stem json lines w =
      let time = disk.timestamp w in
      let a = json_path disk output_dir (stem time) in
      let b = md_path disk output_dir (stem time) in
      let text = json time in
      let page = cat (join "\n" (lines time)) "\n" in
      let w1 = (disk.write_text a text w).1 in
      elim (put_text-cases a text w) [
        | inr failed ↦ rw failed (λ other x y. law.others a other text w x)
        | inl put ↦ rw put.0 (elim (put_text-cases b page w1) [
          | inr failed ↦
              rw failed (λ other x y. law.others b other page w1 y ∙ law.others a other text w x)
          | inl done ↦ rw done.0 (
            refl,
            law.others b a page w1 (λ e. law.apart output_dir (stem time) (sym e))
                ∙ law.written a text w put.1,
            law.written b page w1 done.1,
            λ other x y. law.others b other page w1 y ∙ law.others a other text w x,
          )
        ])
      ]

  -- How the writing of a report ends, from a world in which no directory was made yet.
  Leaves-made :
      (f : Files) (dir : String) (w : W) (run : Result OsError (String × String) × W)
      → Leaves disk read f (disk.mkdir dir w).1 run
      → Leaves disk read f w run
  unfolding Leaves
  Leaves-made f dir w (ok paths, after) h =
      (h.0, h.1, h.2, λ other x y. h.3 other x y ∙ law.made dir other w)
  Leaves-made f dir w (err e, after) h = λ other x y. h other x y ∙ law.made dir other w

  pub write_files-Leaves :
      (output_dir : String) (stem json : String → String) (lines : String → List String) (w : W)
      → let time = disk.timestamp (disk.mkdir output_dir w).1 in
        Leaves disk read
          (report_of disk output_dir (stem time) (json time) (lines time))
          w
          (write_files disk output_dir stem json lines w)
  unfolding write_files make_dir ◌>>=◌ ◌>>◌ Leaves
  write_files-Leaves output_dir stem json lines w = elim (Bool-cases (disk.mkdir output_dir w).0) [
    | inl y ↦ rw y (
        Leaves-made _ output_dir w _
          (put_report-Leaves output_dir stem json lines (disk.mkdir output_dir w).1))
    | inr n ↦ rw n (λ other x y. law.made output_dir other w)
  ]

module _ {F W : Type 0} (disk : Disk W) (read : String → W → Option String) (rounding : Rounding F)
    (display : Display) (units : ℕ) (dumps : Payload F → String) where
  -- On a disk that holds what is written to it, `write_report` ends in one of two ways: it returns the
  -- paths of two files, the first of which holds the JSON of the payload and the second the lines of
  -- the report, both with the time after the directory was made; or a call of the disk failed. In
  -- either way no other file has changed.
  pub write_report-Leaves :
      IsDisk disk read
      → (m : EvalMetrics) (results : List EvalResult) (output_dir : String) (w : W)
      → let time = disk.timestamp (disk.mkdir output_dir w).1 in
        Leaves disk read
          (report_of disk output_dir
            (report_stem m time)
            (dumps (payload rounding units m results time))
            (report_lines display units m results time))
          w
          (write_report disk rounding display units dumps m results output_dir w)
  unfolding write_report
  write_report-Leaves law m results output_dir w =
      write_files-Leaves disk read law output_dir (report_stem m) _ _ w

module _ {F W : Type 0} (disk : Disk W) (read : String → W → Option String) (floats : Floats F)
    (rounding : Rounding F) (display : Display) (dumps : ComparisonPayload F → String) where
  -- The same of `write_comparison_report`, with the payload and the lines of the comparison.
  pub write_comparison_report-Leaves :
      IsDisk disk read
      → (report : ComparisonReport) (s d : EvalMetrics) (output_dir : String) (w : W)
      → let time = disk.timestamp (disk.mkdir output_dir w).1 in
        Leaves disk read
          (report_of disk output_dir
            (comparison_stem time)
            (dumps (comparison_payload rounding report s d time))
            (comparison_lines floats display report time))
          w
          (write_comparison_report disk floats rounding display dumps report s d output_dir w)
  unfolding write_comparison_report
  write_comparison_report-Leaves law report s d output_dir w =
      write_files-Leaves disk read law output_dir comparison_stem _ _ w
