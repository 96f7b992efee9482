-- ===== src/Evaluation/Report/Tests.antt =====
-- A report of a small run on a disk that is a table of texts, and the theorems about it there.
use Prim.Native.String.{◌++◌ as cat, count}
use text.Mathlib.TextLemmas.{append_cancel_left}
use text.Mathlib.TextEquality.{eq_iff}
use kenjutsu.Base.{
  Option, false, inl, inr, Bool-cases, ◌∙◌, String, true, ◌≡◌, refl, ap, [], ◌∷◌, arith, string_eq,
  ◌==◌, ◌≢◌,
}
use kenjutsu.Dict.{Dict, empty, get, put, get-put}
use kenjutsu.Evaluation.Metrics.{Ratio}
use kenjutsu.Evaluation.Report.{Disk, Rounding}
use kenjutsu.Evaluation.Report.Summary.{Payload, payload, report_lines, report_stem, write_report}
use kenjutsu.Evaluation.Report.Files.{IsDisk, Leaves, report_of, write_report-Leaves}
use kenjutsu.Evaluation.Report.Sums.{Consistent, payload-Consistent}
use kenjutsu.Evaluation.Tests.{pr, results, metrics, run_eval_run, pipeline, computed, display}

abbrev World : Type 0
World = Dict String String

abbrev disk : Disk World
disk = record {
  child = λ dir name. cat dir (cat "/" name);
  mkdir = λ path w. (true, w);
  write_text = λ path text w. (true, put w path text);
  timestamp = λ w. "20260301T120000Z";
}

abbrev read : String → World → Option String
read path w = get w path

different : (a b : String) → a ≢ b → (a == b) ≡ false
different a b ne = elim (Bool-cases (a == b)) [ inl y ↦ absurd (ne ((eq_iff a b).0 y)) | inr n ↦ n ]

disk-IsDisk : IsDisk disk read
disk-IsDisk = record {
  written = λ path text w h. get-put w path text path ∙ rw ((eq_iff path path).1 refl) refl;
  others = λ path other text w ne. get-put w path text other ∙ rw (different path other ne) refl;
  made = λ path other w. refl;
  apart = λ dir stem e. absurd (
      omega (
        arith,
        ap count (
            append_cancel_left stem ".json" ".md"
              (append_cancel_left "/" _ _ (append_cancel_left dir _ _ e))),
      ));
}

abbrev rounding : Rounding Ratio
rounding = record { round = λ d v. v; round_lift = λ d v. v.minuend }

abbrev dumps : Payload Ratio → String
dumps p = p.variant

write_report-Leaves_example :
    Leaves disk read
      (report_of disk "results"
        (report_stem metrics "20260301T120000Z")
        (dumps (payload rounding 100 metrics results "20260301T120000Z"))
        (report_lines display 100 metrics results "20260301T120000Z"))
      empty
      (write_report disk rounding display 100 dumps metrics results "results" empty)
write_report-Leaves_example =
    write_report-Leaves disk read rounding display 100 dumps disk-IsDisk metrics results "results"
      empty

payload-Consistent_example :
    Consistent rounding 100
      (pr ∷ [])
      results
      (payload rounding 100 metrics results "20260301T120000Z")
payload-Consistent_example =
    payload-Consistent rounding 100 pipeline "structural" (pr ∷ []) 0 results metrics
      "20260301T120000Z" (ap (λ r. r.0) run_eval_run) computed
