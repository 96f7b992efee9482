-- ===== src/Evaluation/Verdict.antt =====
-- The verdict of `compare_variants` in kenjutsu/evaluation/runner.py.
use kenjutsu.Base.{
  Bool, true, ◌&&◌, ◌*◌, ◌<◌, ◌≡◌, some, List, arith, ltb, sum_map, length, Bool-cases, ltb→lt, inl,
  inr,
}
use kenjutsu.Evaluation.{EvalResult}
use kenjutsu.Evaluation.Metrics.{ratio_or_zero, above}
use kenjutsu.Evaluation.Compare.{graph_tps, graph_origin_fraction}

pub and_parts : (a b : Bool) → (a && b) ≡ true → (a ≡ true) × (b ≡ true)
and_parts a b h = ground arith

pub fraction_above :
    (results : List EvalResult)
    → above (graph_origin_fraction (some results)) 20 100 ≡ true
    → sum_map (λ r. length r.true_positives) results < 5 * graph_tps results
unfolding graph_origin_fraction ratio_or_zero
fraction_above results h =
    let total = sum_map (λ r. length r.true_positives) results in
    let found = graph_tps results in
    elim (Bool-cases (ltb 0 total)) [
      | inl y ↦ omega (arith, ltb→lt (20 * total) (found * 100) (rw y at h))
      | inr n ↦ absurd (omega (arith, ltb→lt 20 0 (rw n at h)))
    ]
