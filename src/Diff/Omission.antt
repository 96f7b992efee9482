-- ===== src/Diff/Omission.antt =====
-- `_apply_deletion_omission` of kenjutsu/diff/parser.py: what is left, and that no addition is lost.
use kenjutsu.Base.{
  ℕ, true, false, not, ◌+◌, ◌≡◌, refl, List, [], ◌∷◌, filter, All, count, sum_map, arith,
  Bool-cases, inl, inr, if◌then◌else◌,
}
use kenjutsu.Diff.{
  HunkLine, Hunk, PatchFile, is_add, any_add, is_deletion_only, is_deleted_file, additions,
}
use kenjutsu.Diff.Parser.{without_deletions, apply_deletion_omission}

-- A file that is there after the change, with an added line in each hunk.
pub record Reviewable (patch : PatchFile) : Type 0 where
  pub file : is_deleted_file patch ≡ false
  pub hunks : All (λ hunk. any_add hunk.lines ≡ true) patch.hunks

-- The additions of the files that were not deleted.
abbrev pub kept_additions : List PatchFile → ℕ
kept_additions [] = 0
kept_additions (patch ∷ patches) =
    (if is_deleted_file patch then 0 else additions patch) + kept_additions patches

any_add-count : (lines : List HunkLine) → any_add lines ≡ false → count is_add lines ≡ 0
any_add-count [] h = refl
any_add-count (line ∷ lines) h = elim (Bool-cases (is_add line)) [
  | inl y ↦ absurd (ground (arith, rw y at h))
  | inr n ↦ rw n (any_add-count lines (rw n at h))
]

filter-additions :
    (hunks : List Hunk)
    → sum_map (λ hunk. count is_add hunk.lines) (filter (λ hunk. not (is_deletion_only hunk)) hunks)
      ≡ sum_map (λ hunk. count is_add hunk.lines) hunks
filter-additions [] = refl
filter-additions (hunk ∷ hunks) = elim (Bool-cases (any_add hunk.lines)) [
  | inl y ↦ rw y (omega (arith, filter-additions hunks))
  | inr n ↦ rw n (omega (arith, any_add-count hunk.lines n, filter-additions hunks))
]

filter-added :
    (hunks : List Hunk)
    → All (λ hunk. any_add hunk.lines ≡ true) (filter (λ hunk. not (is_deletion_only hunk)) hunks)
filter-added [] = tt
filter-added (hunk ∷ hunks) = elim (Bool-cases (any_add hunk.lines)) [
  | inl y ↦ rw y (y, filter-added hunks)
  | inr n ↦ rw n (filter-added hunks)
]

-- What the omission is to give.
pub record Omitted (patches result : List PatchFile) : Type 0 where
  pub reviewable : All Reviewable result
  pub same_additions : sum_map additions result ≡ kept_additions patches

-- Deletion omission leaves files that were not deleted and hunks with an addition, and the number of
-- added lines is that of the files that were not deleted.
pub apply_deletion_omission-Omitted :
    (patches : List PatchFile) → Omitted patches (apply_deletion_omission patches)
unfolding apply_deletion_omission without_deletions
apply_deletion_omission-Omitted [] = record { reviewable = tt; same_additions = refl }
apply_deletion_omission-Omitted (patch ∷ patches) =
    let rest = apply_deletion_omission-Omitted patches in
    elim (Bool-cases (is_deleted_file patch)) [
      | inl y ↦ rw y (record {
        reviewable = rest.reviewable;
        same_additions = rw y (omega (arith, rest.same_additions));
      })
      | inr n ↦ rw n (record {
        reviewable = (record { file = n; hunks = filter-added patch.hunks }, rest.reviewable);
        same_additions = rw n (omega (arith, rest.same_additions, filter-additions patch.hunks));
      })
    ]
