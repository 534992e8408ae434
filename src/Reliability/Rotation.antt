-- ===== src/Reliability/Rotation.antt =====
-- src-tauri/src/reliability/rotation.rs: when a log rolls, and which rotated files go. The file system
-- is `scan_rotated`'s list and a function that says which paths can be removed.
use mathlib.Core.List.{Perm}
use weftgrid.Base.{
  ◌⊎◌, ℕ, suc, ◌+◌, ◌*◌, ◌<◌, ◌≤◌, ◌≡◌, refl, ap, Bool, true, false, ◌||◌, List, [], ◌∷◌, map,
  arith, leb, leb→le, if◌then◌else◌, Bool-cases, inl, inr, take, drop, All, count_if, Bytes,
}
use weftgrid.Base.Sort.{sort_by, IsSorted, sort_by-IsSorted, sort_by-perm}

pub record RotationPolicy : Type 0 where
  pub max_bytes : ℕ
  pub max_age : ℕ
  pub keep_files : ℕ

abbrev pub default_policy : RotationPolicy
default_policy = record {
  max_bytes = 10 * 1024 * 1024;
  max_age = 14 * 24 * 60 * 60 * 1000000000;
  keep_files = 7;
}

unfoldable pub should_rotate : RotationPolicy → ℕ → ℕ → Bool
should_rotate policy current_size age = leb policy.max_bytes current_size || leb policy.max_age age

pub record RotatedFile : Type 0 where
  pub path : Bytes
  pub age : ℕ

-- The loop of `plan_retention` from index `idx` on.
unfoldable pub doomed_from : RotationPolicy → ℕ → List RotatedFile → List Bytes
doomed_from policy idx [] = []
doomed_from policy idx (f ∷ fs) =
    if leb policy.keep_files idx || leb policy.max_age f.age
    then f.path ∷ doomed_from policy (idx + 1) fs
    else doomed_from policy (idx + 1) fs

abbrev pub is_newer : RotatedFile → RotatedFile → Bool
is_newer f g = leb f.age g.age

unfoldable pub plan_retention : RotationPolicy → List RotatedFile → List Bytes
unfolding doomed_from sort_by
plan_retention policy files = doomed_from policy 0 (sort_by is_newer files)

-- `apply_retention` over the scanned files: how many of the doomed files were removed.
unfoldable pub apply_retention : RotationPolicy → List RotatedFile → (Bytes → Bool) → ℕ
unfolding plan_retention
apply_retention policy files can_remove = count_if can_remove (plan_retention policy files)

abbrev pub IsYoung : RotationPolicy → RotatedFile → Type 0
IsYoung policy f = f.age < policy.max_age

-- How many of the files stay, from index `idx` on.
kept : RotationPolicy → ℕ → List RotatedFile → ℕ
kept policy idx [] = 0
kept policy idx (f ∷ fs) =
    if leb policy.keep_files idx || leb policy.max_age f.age
    then 0
    else suc (kept policy (idx + 1) fs)

module _ (policy : RotationPolicy) where
  -- The split of the files of age-sorted `fs` after the first `n`.
  abbrev IsSplit : ℕ → List RotatedFile → ℕ → Type 0
  IsSplit idx fs n =
      (doomed_from policy idx fs ≡ map (λ f. f.path) (drop n fs))
      × ((n ≡ 0) ⊎ (idx + n ≤ policy.keep_files))
      × All (IsYoung policy) (take n fs)
      × ((policy.keep_files ≤ idx + n) ⊎ All (λ f. policy.max_age ≤ f.age) (drop n fs))

  all_over :
      (idx : ℕ) (fs : List RotatedFile)
      → policy.keep_files ≤ idx
      → doomed_from policy idx fs ≡ map (λ f. f.path) fs
  unfolding doomed_from
  all_over idx [] h = refl
  all_over idx (f ∷ fs) h = ground (arith, h, all_over (idx + 1) fs (omega (arith, h)))

  All-old :
      (idx : ℕ) (f : RotatedFile) (fs : List RotatedFile)
      → policy.max_age ≤ f.age
      → All (λ g. is_newer f g ≡ true) fs
      → (doomed_from policy idx fs ≡ map (λ f. f.path) fs) × All (λ g. policy.max_age ≤ g.age) fs
  unfolding doomed_from
  All-old idx f [] h s = (refl, tt)
  All-old idx f (g ∷ fs) h s =
      let rest = All-old (idx + 1) f fs h s.1 in
      let old : policy.max_age ≤ g.age = omega (arith, h, leb→le f.age g.age s.0) in
      (ground (arith, rest.0, old), (old, rest.1))

  kept-IsSplit :
      (idx : ℕ) (fs : List RotatedFile) → IsSorted is_newer fs → IsSplit idx fs (kept policy idx fs)
  unfolding doomed_from kept
  kept-IsSplit idx [] s = (refl, inl refl, tt, inr tt)
  kept-IsSplit idx (f ∷ fs) s = elim (Bool-cases (leb policy.keep_files idx)) [
    | inl over ↦
        rw (kept, doomed_from, over)
          (
            ap (◌∷◌ f.path) (all_over (idx + 1) fs (ground (arith, over))),
            inl refl,
            tt,
            inl (ground (arith, over)),
          )
    | inr under ↦ elim (Bool-cases (leb policy.max_age f.age)) [
      | inl old ↦
          let rest = All-old (idx + 1) f fs (leb→le _ _ old) s.0 in
          rw (kept, doomed_from, under, old)
            (ap (◌∷◌ f.path) rest.0, inl refl, tt, inr (leb→le _ _ old, rest.1))
      | inr young ↦
          let rest = kept-IsSplit (idx + 1) fs s.1 in
          rw (kept, doomed_from, under, young)
            (
              rest.0,
              inr (ground (arith, under, rest.1)),
              (ground (arith, young), rest.2),
              ground (arith, rest.3),
            )
    ]
  ]

is_newer-total : (f g : RotatedFile) → is_newer f g ≡ false → is_newer g f ≡ true
is_newer-total f g h = ground arith

is_newer_trans :
    (f g h : RotatedFile) → is_newer f g ≡ true → is_newer g h ≡ true → is_newer f h ≡ true
is_newer_trans f g h p q = ground arith

-- With the files from the newest to the oldest, those to delete are all from some index on: the
-- index is at most `keep_files`, every file before it is younger than `max_age`, and it is
-- `keep_files` or every file from there on has that age.
pub plan_retention-split :
    (policy : RotationPolicy) (files : List RotatedFile)
    → (sorted : List RotatedFile) × (n : ℕ) × Perm sorted files
      × IsSorted is_newer sorted
      × (plan_retention policy files ≡ map (λ f. f.path) (drop n sorted))
      × (n ≤ policy.keep_files)
      × All (IsYoung policy) (take n sorted)
      × ((policy.keep_files ≤ n) ⊎ All (λ f. policy.max_age ≤ f.age) (drop n sorted))
unfolding plan_retention
plan_retention-split policy files =
    let sorted = sort_by is_newer files in
    let s = sort_by-IsSorted is_newer is_newer-total is_newer_trans files in
    let split = kept-IsSplit policy 0 sorted s in
    (
      sorted,
      kept policy 0 sorted,
      sort_by-perm is_newer files,
      s,
      split.0,
      ground (arith, split.1),
      split.2,
      ground (arith, split.3),
    )
